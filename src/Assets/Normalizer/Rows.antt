-- ===== src/Assets/Normalizer/Rows.antt =====
-- The rows that a collected file becomes: one for each item, under the scan's identifiers, and
-- relationships that start at them.
use compliance_engine.Common.{
  ℕ, String, ◌≡◌, refl, sym, List, [], ◌∷◌, ◌++◌, All, All-append, Result, ok, err, ◌>>=◌, sym,
  ok-inj, ◌∙◌, some, Bool-cases, length, Has, inl, inr, ◌∙◌, arith, str_eq,
}
use compliance_engine.Json.{
  Json, null, str, arr, obj, nil, Fields, PyError, find, find_or, index, get_or,
}
use compliance_engine.Assets.Values.{Row, Link, Rule, iterate, on_dict}
use compliance_engine.Assets.Rules.{Branch, branches}
use compliance_engine.Assets.Normalizer.{
  Asset, Origin, Normalized, asset, cloud_provider, branch_in, normalize_items, normalize_bronze,
  parse_collected_at, normalize_typed,
}
use compliance_engine.Assets.Normalizer.Links.{FromRow, Good, AllGood, branches-AllGood}

abbrev pub IsDict : Json → Type 0
IsDict (obj _) = Unit
IsDict _ = ⊥

-- What the arguments of `normalize_bronze` and the file give every row.
pub record IsCollected {Time : Type 0} (origin : Origin) (provider_type : String) (a : Asset Time)
    : Type 0 where
  pub tenant : a.tenant_id ≡ origin.tenant_id
  pub scan : a.scan_id ≡ origin.scan_id
  pub integration : a.integration_id ≡ origin.integration_id
  pub account : a.account_id ≡ origin.account_id
  pub typed : a.provider_type ≡ provider_type
  pub provided : a.provider ≡ cloud_provider provider_type
  pub starts : a.first_seen_at ≡ a.collected_at
  pub ends : a.last_seen_at ≡ a.collected_at

abbrev pub ids : {Time : Type 0} → List (Asset Time) → List Json
ids [] = []
ids (a ∷ rest) = a.resource_id ∷ ids rest

abbrev pub Attached : {Time : Type 0} → List (Asset Time) → List Link → Type 0
Attached assets links = All (λ (l : Link). Has l.from_resource_id (ids assets)) links

module _ {Time : Type 0} (origin : Origin) (t : String) where
  abbrev Rows : List Json → Result PyError (Normalized Time) → Type 0
  Rows items (err e) = Unit
  Rows items (ok (assets, links)) =
      (length assets ≡ length items)
      × All IsDict items
      × All (IsCollected origin t) assets
      × Attached assets links

abbrev FromDict : Json → Result PyError Row → Type 0
FromDict item (err e) = Unit
FromDict item (ok row) = IsDict item × FromRow row

run_branch-FromDict :
    (account_id : String) (first : PyError) (rule : Rule)
    → ((fs : Fields) → Good (rule account_id fs))
    → (item : Json) → FromDict item (on_dict first (rule account_id) item)
unfolding on_dict
run_branch-FromDict account_id first rule good (obj fs) = from_good (rule account_id fs) (good fs)
  where
    from_good : (r : Result PyError Row) → Good r → FromDict (obj fs) r
    from_good (err e) h = tt
    from_good (ok row) h = (tt, h)
run_branch-FromDict account_id first rule good null = tt
run_branch-FromDict account_id first rule good _ = tt

Attached-cons :
    {Time : Type 0} (a : Asset Time) (assets : List (Asset Time)) (links : List Link)
    → Attached assets links
    → Attached (a ∷ assets) links
Attached-cons a assets [] h = tt
Attached-cons a assets (l ∷ ls) (h, hs) = (inr h, Attached-cons a assets ls hs)

Attached-own :
    {Time : Type 0} (a : Asset Time) (assets : List (Asset Time)) (links : List Link)
    → All (λ (l : Link). l.from_resource_id ≡ a.resource_id) links
    → Attached (a ∷ assets) links
Attached-own a assets [] h = tt
Attached-own a assets (l ∷ ls) (h, hs) = (inl (sym h), Attached-own a assets ls hs)

module _ {Time : Type 0} (origin : Origin) (resource_type : Json) (t : String) (at : Time) where
  abbrev made : Row → Asset Time
  made row = asset origin resource_type t at row

  asset-IsCollected : (row : Row) → IsCollected origin t (made row)
  unfolding asset
  asset-IsCollected row = record {
    tenant = refl;
    scan = refl;
    integration = refl;
    account = refl;
    typed = refl;
    provided = refl;
    starts = refl;
    ends = refl;
  }

  Rows-cons :
      (item : Json) (items : List Json) (r : Result PyError Row)
      (rest : Result PyError (Normalized Time))
      → FromDict item r
      → Rows origin t items rest
      → Rows origin t
          (item ∷ items)
          (r >>= λ row. (rest >>= λ n. ok (made row ∷ n.0, row.links ++ n.1)))
  unfolding asset
  Rows-cons item items (err e) rest h k = tt
  Rows-cons item items (ok row) (err e) h k = tt
  Rows-cons item items (ok row) (ok (assets, links)) (d, from) (len, ds, cs, ls) = (
    omega (arith, len),
    (d, ds),
    (asset-IsCollected row, cs),
    All-append _ row.links links (Attached-own (made row) assets row.links from)
        (Attached-cons (made row) assets links ls),
  )

  normalize_items-Rows :
      (show : Json → String) (now : Time) (from_iso : List ℕ → Result PyError Time)
      (first : PyError) (rule : Rule)
      → ((fs : Fields) → Good (rule origin.account_id fs))
      → (items : List Json)
      → Rows origin t items
          (normalize_items show now from_iso origin resource_type t at (first, rule) items)
  unfolding normalize_items
  normalize_items-Rows show now from_iso first rule good [] = (refl, tt, tt, tt)
  normalize_items-Rows show now from_iso first rule good (item ∷ items) =
      Rows-cons item items _ _ (run_branch-FromDict origin.account_id first rule good item)
        (normalize_items-Rows show now from_iso first rule good items)

some-inj : {A : Type 0} {a b : A} → some a ≡ some b → a ≡ b
some-inj h = cc

index_lem : (k : String) (fs : Fields) (v : Json) → find k fs ≡ some v → index (obj fs) k ≡ ok v
unfolding index
index_lem k fs v h = rw (h, index)

branch_in-Good :
    (t account_id : String) (bs : List (String × Branch)) (branch : Branch)
    → AllGood bs
    → branch_in t bs ≡ some branch
    → (fs : Fields) → Good (branch.1 account_id fs)
branch_in-Good t account_id [] branch good h = cc
branch_in-Good t account_id ((s, (e, rule)) ∷ bs) branch (one, good) h =
    elim (Bool-cases (str_eq s t)) [
      | inl hit ↦ λ fs. rw (← some-inj (rw hit at h)) (one account_id fs)
      | inr miss ↦ branch_in-Good t account_id bs branch good (rw miss at h)
    ]

module _ {Time : Type 0} (show : Json → String) (now : Time)
    (from_iso : List ℕ → Result PyError Time) (origin : Origin) (fs : Fields) (t : String)
    (items : List Json) where
  Rows-bind :
      {A : Type 0} (m : Result PyError A) (k : A → Result PyError (Normalized Time))
      → ((a : A) → m ≡ ok a → Rows origin t items (k a))
      → Rows origin t items (m >>= k)
  Rows-bind (err e) k h = tt
  Rows-bind (ok a) k h = h a refl

  module _ (branch : Branch) (known : branch_in t (branches show) ≡ some branch) where
    typed-Rows :
        (resource_type : Json) (at : Time)
        → Rows origin t items
            (normalize_typed show now from_iso origin resource_type (str t) at items)
    typed-Rows resource_type at =
        rw (known, normalize_typed)
          (normalize_items-Rows origin resource_type t at show now from_iso branch.0 branch.1
            (branch_in-Good t origin.account_id (branches show) branch (branches-AllGood show)
              known)
            items)

    bronze-Rows :
        find "provider_type" fs ≡ some (str t)
        → iterate (find_or (arr nil) "items" fs) ≡ ok items
        → Rows origin t items (normalize_bronze show now from_iso origin (obj fs))
    unfolding normalize_bronze get_or
    bronze-Rows typed iterated = Rows-bind (index (obj fs) "provider_type") _ λ found e.
        Rows-bind (index (obj fs) "resource_type") _ λ resource_type _.
          Rows-bind (parse_collected_at show now from_iso (find_or null "collected_at" fs)) _
            λ at _. Rows-bind (iterate (find_or (arr nil) "items" fs)) _ λ xs es.
              rw
                (
                  ok-inj (sym es ∙ iterated),
                  ok-inj (sym e ∙ index_lem "provider_type" fs (str t) typed),
                )
                (typed-Rows resource_type at)

  -- Where a collected file has a provider type that the normaliser knows and normalising it
  -- does not raise: each of its items is a dict and gives one resource, with the identifiers
  -- that the caller passes, the file's provider type, the provider that belongs to it and
  -- equal times of collection and of first and last sight; and each relationship starts at
  -- one of these resources.
  pub normalize_bronze-Rows :
      (branch : Branch) (assets : List (Asset Time)) (links : List Link)
      → find "provider_type" fs ≡ some (str t)
      → branch_in t (branches show) ≡ some branch
      → iterate (find_or (arr nil) "items" fs) ≡ ok items
      → normalize_bronze show now from_iso origin (obj fs) ≡ ok (assets, links)
      → (length assets ≡ length items)
        × All IsDict items
        × All (IsCollected origin t) assets
        × Attached assets links
  normalize_bronze-Rows branch assets links typed known iterated h =
      rw h at (bronze-Rows branch known typed iterated)
