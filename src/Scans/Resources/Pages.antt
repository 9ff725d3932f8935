-- ===== src/Scans/Resources/Pages.antt =====
-- The pages of a search, and the list as a search.
use Prim.Native.String.{compare}
use Prim.Native.Nat.{Ordering}
use text.Mathlib.Text.{is_eq}
use compliance_engine.Common.{
  keep-congr, ℕ, ◌+◌, ◌≤◌, String, Bool, true, false, ◌&&◌, Option, none, some, List, [], ◌∷◌, ◌++◌,
  map, ◌≡◌, refl, sym, ap, ◌∙◌, str_eq, eq_iff, if◌then◌else◌, keep, take, drop, All, arith,
  Bool-cases, inl, inr, count_mono, length-keep,
}
use compliance_engine.Common.Pages.{take-all, drop-drop, take-append, map-append}
use compliance_engine.Common.Sort.{sort_by, insert_by, length-sort_by}
use compliance_engine.Json.{Json}
use compliance_engine.Policy.Catalog.{given}
use compliance_engine.Compliance.Store.{text_le}
use compliance_engine.Scans.Rows.{Resource, World}
use compliance_engine.Scans.Inventory.{public_asset, resource_le, list_assets, count_resources}
use compliance_engine.Scans.Resources.{
  AssetFilter, list_given, search, meets, of_scan, list_resources, list_of_type,
}

is_eq-eq : (o : Ordering) → is_eq o ≡ true → o ≡ Ordering.eq
is_eq-eq Ordering.eq h = refl
is_eq-eq Ordering.lt h = cc
is_eq-eq Ordering.gt h = cc

-- Among resources of one type the identifier decides.
resource_le-one_type :
    (t : String) (r s : Resource)
    → str_eq r.resource_type t ≡ true
    → str_eq s.resource_type t ≡ true
    → text_le r.resource_id s.resource_id ≡ resource_le r s
resource_le-one_type t r s hr hs =
    rw
      (
        resource_le,
        is_eq-eq (compare r.resource_type s.resource_type) (
            (eq_iff r.resource_type s.resource_type).1
              ((eq_iff r.resource_type t).0 hr ∙ sym ((eq_iff s.resource_type t).0 hs))),
      )
      refl

module _ {A : Type 0} (P : A → Type 0) (le le' : A → A → Bool)
    (agree : (x y : A) → P x → P y → le x y ≡ le' x y) where
  All-insert_by : (x : A) (ys : List A) → P x → All P ys → All P (insert_by le x ys)
  unfolding insert_by
  All-insert_by x [] h hs = (h, tt)
  All-insert_by x (y ∷ ys) h (k, ks) = elim (Bool-cases (le x y)) [
    | inl below ↦ rw below (h, (k, ks))
    | inr above ↦ rw above (k, All-insert_by x ys h ks)
  ]

  insert_by-agree : (x : A) (ys : List A) → P x → All P ys → insert_by le x ys ≡ insert_by le' x ys
  unfolding insert_by
  insert_by-agree x [] h hs = refl
  insert_by-agree x (y ∷ ys) h (k, ks) =
      rw (agree x y h k)
        (ap (λ l. if le' x y then x ∷ y ∷ ys else y ∷ l) (insert_by-agree x ys h ks))

  sort_by-agree :
      (xs : List A) → All P xs → All P (sort_by le xs) × (sort_by le xs ≡ sort_by le' xs)
  unfolding sort_by
  sort_by-agree [] h = (tt, refl)
  sort_by-agree (x ∷ xs) (h, hs) =
      let (kept, same) = sort_by-agree xs hs in
      (
        All-insert_by x (sort_by le xs) h kept,
        insert_by-agree x (sort_by le xs) h kept ∙ ap (insert_by le' x) same,
      )

All-kept :
    {A : Type 0} (p : A → Bool) (q : A → Bool)
    → ((x : A) → p x ≡ true → q x ≡ true)
    → (xs : List A) → All (λ x. q x ≡ true) (keep p xs)
All-kept p q h [] = tt
All-kept p q h (x ∷ xs) = elim (Bool-cases (p x)) [
  | inl met ↦ rw met (h x met, All-kept p q h xs)
  | inr missed ↦ rw missed (All-kept p q h xs)
]

abbrev pub of_type : Option String → AssetFilter
of_type resource_type = record {
  q = none;
  resource_type = resource_type;
  tag_key = none;
  tag_value = none;
}

abbrev pub fits : (String → String → Bool) → (Json → String) → ℕ → ℕ → AssetFilter → Resource → Bool
fits contains_text jsonb_text tenant_id scan_id f r =
    of_scan tenant_id scan_id r && meets contains_text jsonb_text f r

and_first : (a b : Bool) → (a && b) ≡ true → a ≡ true
and_first true b h = refl
and_first false b h = cc

and_true : (a : Bool) → (a && true) ≡ a
and_true true = refl
and_true false = refl

and_inside : (a b : Bool) → (a && (b && true)) ≡ (a && b)
and_inside true true = refl
and_inside true false = refl
and_inside false b = refl

and_here : (a b : Bool) → (a && b) ≡ true → b ≡ true
and_here true b h = h
and_here false b h = cc

module _ (contains_text : String → String → Bool) (jsonb_text : Json → String)
    (tenant_id scan_id : ℕ) (w : World) where
  abbrev found : AssetFilter → List Resource
  found f =
      sort_by resource_le (keep (fits contains_text jsonb_text tenant_id scan_id f) w.resources)

  search-join :
      (f : AssetFilter) (a b offset : ℕ)
      → search contains_text jsonb_text tenant_id scan_id f a offset w
          ++ search contains_text jsonb_text tenant_id scan_id f b (offset + a) w
        ≡ search contains_text jsonb_text tenant_id scan_id f (a + b) offset w
  unfolding search
  search-join f a b offset =
      ap (λ l. map public_asset (take a (drop offset (found f))) ++ map public_asset (take b l))
        (drop-drop offset a (found f))
      ∙ sym (
          map-append public_asset (take a (drop offset (found f)))
            (take b (drop a (drop offset (found f)))))
      ∙ ap (map public_asset) (take-append a b (drop offset (found f)))

  search-whole :
      (f : AssetFilter) (n : ℕ)
      → count_resources tenant_id scan_id w ≤ n
      → search contains_text jsonb_text tenant_id scan_id f n 0 w ≡ map public_asset (found f)
  unfolding search count_resources
  search-whole f n h = ap (map public_asset) (
      take-all n (found f) (
        omega (
          arith,
          length-sort_by resource_le
              (keep (fits contains_text jsonb_text tenant_id scan_id f) w.resources),
          length-keep (fits contains_text jsonb_text tenant_id scan_id f) w.resources,
          count_mono (fits contains_text jsonb_text tenant_id scan_id f) (of_scan tenant_id scan_id)
              (λ r both. and_first (of_scan tenant_id scan_id r) _ both) w.resources,
        )))

  fits-of_type :
      (resource_type o : Option String)
      → given resource_type ≡ o
      → (r : Resource)
      → fits contains_text jsonb_text tenant_id scan_id (of_type resource_type) r ≡ (
          of_scan tenant_id scan_id r && elim o [ none ↦ true | some t ↦ str_eq r.resource_type t ])
  fits-of_type resource_type o e r =
      ap
        (λ o.
          of_scan tenant_id scan_id r
          && ((elim o [ none ↦ true | some t ↦ str_eq r.resource_type t ]) && true))
        e
      ∙ and_inside (of_scan tenant_id scan_id r) _

  list_given-search :
      (resource_type o : Option String) (limit offset : ℕ)
      → given resource_type ≡ o
      → list_given tenant_id scan_id o limit offset w
        ≡ search contains_text jsonb_text tenant_id scan_id (of_type resource_type) limit offset w
  unfolding list_assets list_of_type search
  list_given-search resource_type none limit offset e =
      ap (λ l. map public_asset (take limit (drop offset (sort_by resource_le l))))
        (keep-congr (of_scan tenant_id scan_id)
          (fits contains_text jsonb_text tenant_id scan_id (of_type resource_type))
          (λ r. sym (fits-of_type resource_type none e r ∙ and_true (of_scan tenant_id scan_id r)))
          w.resources)
  list_given-search resource_type (some t) limit offset e =
      let typed : Resource → Bool = λ r. of_scan tenant_id scan_id r && str_eq r.resource_type t in
      ap (λ l. map public_asset (take limit (drop offset l)))
        ((sort_by-agree (λ r. str_eq r.resource_type t ≡ true)
            (λ r s. text_le r.resource_id s.resource_id) resource_le (resource_le-one_type t)
            (keep typed w.resources)
            (All-kept typed (λ r. str_eq r.resource_type t) (λ r. and_here _ _) w.resources)).1
          ∙ ap (sort_by resource_le) (
              keep-congr typed
                (fits contains_text jsonb_text tenant_id scan_id (of_type resource_type))
                (λ r. sym (fits-of_type resource_type (some t) e r)) w.resources))

  -- For any filter, two consecutive pages of a search are the page of both sizes together;
  -- where the scan has at most `n` resources, the first page of size `n` has every resource
  -- of the scan that meets the filter, in the order of the types and identifiers; and the
  -- list of the resources, with a type or without, is the search with that type alone.
  pub search-Pages :
      (f : AssetFilter) (a b offset n : ℕ)
      → count_resources tenant_id scan_id w ≤ n
      → (search contains_text jsonb_text tenant_id scan_id f a offset w
            ++ search contains_text jsonb_text tenant_id scan_id f b (offset + a) w
          ≡ search contains_text jsonb_text tenant_id scan_id f (a + b) offset w)
        × (search contains_text jsonb_text tenant_id scan_id f n 0 w
            ≡ map public_asset (
                sort_by resource_le
                  (keep (fits contains_text jsonb_text tenant_id scan_id f) w.resources)))
        × ((resource_type : Option String)
            → list_resources tenant_id scan_id resource_type a offset w
              ≡ search contains_text jsonb_text tenant_id scan_id
                  (of_type resource_type)
                  a
                  offset
                  w)
  unfolding list_resources
  search-Pages f a b offset n h = (
    search-join f a b offset,
    search-whole f n h,
    λ resource_type. list_given-search resource_type (given resource_type) a offset refl,
  )
