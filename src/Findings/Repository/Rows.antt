-- ===== src/Findings/Repository/Rows.antt =====
-- The rows after the evaluation of a scan: each policy and each asset that it matches have the row
-- of their outcome.
use compliance_engine.Common.{
  All-keep, Has, Has-keep, ℕ, String, Bool, true, false, Option, none, some, List, [], ◌∷◌, ◌≡◌,
  ◌≢◌, refl, ◌∙◌, ap, inl, inr, All, keep, if◌then◌else◌,
}
use compliance_engine.Json.{Json, PyError}
use compliance_engine.Policy.Catalog.{PolicyDefinition}
use compliance_engine.Findings.Repository.{
  Finding, Key, Table, Outcome, key_of, find_row, status_of, upsert_row, upsert_finding,
  evaluate_asset, evaluate_scan,
}
use compliance_engine.Findings.Repository.Upsert.{
  find_row-upsert_row, merged, not-same_key, same_key_refl,
}
use compliance_engine.Findings.Repository.Counts.{
  IsAsset, id_of, matches, write, writes, write_all, evaluate_scan-IsAsset,
}

abbrev pub key : ℕ → ℕ → PolicyDefinition → Json → Key
key tenant_id scan_id p a = record {
  tenant_id = tenant_id;
  scan_id = scan_id;
  policy_id = p.policy_id;
  resource_id = id_of a;
}

-- The key has a row, with this outcome and this severity.
abbrev pub Records : Key → PolicyDefinition → Outcome → List Finding → Type 0
Records k p o rows =
    (f : Finding) × (find_row k rows ≡ some f)
    × (f.result ≡ o.result)
    × (f.status ≡ status_of o.result)
    × (f.evidence ≡ o.evidence)
    × (f.severity ≡ p.severity)

merged-result :
    (o : Option Finding) (n : Finding)
    → ((merged o n).result ≡ n.result)
      × ((merged o n).status ≡ n.status)
      × ((merged o n).evidence ≡ n.evidence)
      × ((merged o n).severity ≡ n.severity)
merged-result none n = (refl, refl, refl, refl)
merged-result (some old) n = (refl, refl, refl, refl)

find_row-upsert_row_self :
    (n : Finding) (rows : List Finding)
    → find_row (key_of n) (upsert_row n rows) ≡ some (merged (find_row (key_of n) rows) n)
find_row-upsert_row_self n rows =
    find_row-upsert_row (key_of n) n rows ∙ rw (same_key_refl (key_of n))

find_row-upsert_row_ne :
    (k : Key) (n : Finding) (rows : List Finding)
    → key_of n ≢ k
    → find_row k (upsert_row n rows) ≡ find_row k rows
find_row-upsert_row_ne k n rows h = find_row-upsert_row k n rows ∙ rw (not-same_key (key_of n) k h)

Records-upsert_row :
    (n : Finding) (p : PolicyDefinition) (o : Outcome) (rows : List Finding)
    → n.result ≡ o.result
    → n.status ≡ status_of o.result
    → n.evidence ≡ o.evidence
    → n.severity ≡ p.severity
    → Records (key_of n) p o (upsert_row n rows)
Records-upsert_row n p o rows a b c d =
    let (w, x, y, z) = merged-result (find_row (key_of n) rows) n in
    (
      merged (find_row (key_of n) rows) n,
      find_row-upsert_row_self n rows,
      w ∙ a,
      x ∙ b,
      y ∙ c,
      z ∙ d,
    )

Records-transport :
    (k : Key) (p : PolicyDefinition) (o : Outcome) (rows rows' : List Finding)
    → find_row k rows' ≡ find_row k rows
    → Records k p o rows
    → Records k p o rows'
Records-transport k p o rows rows' e (f, found, a, b, c, d) = (f, e ∙ found, a, b, c, d)

-- No asset of the list has this identifier.
abbrev pub Absent : String → List Json → Type 0
Absent r xs = All (λ a. id_of a ≢ r) xs

abbrev pub DistinctIds : List Json → Type 0
DistinctIds [] = Unit
DistinctIds (a ∷ xs) = Absent (id_of a) xs × DistinctIds xs

abbrev pub Unused : String → List PolicyDefinition → Type 0
Unused i ps = All (λ (q : PolicyDefinition). q.policy_id ≢ i) ps

abbrev pub DistinctPolicies : List PolicyDefinition → Type 0
DistinctPolicies [] = Unit
DistinctPolicies (p ∷ ps) = Unused p.policy_id ps × DistinctPolicies ps

DistinctIds-keep : (f : Json → Bool) (xs : List Json) → DistinctIds xs → DistinctIds (keep f xs)
DistinctIds-keep f [] h = tt
DistinctIds-keep f (a ∷ xs) (h, hs) = by_test (f a) (DistinctIds-keep f xs hs)
  where
    by_test :
        (b : Bool) → DistinctIds (keep f xs) → DistinctIds (if b then a ∷ keep f xs else keep f xs)
    by_test true k = (All-keep (λ b. id_of b ≢ id_of a) f xs h, k)
    by_test false k = k

module _ (describe : PyError → String) (tenant_id scan_id : ℕ) where
  find_row-write_self :
      (p : PolicyDefinition) (a : Json) (t : Table)
      → Records
          (key tenant_id scan_id p a)
          p
          (evaluate_asset describe p a)
          (write describe tenant_id scan_id p a t).rows
  unfolding write upsert_finding
  find_row-write_self p a t =
      Records-upsert_row _ p (evaluate_asset describe p a) t.rows refl refl refl refl

  find_row-write_ne :
      (k : Key) (p : PolicyDefinition) (a : Json) (t : Table)
      → key tenant_id scan_id p a ≢ k
      → find_row k (write describe tenant_id scan_id p a t).rows ≡ find_row k t.rows
  unfolding write upsert_finding
  find_row-write_ne k p a t h = find_row-upsert_row_ne k _ t.rows h

  writes-absent :
      (k : Key) (p : PolicyDefinition) (xs : List Json) (t : Table)
      → All (λ a. key tenant_id scan_id p a ≢ k) xs
      → find_row k (writes describe tenant_id scan_id p xs t).rows ≡ find_row k t.rows
  unfolding writes
  writes-absent k p [] t h = refl
  writes-absent k p (a ∷ xs) t (h, hs) = writes-absent k p xs _ hs ∙ find_row-write_ne k p a t h

  -- An identifier that no asset has makes a key that none of them writes.
  Absent-key :
      (p : PolicyDefinition) (a : Json) (xs : List Json)
      → Absent (id_of a) xs
      → All (λ b. key tenant_id scan_id p b ≢ key tenant_id scan_id p a) xs
  Absent-key p a [] h = tt
  Absent-key p a (b ∷ xs) (h, hs) =
      (λ e. h (ap (λ (k : Key). k.resource_id) e), Absent-key p a xs hs)

  writes-Records :
      (p : PolicyDefinition) (a : Json) (xs : List Json) (t : Table)
      → DistinctIds xs
      → Has a xs
      → Records
          (key tenant_id scan_id p a)
          p
          (evaluate_asset describe p a)
          (writes describe tenant_id scan_id p xs t).rows
  unfolding writes
  writes-Records p a [] t d m = absurd m
  writes-Records p a (b ∷ xs) t (d, ds) (inr m) = writes-Records p a xs _ ds m
  writes-Records p a (b ∷ xs) t (d, ds) (inl e) =
      Records-transport (key tenant_id scan_id p a) p (evaluate_asset describe p a) _ _
        (writes-absent _ p xs _ (Absent-key p a xs (rw e at d))) (rw e (find_row-write_self p a t))

  other_policy :
      (k : Key) (q : PolicyDefinition) (xs : List Json)
      → q.policy_id ≢ k.policy_id
      → All (λ b. key tenant_id scan_id q b ≢ k) xs
  other_policy k q [] h = tt
  other_policy k q (b ∷ xs) h = (λ e. h (ap (λ (k : Key). k.policy_id) e), other_policy k q xs h)

  write_all-Unused :
      (k : Key) (assets : List Json) (ps : List PolicyDefinition) (t : Table)
      → Unused k.policy_id ps
      → find_row k (write_all describe tenant_id scan_id assets ps t).rows ≡ find_row k t.rows
  unfolding write_all
  write_all-Unused k assets [] t h = refl
  write_all-Unused k assets (q ∷ ps) t (h, hs) =
      write_all-Unused k assets ps _ hs
      ∙ writes-absent k q (keep (matches q) assets) t (other_policy k q (keep (matches q) assets) h)

  write_all-Records :
      (p : PolicyDefinition) (a : Json) (assets : List Json) (ps : List PolicyDefinition)
      (t : Table)
      → DistinctIds assets
      → DistinctPolicies ps
      → Has p ps
      → Has a assets
      → matches p a ≡ true
      → Records
          (key tenant_id scan_id p a)
          p
          (evaluate_asset describe p a)
          (write_all describe tenant_id scan_id assets ps t).rows
  unfolding write_all
  write_all-Records p a assets [] t d ds m ma h = absurd m
  write_all-Records p a assets (q ∷ ps) t d (u, ds) (inr m) ma h =
      write_all-Records p a assets ps _ d ds m ma h
  write_all-Records p a assets (q ∷ ps) t d (u, ds) (inl e) ma h =
      Records-transport (key tenant_id scan_id p a) p (evaluate_asset describe p a) _ _
        (write_all-Unused (key tenant_id scan_id p a) assets ps _ (rw e at u))
        (rw e (
          writes-Records p a (keep (matches p) assets) t (DistinctIds-keep (matches p) assets d)
            (Has-keep (matches p) a assets h ma)))

  -- For assets as the repository returns them, with distinct resource ids, and policies with
  -- distinct ids: after the evaluation of a scan, each policy and each asset that it matches
  -- have a row under their key whose result, status, evidence and severity are those of
  -- evaluating that policy on that asset, whatever rows were there before.
  pub evaluate_scan-Records :
      (assets : List Json) (ps : List PolicyDefinition) (t : Table) (p : PolicyDefinition)
      (a : Json)
      → All IsAsset assets
      → DistinctIds assets
      → DistinctPolicies ps
      → Has p ps
      → Has a assets
      → matches p a ≡ true
      → Records
          (key tenant_id scan_id p a)
          p
          (evaluate_asset describe p a)
          (evaluate_scan describe tenant_id scan_id assets ps t).1.table.rows
  evaluate_scan-Records assets ps t p a good d ds m ma h =
      rw (evaluate_scan-IsAsset describe tenant_id scan_id assets ps t good)
        (write_all-Records p a assets ps t d ds m ma h)
