-- ===== src/Findings/Repository/Invariant.antt =====
-- What every upsert keeps, the evaluation of a scan keeps, whether it returns or raises.
use compliance_engine.Common.{
  ◌∙◌, >>=-eq-ok, ok-inj, Result-cases, inl, inr, sym, ℕ, String, Option, List, [], ◌∷◌, ◌≡◌, refl,
  arith, Result, ok, err, All,
}
use compliance_engine.Json.{Json, PyError}
use compliance_engine.Policy.Catalog.{PolicyDefinition}
use compliance_engine.Findings.Repository.{
  Finding, Key, Table, Outcome, Progress, Step, and_then, find_row, upsert_row, upsert_finding,
  matching, text_at, evaluate_asset, record_outcome, evaluate_assets, written, evaluate_matched,
  evaluate_policies, evaluate_scan, key_of, status_of,
}
use compliance_engine.Findings.Repository.Upsert.{
  not-same_key, find_row-upsert_row, Distinct, upsert_row-Distinct,
}

and_then-keeps :
    (P : Table → Type 0) (m : Step) (k : Progress → Step)
    → P m.1.table
    → ((s : Progress) → P s.table → P (k s).1.table)
    → P (and_then m k).1.table
and_then-keeps P (ok u, s) k h next = next s h
and_then-keeps P (err e, s) k h next = h

module _ (describe : PyError → String) (tenant_id scan_id : ℕ) (P : Table → Type 0)
    (keeps : (p : PolicyDefinition) (r rt : String) (o : Outcome) (t : Table)
      → P t
      → P (upsert_finding tenant_id scan_id p r rt o t)) where
  written-keeps :
      (p : PolicyDefinition) (asset : Json) (o : Outcome) (t u : Table)
      → written describe tenant_id scan_id p asset o t ≡ ok u
      → P t
      → P u
  unfolding written
  written-keeps p asset o t u h start =
      let (r, _, h') = >>=-eq-ok (text_at asset "resource_id") _ h in
      let (rt, _, done) = >>=-eq-ok (text_at asset "resource_type") _ h' in
      rw (ok-inj (sym done)) (keeps p r rt o t start)

  record_outcome-keeps :
      (p : PolicyDefinition) (asset : Json) (o : Outcome) (s : Progress)
      → P s.table
      → P (record_outcome describe tenant_id scan_id p asset o s).1.table
  unfolding record_outcome
  record_outcome-keeps p asset o s h =
      elim (Result-cases (written describe tenant_id scan_id p asset o s.table)) [
        | inl (u, good) ↦ rw good (written-keeps p asset o s.table u good h)
        | inr (e, bad) ↦ rw bad h
      ]

  evaluate_assets-keeps :
      (p : PolicyDefinition) (matched : List Json) (s : Progress)
      → P s.table
      → P (evaluate_assets describe tenant_id scan_id p matched s).1.table
  unfolding evaluate_assets
  evaluate_assets-keeps p [] s h = h
  evaluate_assets-keeps p (asset ∷ matched) s h =
      and_then-keeps P _ _ (record_outcome-keeps p asset (evaluate_asset describe p asset) s h)
        (evaluate_assets-keeps p matched)

  evaluate_matched-keeps :
      (p : PolicyDefinition) (matched : Result PyError (List Json)) (s : Progress)
      → P s.table
      → P (evaluate_matched describe tenant_id scan_id p matched s).1.table
  unfolding evaluate_matched
  evaluate_matched-keeps p (ok matched) s h = evaluate_assets-keeps p matched s h
  evaluate_matched-keeps p (err e) s h = h

  evaluate_policies-keeps :
      (assets : List Json) (ps : List PolicyDefinition) (s : Progress)
      → P s.table
      → P (evaluate_policies describe tenant_id scan_id assets ps s).1.table
  unfolding evaluate_policies
  evaluate_policies-keeps assets [] s h = h
  evaluate_policies-keeps assets (p ∷ ps) s h =
      and_then-keeps P _ _ (evaluate_matched-keeps p (matching p assets) _ h)
        (evaluate_policies-keeps assets ps)

  pub evaluate_scan-keeps :
      (assets : List Json) (ps : List PolicyDefinition) (t : Table)
      → P t
      → P (evaluate_scan describe tenant_id scan_id assets ps t).1.table
  unfolding evaluate_scan
  evaluate_scan-keeps assets ps t h = evaluate_policies-keeps assets ps _ h

-- Of a stored row: the status says whether the result is a failure.
abbrev pub Agrees : Finding → Type 0
Agrees f = f.status ≡ status_of f.result

pub record IsConsistent (t : Table) : Type 0 where
  pub distinct : Distinct t.rows
  pub agree : All Agrees t.rows

upsert_row-Agrees :
    (new : Finding) (rows : List Finding)
    → Agrees new
    → All Agrees rows
    → All Agrees (upsert_row new rows)
unfolding upsert_row
upsert_row-Agrees new [] a h = (a, tt)
upsert_row-Agrees new (f ∷ fs) a h = ground (arith, upsert_row-Agrees new fs a h.1)

upsert_finding-IsConsistent :
    (tenant_id scan_id : ℕ) (p : PolicyDefinition) (r rt : String) (o : Outcome) (t : Table)
    → IsConsistent t
    → IsConsistent (upsert_finding tenant_id scan_id p r rt o t)
unfolding upsert_finding
upsert_finding-IsConsistent tenant_id scan_id p r rt o t h = record {
  distinct = upsert_row-Distinct _ t.rows h.distinct;
  agree = upsert_row-Agrees _ t.rows refl h.agree;
}

-- If the rows of the findings have distinct keys and each has the status that belongs to its
-- result (open for a failure, resolved for the rest), they still do after the evaluation of a
-- scan over any assets and policies, whether it returns or raises.
pub evaluate_scan-IsConsistent :
    (describe : PyError → String) (tenant_id scan_id : ℕ) (assets : List Json)
    (ps : List PolicyDefinition) (t : Table)
    → IsConsistent t
    → IsConsistent (evaluate_scan describe tenant_id scan_id assets ps t).1.table
evaluate_scan-IsConsistent describe tenant_id scan_id =
    evaluate_scan-keeps describe tenant_id scan_id IsConsistent
      (upsert_finding-IsConsistent tenant_id scan_id)

-- The key belongs to another tenant or to another scan.
abbrev pub IsForeign : ℕ → ℕ → Key → Type 0
IsForeign tenant_id scan_id k = ¬ ((k.tenant_id ≡ tenant_id) × (k.scan_id ≡ scan_id))

upsert_row-foreign :
    (tenant_id scan_id : ℕ) (k : Key) (new : Finding) (rows : List Finding)
    → IsForeign tenant_id scan_id k
    → new.tenant_id ≡ tenant_id
    → new.scan_id ≡ scan_id
    → find_row k (upsert_row new rows) ≡ find_row k rows
upsert_row-foreign tenant_id scan_id k new rows foreign t s =
    find_row-upsert_row k new rows ∙ rw (not-same_key (key_of new) k (λ e. foreign (cc, cc)))

upsert_finding-foreign :
    (tenant_id scan_id : ℕ) (k : Key) (before : Option Finding)
    → IsForeign tenant_id scan_id k
    → (p : PolicyDefinition) (r rt : String) (o : Outcome) (t : Table) → find_row k t.rows ≡ before
    → find_row k (upsert_finding tenant_id scan_id p r rt o t).rows ≡ before
unfolding upsert_finding
upsert_finding-foreign tenant_id scan_id k before foreign p r rt o t h =
    upsert_row-foreign tenant_id scan_id k _ t.rows foreign refl refl ∙ h

-- The evaluation of a scan leaves the row under every key of another tenant or another scan as
-- it was, whether it returns or raises.
pub evaluate_scan-foreign :
    (describe : PyError → String) (tenant_id scan_id : ℕ) (assets : List Json)
    (ps : List PolicyDefinition) (t : Table) (k : Key)
    → IsForeign tenant_id scan_id k
    → find_row k (evaluate_scan describe tenant_id scan_id assets ps t).1.table.rows
      ≡ find_row k t.rows
evaluate_scan-foreign describe tenant_id scan_id assets ps t k foreign =
    evaluate_scan-keeps describe tenant_id scan_id (λ u. find_row k u.rows ≡ find_row k t.rows)
      (upsert_finding-foreign tenant_id scan_id k (find_row k t.rows) foreign) assets ps t refl
