-- ===== src/Policy/Evaluator/Evidence.antt =====
-- The evidence of a finding: exactly the listed fields that the asset has, with its values.
use compliance_engine.Common.{
  inr, inl, Option-cases, String, Bool, ◌≡◌, refl, some, List, [], ◌∷◌, arith, str_eq, eq_iff,
  Option, none, if◌then◌else◌, any,
}
use compliance_engine.Json.{Json, Fields, end, field, find}
use compliance_engine.Policy.Evaluator.{resolve_path, assign, evidence_from, build_evidence}

find-assign :
    (k j : String) (v : Json) (fs : Fields)
    → find j (assign k v fs) ≡ (if str_eq k j then some v else find j fs)
unfolding find assign
find-assign k j v end = refl
find-assign k j v (field i w fs) =
    ground (arith, eq_iff k j, eq_iff i k, eq_iff i j, find-assign k j v fs)

abbrev pub or_first : Option Json → Option Json → Option Json
or_first none b = b
or_first (some a) b = some a

abbrev pub is_listed : String → List String → Bool
is_listed f fields = any (λ g. str_eq g f) fields

find-evidence_from :
    (asset : Json) (evidence : Fields) (fields : List String) (f : String)
    → find f (evidence_from asset evidence fields) ≡ (
        if is_listed f fields
        then or_first (resolve_path asset f) (find f evidence)
        else find f evidence)
unfolding evidence_from
find-evidence_from asset evidence [] f = refl
find-evidence_from asset evidence (g ∷ fields) f = elim (Option-cases (resolve_path asset g)) [
  | inl gone ↦ rw gone (ground (arith, find-evidence_from asset evidence fields f, eq_iff g f))
  | inr (v, found) ↦ rw found (
      ground (
        arith,
        find-evidence_from asset (assign g v evidence) fields f,
        find-assign g f v evidence,
        eq_iff g f,
      ))
]

-- The evidence has, under each listed field that resolves on the asset, the value there, and
-- nothing else.
pub find-build_evidence :
    (asset : Json) (fields : List String) (f : String)
    → find f (build_evidence asset fields)
      ≡ (if is_listed f fields then resolve_path asset f else none)
unfolding build_evidence find
find-build_evidence asset fields f = ground (arith, find-evidence_from asset end fields f)
