-- ===== src/Findings/Resources/Level.antt =====
-- The level of `build_resource_risk` is that of the worst failing finding.
use mathlib.Core.Path.{subst}
use native.Mathlib.Decide.{dec_le}
use compliance_engine.Common.{
  ℕ, ◌≤◌, min, String, ◌≡◌, refl, sym, List, [], ◌∷◌, arith, All, ◌⊎◌, inl, inr, Has, length,
}
use compliance_engine.Json.{Json}
use compliance_engine.Policy.Catalog.{PolicyDefinition}
use compliance_engine.Findings.Repository.{Finding}
use compliance_engine.Findings.Customer.{severity_order}
use compliance_engine.Findings.Resources.{
  build_resource_risk, risk_of, fails_at, severities, least, level_name,
}

-- `level` names the least of the numbers.
abbrev pub Names : String → List ℕ → Type 0
Names level ns = (n : ℕ) × Has n ns × All (λ m. n ≤ m) ns × (level ≡ level_name n)

abbrev pub IsLevel : String → List Finding → Type 0
IsLevel level [] = level ≡ "healthy"
IsLevel level (f ∷ fs) = Names level (severities (f ∷ fs))

All-le : (a b : ℕ) (ns : List ℕ) → a ≤ b → All (λ m. b ≤ m) ns → All (λ m. a ≤ m) ns
All-le a b [] h k = tt
All-le a b (n ∷ ns) h (k, ks) = (omega arith, All-le a b ns h ks)

min-cases : (a b : ℕ) → (min a b ≡ a) ⊎ (min a b ≡ b)
min-cases a b = elim (dec_le a b) [ yes h ↦ inl (omega arith) | no h ↦ inr (omega arith) ]

least_lem : (n : ℕ) (ns : List ℕ) → Has (least n ns) (n ∷ ns) × All (λ m. least n ns ≤ m) (n ∷ ns)
least_lem n [] = (inl refl, (omega arith, tt))
least_lem n (m ∷ ms) =
    let (has, below) = least_lem m ms in
    (
      chosen has,
      (omega arith, All-le (min n (least m ms)) (least m ms) (m ∷ ms) (omega arith) below),
    )
  where
    chosen : Has (least m ms) (m ∷ ms) → Has (min n (least m ms)) (n ∷ m ∷ ms)
    chosen has = elim (min-cases n (least m ms)) [
      | inl e ↦ inl (sym e)
      | inr e ↦ subst (λ k. Has k (n ∷ m ∷ ms)) (sym e) (inr has)
    ]

module _ (show : Json → String) (catalog : List PolicyDefinition) where
  risk_of-IsLevel :
      (resource_id : String) (fs : List Finding)
      → IsLevel (risk_of show catalog resource_id fs).risk_level fs
        × ((risk_of show catalog resource_id fs).finding_count ≡ length fs)
  risk_of-IsLevel resource_id [] = (refl, refl)
  risk_of-IsLevel resource_id (f ∷ fs) =
      let (has, below) = least_lem (severity_order f.severity) (severities fs) in
      ((least (severity_order f.severity) (severities fs), has, below, refl), refl)

  pub build_resource_risk-IsLevel :
      (findings : List Finding) (resource_id : String)
      → IsLevel
          (build_resource_risk show catalog findings resource_id).risk_level
          (fails_at resource_id findings)
        × ((build_resource_risk show catalog findings resource_id).finding_count
            ≡ length (fails_at resource_id findings))
  unfolding build_resource_risk
  build_resource_risk-IsLevel findings resource_id =
      risk_of-IsLevel resource_id (fails_at resource_id findings)
