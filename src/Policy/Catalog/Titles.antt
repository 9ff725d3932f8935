-- ===== src/Policy/Catalog/Titles.antt =====
-- What a customer is shown of a policy: never a licensed label.
use compliance_engine.Policy.Catalog.{PolicyRemediation, is_licensed, customer_framework_mappings}
use compliance_engine.Common.{
  List, [], ◌∷◌, keep, Bool, not, false, ◌≡◌, refl, arith, count, length, ◌+◌, String, All,
}

keep-unlicensed :
    (ms : List String) → All (λ m. is_licensed m ≡ false) (keep (λ m. not (is_licensed m)) ms)
keep-unlicensed [] = tt
keep-unlicensed (m ∷ ms) = ground (arith, keep-unlicensed ms)

length-keep_both :
    {A : Type 0} (p : A → Bool) (xs : List A)
    → length (keep (λ x. not (p x)) xs) + count p xs ≡ length xs
length-keep_both p [] = refl
length-keep_both p (x ∷ xs) = ground (arith, length-keep_both p xs)

-- No mapping that the customer sees is a licensed label, and no other mapping is dropped: the
-- kept and the licensed ones add up to all.
pub customer_framework_mappings-safe :
    (r : PolicyRemediation)
    → All (λ m. is_licensed m ≡ false) (customer_framework_mappings r)
      × (length (customer_framework_mappings r) + count is_licensed r.framework_mappings
          ≡ length r.framework_mappings)
unfolding customer_framework_mappings
customer_framework_mappings-safe r =
    (keep-unlicensed r.framework_mappings, length-keep_both is_licensed r.framework_mappings)
