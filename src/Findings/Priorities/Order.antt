-- ===== src/Findings/Priorities/Order.antt =====
-- The order of tuples of integers: total and transitive.
use compliance_engine.Common.{true, false, ◌≡◌, refl, [], ◌∷◌, arith}
use compliance_engine.Findings.Customer.{SortKey}
use compliance_engine.Findings.Priorities.{key_le}

pub key_le_total : (a b : SortKey) → key_le a b ≡ false → key_le b a ≡ true
unfolding key_le
key_le_total [] b h = cc
key_le_total (x ∷ a) [] h = refl
key_le_total (x ∷ a) (y ∷ b) h = ground (arith, key_le_total a b)

pub key_le_trans : (a b c : SortKey) → key_le a b ≡ true → key_le b c ≡ true → key_le a c ≡ true
unfolding key_le
key_le_trans [] b c h k = refl
key_le_trans (x ∷ a) [] c h k = cc
key_le_trans (x ∷ a) (y ∷ b) [] h k = cc
key_le_trans (x ∷ a) (y ∷ b) (z ∷ c) h k = ground (arith, key_le_trans a b c)
