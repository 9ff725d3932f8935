-- ===== src/Findings/Presentation/Tests.antt =====
-- Templates and the remediation of a finding without a policy.
use compliance_engine.Common.{zero, ◌≡◌, refl, ◌∷◌, [], some}
use compliance_engine.Common.Text.{split, codes}
use compliance_engine.Findings.Presentation.{replace, render_template, tail_of}

replace_twice : replace zero (codes "{a}") (codes "xy") (codes "{a}-{a}{") ≡ codes "xy-xy{"
unfolding replace
replace_twice = refl

-- A value is filled in again where it holds a later placeholder.
fill_again :
    render_template (("name", "{region}") ∷ ("region", "eu") ∷ []) (some "s3 {name}")
    ≡ some (codes "s3 eu")
unfolding render_template
fill_again = refl

tail_of_arn : tail_of "arn:aws/x/vm1" ≡ "vm1"
unfolding split
tail_of_arn = refl
