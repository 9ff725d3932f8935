-- ===== src/Findings/Customer/Tests.antt =====
-- Framework mappings and the priority of a finding.
use compliance_engine.Common.{true, false, ◌≡◌, refl, ◌∷◌, []}
use compliance_engine.Common.Text.{codes}
use compliance_engine.Findings.Customer.{parse_framework_mappings, resource_type_label}

mappings_visible :
    parse_framework_mappings ("cis 1.1" ∷ " SOC2 CC6.1" ∷ "ISO A.5 x" ∷ "GDPR" ∷ []) true
    ≡ record { framework = codes "SOC 2"; control = codes "CC6.1" }
      ∷ record { framework = codes "ISO"; control = codes "A.5 x" }
      ∷ record { framework = codes "GDPR"; control = [] }
      ∷ []
unfolding parse_framework_mappings
mappings_visible = refl

mappings_internal :
    parse_framework_mappings ("CIS 1.1" ∷ []) false
    ≡ record { framework = codes "CIS AWS v6"; control = codes "1.1" } ∷ []
unfolding parse_framework_mappings
mappings_internal = refl

label_unknown : resource_type_label "queue.topic" "AZURE_X" ≡ codes "queue topic"
unfolding resource_type_label
label_unknown = refl
