-- ===== src/Policy/Catalog/Tests.antt =====
-- Policies at work.
use compliance_engine.Common.{none, [], ◌∷◌, ◌≡◌, refl}
use compliance_engine.Policy.Catalog.{PolicyRemediation, customer_framework_mappings}

abbrev labelled : PolicyRemediation
labelled = record {
  headline = none;
  risk_summary = none;
  business_impact = none;
  fix_summary = none;
  estimated_fix_minutes = none;
  framework_mappings = "SOC2 CC6.1" ∷ " cis 2.1.4" ∷ "CISA guide" ∷ [];
  aws_cli = none;
  azure_cli = none;
  azure_portal_steps = [];
  terraform = none;
  cloudformation = none;
}

licensed_labels_dropped : customer_framework_mappings labelled ≡ "SOC2 CC6.1" ∷ "CISA guide" ∷ []
unfolding customer_framework_mappings
licensed_labels_dropped = refl
