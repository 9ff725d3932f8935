-- ===== src/Scans/System/Isolation.antt =====
-- Work for one tenant leaves the rows of every other tenant as they are.
use compliance_engine.Common.Updates.{keep-update_where}
use compliance_engine.Common.{
  ℕ, String, Bool, false, not, ◌&&◌, List, [], ◌∷◌, ◌++◌, ◌≡◌, ◌∙◌, refl, arith, keep, Result, ◌==◌,
}
use compliance_engine.Json.{Json, PyError}
use compliance_engine.Policy.Catalog.{PolicyDefinition}
use compliance_engine.Scans.Store.{
  update_status, update_collection_run, set_integration_status, append_event,
  publish_policy_evaluate, with_status, with_change, is_scan, is_integration,
}
use compliance_engine.Scans.Rows.{World, Scan, CollectionRun, Integration, Event, PolicyMessage}
use compliance_engine.Scans.Inventory.{insert_resources, insert_relationships}
use compliance_engine.Scans.Runs.{start_evaluation_run, complete_evaluation_run}
use compliance_engine.Scans.Store.Frame.{Respects}
use compliance_engine.Scans.Ingest.{Inventory, on_event}
use compliance_engine.Scans.Ingest.Keeps.{on_event-Keeps}
use compliance_engine.Scans.Evaluate.{handle_message}
use compliance_engine.Scans.Evaluate.Keeps.{KeepsEvaluation, handle_message-keeps}

module _ (t : ℕ) where
  abbrev pub other_scan : Scan → Bool
  other_scan s = not (s.tenant_id == t)

  abbrev pub other_run : CollectionRun → Bool
  other_run r = not (r.tenant_id == t)

  abbrev pub other_integration : Integration → Bool
  other_integration i = not (i.tenant_id == t)

  abbrev pub other_event : Event → Bool
  other_event e = not (e.tenant_id == t)

  -- The rows of the tenants other than `t` are the same, in the same order.
  pub record SameOthers (u w : World) : Type 0 where
    pub scans : keep other_scan w.scans ≡ keep other_scan u.scans
    pub runs : keep other_run w.runs ≡ keep other_run u.runs
    pub integrations : keep other_integration w.integrations ≡ keep other_integration u.integrations
    pub events : keep other_event w.events ≡ keep other_event u.events

  keep-last :
      {A : Type 0} (q : A → Bool) (xs : List A) (x : A)
      → q x ≡ false
      → keep q (xs ++ x ∷ []) ≡ keep q xs
  keep-last q [] x h = rw h
  keep-last q (y ∷ xs) x h = rw (keep-last q xs x h)

  itself : not (t == t) ≡ false
  itself = ground arith

  module _ (u : World) (i : ℕ) where
    SameOthers-Respects : Respects t i (SameOthers u)
    unfolding update_status update_collection_run set_integration_status append_event
        insert_resources insert_relationships
    SameOthers-Respects = record {
      status = λ s error started completed w ends h. record {
        scans =
            keep-update_where other_scan (is_scan t i) (with_status s error started completed)
              w.scans (λ r e. ground arith) (λ r. refl)
            ∙ h.scans;
        runs = h.runs;
        integrations = h.integrations;
        events = h.events;
      };
      run = λ id c w h. record {
        scans = h.scans;
        runs =
            keep-update_where other_run (λ (r : CollectionRun). r.tenant_id == t && r.id == id)
              (with_change c) w.runs (λ r e. ground arith) (λ r. refl)
            ∙ h.runs;
        integrations = h.integrations;
        events = h.events;
      };
      integration = λ id s w h. record {
        scans = h.scans;
        runs = h.runs;
        integrations =
            keep-update_where other_integration (is_integration t id)
              (λ (r : Integration). record r { status = s }) w.integrations (λ r e. ground arith)
              (λ r. refl)
            ∙ h.integrations;
        events = h.events;
      };
      event = λ kind payload w h. record {
        scans = h.scans;
        runs = h.runs;
        integrations = h.integrations;
        events = keep-last other_event w.events _ itself ∙ h.events;
      };
      resources = λ xs w h. record {
        scans = h.scans;
        runs = h.runs;
        integrations = h.integrations;
        events = h.events;
      };
      relationships = λ xs w h. record {
        scans = h.scans;
        runs = h.runs;
        integrations = h.integrations;
        events = h.events;
      };
    }

    SameOthers-KeepsEvaluation : KeepsEvaluation t i (SameOthers u)
    unfolding start_evaluation_run complete_evaluation_run
    SameOthers-KeepsEvaluation = record {
      starts = λ w h. record {
        scans = h.scans;
        runs = h.runs;
        integrations = h.integrations;
        events = h.events;
      };
      completes = λ a b c s e w h. record {
        scans = h.scans;
        runs = h.runs;
        integrations = h.integrations;
        events = h.events;
      };
      stores = λ n db w h. record {
        scans = h.scans;
        runs = h.runs;
        integrations = h.integrations;
        events = h.events;
      };
    }

    publishes-SameOthers :
        (payload : Json) (w : World)
        → SameOthers u w
        → SameOthers u (publish_policy_evaluate t i payload w)
    unfolding publish_policy_evaluate
    publishes-SameOthers payload w h = record {
      scans = h.scans;
      runs = h.runs;
      integrations = h.integrations;
      events = h.events;
    }

  SameOthers-refl : (u : World) → SameOthers u u
  SameOthers-refl u = record { scans = refl; runs = refl; integrations = refl; events = refl }

-- Handling an event of a tenant, of any type, with any payload and scan id, leaves the scans,
-- the collection runs, the integrations and the events of all other tenants as they were,
-- whether it returns or raises.
pub on_event-SameOthers :
    (uuid : Json → Result PyError ℕ) (show : Json → String)
    (read_json : String → Result PyError Json)
    (read_bronze : String → Json → Result PyError (List Json))
    (normalize : Json → ℕ → ℕ → ℕ → String → Result PyError Inventory) (tenant_id scan_id : ℕ)
    (kind : String) (payload : Json) (w : World)
    → SameOthers tenant_id w
        (on_event uuid show read_json read_bronze normalize tenant_id scan_id kind payload w).1
on_event-SameOthers uuid show read_json read_bronze normalize t i kind payload w =
    on_event-Keeps (SameOthers t w) t i (SameOthers-Respects t w i) uuid show read_json read_bronze
      normalize (publishes-SameOthers t w i) kind payload w (SameOthers-refl t w)

-- Handling a message of the policy queue leaves the scans, the collection runs, the
-- integrations and the events of all other tenants as they were.
pub handle_message-SameOthers :
    (describe : PyError → String) (policies : List PolicyDefinition) (m : PolicyMessage) (w : World)
    → SameOthers m.tenant_id w (handle_message describe policies m w)
handle_message-SameOthers describe policies m w =
    handle_message-keeps (SameOthers m.tenant_id w) describe policies m
      (SameOthers-KeepsEvaluation m.tenant_id w m.scan_id)
      (SameOthers-Respects m.tenant_id w m.scan_id) w (SameOthers-refl m.tenant_id w)
