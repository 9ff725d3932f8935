-- ===== src/Scans/Evaluate/Envelope.antt =====
-- The envelopes of the policy queue: the dict that `publish_policy_evaluate` of
-- src/platform_backend/queue/events.py dumps, and how `PolicyWorker.handle_event` reads it. `uuid` is
-- the constructor `UUID`, `uuid_text` is `str` of a UUID and `now` the text of the time; `json.loads`
-- gives back what `json.dumps` was given.
use compliance_engine.Common.{
  ℕ, String, Bool, true, List, ◌≡◌, refl, ap, ◌∙◌, ◌⊎◌, inl, inr, Result, ok, err, if◌then◌else◌,
  Bool-cases, ◌>>=◌,
}
use compliance_engine.Json.{
  Json, null, str, obj, field, end, PyError, index, get_or, or_else, truthy, is_str, find, find_or,
}
use compliance_engine.Policy.Catalog.{PolicyDefinition}
use compliance_engine.Scans.Rows.{World, PolicyMessage}
use compliance_engine.Scans.Store.{evaluate_message}
use compliance_engine.Scans.Evaluate.{handle_message}

abbrev pub envelope_of : (ℕ → String) → String → ℕ → ℕ → Json → Json
unfolding or_else
envelope_of uuid_text now tenant_id scan_id payload = obj (
    field "event_type" (str "policy.evaluate") (
      field "tenant_id" (str (uuid_text tenant_id)) (
        field "scan_id" (str (uuid_text scan_id))
          (field "timestamp" (str now) (field "payload" (or_else payload (obj end)) end)))))

module _ (uuid : Json → Result PyError ℕ) where
  abbrev pub read_uuid : Json → String → Result PyError ℕ
  unfolding index
  read_uuid envelope k = index envelope k >>= uuid

  -- The lines of `handle_event` before anything is written.
  unfoldable pub read_message : Json → Result PyError PolicyMessage
  unfolding index get_or
  read_message envelope = read_uuid envelope "tenant_id" >>= λ tenant_id.
      read_uuid envelope "scan_id" >>= λ scan_id. get_or (obj end) envelope "payload" >>= λ payload.
      ok (evaluate_message tenant_id scan_id payload)

  module _ (describe : PyError → String) (policies : List PolicyDefinition) where
    abbrev pub handle_read :
        Result PyError PolicyMessage → World → Result PyError (Unit {0}) × World
    handle_read (err e) w = (err e, w)
    handle_read (ok m) w = (ok tt, handle_message describe policies m w)

    abbrev pub handle_typed : Result PyError Json → Json → World → Result PyError (Unit {0}) × World
    handle_typed (err e) envelope w = (err e, w)
    handle_typed (ok event_type) envelope w =
        if is_str "policy.evaluate" event_type
        then handle_read (read_message envelope) w
        else (ok tt, w)

    -- `handle_event`
    unfoldable pub handle_envelope : Json → World → Result PyError (Unit {0}) × World
    unfolding get_or is_str read_message handle_message
    handle_envelope envelope = handle_typed (get_or null envelope "event_type") envelope

    abbrev pub IsHandled : Json → World → Type 0
    IsHandled envelope w =
        (((r : Result PyError (Unit {0})) × (handle_envelope envelope w ≡ (r, w)))
          ⊎ ((m : PolicyMessage) × (handle_envelope envelope w
                ≡ (ok tt, handle_message describe policies m w))))

    handle_read-IsHandled :
        (envelope : Json) (w : World) (read : Result PyError PolicyMessage)
        → handle_envelope envelope w ≡ handle_read read w
        → IsHandled envelope w
    handle_read-IsHandled envelope w (err e) h = inl (err e, h)
    handle_read-IsHandled envelope w (ok m) h = inr (m, h)

    handle_typed-IsHandled :
        (envelope : Json) (w : World) (typed : Result PyError Json)
        → handle_envelope envelope w ≡ handle_typed typed envelope w
        → IsHandled envelope w
    handle_typed-IsHandled envelope w (err e) h = inl (err e, h)
    handle_typed-IsHandled envelope w (ok event_type) h =
        elim (Bool-cases (is_str "policy.evaluate" event_type)) [
          | inl evaluates ↦ handle_read-IsHandled envelope w (read_message envelope) (
              h
              ∙ ap (λ (b : Bool). if b then handle_read (read_message envelope) w else (ok tt, w))
                  evaluates)
          | inr other ↦ inl (
            ok tt,
            h
                ∙ ap (λ (b : Bool). if b then handle_read (read_message envelope) w else (ok tt, w))
                    other,
          )
        ]

    module _ (uuid_text : ℕ → String) (now : String)
        (read : (n : ℕ) → uuid (str (uuid_text n)) ≡ ok n) (tenant_id scan_id : ℕ) (payload : Json)
        (given : truthy payload ≡ true) where
      abbrev published : Json
      published = envelope_of uuid_text now tenant_id scan_id payload

      read_message-published :
          read_message published ≡ ok (evaluate_message tenant_id scan_id payload)
      unfolding read_message find find_or or_else
      read_message-published = rw (given, read tenant_id, read scan_id) refl

      -- Where `UUID` reads back the text of a UUID, and a payload is not empty: the
      -- policy worker handles the envelope that is published for a scan as the message
      -- with that scan, that tenant and that payload; and whatever an envelope holds,
      -- handling it leaves every table as it was or is the handling of one message.
      pub handle_envelope-published :
          (w : World)
          → (handle_envelope published w ≡ (
            ok tt,
            handle_message describe policies (evaluate_message tenant_id scan_id payload) w,
          ))
            × ((envelope : Json) → IsHandled envelope w)
      unfolding handle_envelope get_or find_or find is_str envelope_of
      handle_envelope-published w = (
        ap (λ (m : Result PyError PolicyMessage). handle_read m w) read_message-published,
        λ envelope. handle_typed-IsHandled envelope w (get_or null envelope "event_type") refl,
      )
