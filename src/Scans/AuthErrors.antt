-- ===== src/Scans/AuthErrors.antt =====
-- src/platform_backend/platform/integrations/auth_errors.py. `show` is `str` of a value that is no
-- text.
pub mod Every
use compliance_engine.Common.{
  ℕ, ◌+◌, String, Bool, true, false, ◌||◌, Option, none, some, List, [], ◌∷◌, any, length,
  if◌then◌else◌, ◌==◌, Result, ok, ◌>>=◌,
}
use Prim.Native.String
use compliance_engine.Common.Text.{codes, lower, contains}
use compliance_engine.Json.{Json, str, Fields, obj, PyError, find_or, get_or, is_bool, null, truthy}

abbrev pub azure_auth_markers : List String
azure_auth_markers =
    "invalid_client" ∷ "invalid_client_secret" ∷ "unauthorized_client" ∷ "aadsts7000215"
    ∷ "aadsts7000222" ∷ "aadsts700016" ∷ "authenticationfailed" ∷ "clientauthenticationerror"
    ∷ "authentication failed" ∷ "invalid credential" ∷ "azure ad token request failed"
    ∷ "invalid_grant" ∷ []

unfoldable pub is_azure_auth_error_text : String → Bool
unfolding lower contains
is_azure_auth_error_text text =
    any (λ marker. contains (lower (codes text)) (codes marker)) azure_auth_markers

-- `status_code in (401, 403)`, or the message.
unfoldable pub verify_failure_is_auth : String → Option ℕ → Bool
unfolding is_azure_auth_error_text
verify_failure_is_auth message none = is_azure_auth_error_text message
verify_failure_is_auth message (some code) =
    if code == 401 || code == 403 then true else is_azure_auth_error_text message

module _ (show : Json → String) where
  -- `str(v)`
  abbrev pub to_text : Json → String
  to_text (str s) = s
  to_text v = show v

  abbrev text_or_empty : String → Fields → String
  text_or_empty k fs = to_text (find_or (str "") k fs)

  -- The argument is a dict, or `None`.
  unfoldable pub is_azure_auth_failure : Option Fields → Bool
  unfolding is_azure_auth_error_text is_bool truthy find_or
  is_azure_auth_failure none = false
  is_azure_auth_failure (some error) =
      if truthy (obj error)
      then (if is_bool true (find_or null "auth_failure" error)
          then true
          else is_azure_auth_error_text (
              String.◌++◌ (text_or_empty "type" error) (
                String.◌++◌ " " (
                  String.◌++◌ (text_or_empty "message" error)
                    (String.◌++◌ " " (text_or_empty "error" error))))))
      else false

  unfoldable pub is_auth_entry : Json → Result PyError Bool
  unfolding get_or is_azure_auth_error_text
  is_auth_entry entry = do
    type_ ← get_or (str "") entry "type"
    error ← get_or (str "") entry "error"
    ok (is_azure_auth_error_text (String.◌++◌ (to_text type_) (String.◌++◌ " " (to_text error))))

  -- The loop over the entries, from the count `auth_hits`.
  unfoldable pub count_auth_hits : List Json → ℕ → Result PyError ℕ
  unfolding is_auth_entry
  count_auth_hits [] auth_hits = ok auth_hits
  count_auth_hits (entry ∷ errors) auth_hits = do
    hit ← is_auth_entry entry
    count_auth_hits errors (if hit then auth_hits + 1 else auth_hits)

  unfoldable pub collection_errors_indicate_auth_failure : List Json → Result PyError Bool
  unfolding count_auth_hits
  collection_errors_indicate_auth_failure [] = ok false
  collection_errors_indicate_auth_failure (e ∷ errors) = do
    auth_hits ← count_auth_hits (e ∷ errors) 0
    ok (auth_hits == length (e ∷ errors))
