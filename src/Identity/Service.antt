-- ===== src/Identity/Service.antt =====
-- Who a request comes from: src/platform_backend/identity/service.py, repository.py, deps.py, models.py
-- and providers/dev_header.py. `verify` is the verifier of tokens, where one is configured, and `uuid`
-- the constructor `UUID`, `none` standing for its `ValueError`.
pub mod Authorized
mod Tests
use compliance_engine.Common.{
  ℕ, String, Bool, true, false, not, ◌&&◌, ◌||◌, Option, none, some, List, [], ◌∷◌, any, str_eq,
  if◌then◌else◌, ◌==◌, Result, ok, err, ◌>>=◌,
}
use compliance_engine.Common.Rows.{find_by}
use compliance_engine.Common.Text.{codes, is_empty, lower, strip, has_prefix, no_codes}
use compliance_engine.Policy.Catalog.{given}
use compliance_engine.Identity.Rows.{Workspace, Account, Member, Accounts, HttpError, http_error}

pub record TokenClaims : Type 0 where
  pub subject : String
  pub issuer : String
  pub email : Option String

-- The fields of the workspace stand together.
pub record PlatformPrincipal : Type 0 where
  pub tenant_id : ℕ
  pub role : String
  pub subject : String
  pub email : Option String
  pub user_id : Option ℕ
  pub issuer : Option String
  pub auth_mode : String
  pub workspace : Option Workspace

abbrev pub read_roles : List String
read_roles = "tenant_admin" ∷ "viewer" ∷ "super_admin" ∷ []

abbrev pub write_roles : List String
write_roles = "tenant_admin" ∷ "super_admin" ∷ []

-- The `WHERE` of `resolve_membership`, and the rows that the joins give.
abbrev pub is_active : String → String → Member → Bool
is_active auth_issuer auth_subject m =
    str_eq m.auth_issuer auth_issuer && str_eq m.auth_subject auth_subject && m.active

abbrev pub user_of : Accounts → Member → Option Account
user_of a m = find_by (λ (u : Account). u.id == m.user_id) a.users

abbrev pub tenant_of : Accounts → Member → Option Workspace
tenant_of a m = find_by (λ (t : Workspace). t.id == m.tenant_id) a.tenants

abbrev pub principal_of : Member → Option Account → Option Workspace → Option PlatformPrincipal
principal_of m none tenant = none
principal_of m (some user) none = none
principal_of m (some user) (some tenant) = some (record {
  tenant_id = m.tenant_id;
  role = m.role;
  subject = m.auth_subject;
  email = user.email;
  user_id = some m.user_id;
  issuer = some m.auth_issuer;
  auth_mode = "jwt";
  workspace = some tenant;
})

abbrev pub first_principal : String → String → Accounts → List Member → Option PlatformPrincipal
first_principal auth_issuer auth_subject a [] = none
first_principal auth_issuer auth_subject a (m ∷ ms) =
    let here = principal_of m (user_of a m) (tenant_of a m) in
    let rest = first_principal auth_issuer auth_subject a ms in
    if is_active auth_issuer auth_subject m
    then elim here [ some p ↦ some p | none ↦ rest ]
    else rest

unfoldable pub resolve_membership : String → String → Accounts → Option PlatformPrincipal
unfolding find_by
resolve_membership auth_issuer auth_subject a =
    first_principal auth_issuer auth_subject a a.memberships

-- The headers that the code asks for.
pub record Headers : Type 0 where
  pub authorization : Option String
  pub tenant_id : Option String
  pub role : Option String
  pub subject : Option String
  pub email : Option String

-- `authorization and authorization.lower().startswith("bearer ")`
unfoldable pub is_bearer : Option String → Bool
unfolding lower has_prefix
is_bearer none = false
is_bearer (some s) = has_prefix (lower (codes s)) (codes "bearer ")

-- `authorization.split(" ", 1)[1].strip()`
abbrev after_space : List ℕ → List ℕ
after_space [] = []
after_space (c ∷ s) = let rest = after_space s in if c == 32 then s else rest

abbrev pub token_of : Option String → List ℕ
token_of none = []
token_of (some s) = strip (after_space (codes s))

abbrev pub Verifier : Type 0
Verifier = List ℕ → Result HttpError TokenClaims

-- From the test of the verifier to its call.
unfoldable pub verify_token : Option Verifier → Option String → Result HttpError TokenClaims
unfolding strip
verify_token none authorization = err (http_error 501 "OIDC authentication is not configured")
verify_token (some verify) authorization =
    let token = token_of authorization in
    let claims = verify token in
    if no_codes token then err (http_error 401 "Bearer token is required") else claims

-- `verify_bearer_token`
unfoldable pub verify_bearer_token : Option Verifier → Headers → Result HttpError TokenClaims
unfolding is_bearer verify_token
verify_bearer_token oidc h =
    if is_bearer h.authorization
    then verify_token oidc h.authorization
    else err (http_error 401 "Bearer token is required")

-- `if claims.email and not principal.email`
abbrev pub with_email : Option String → PlatformPrincipal → PlatformPrincipal
with_email claimed p = elim (given claimed) [
  | none ↦ p
  | some e ↦ elim (given p.email) [ none ↦ record p { email = some e } | some _ ↦ p ]
]

abbrev pub provisioned :
    Option String → Option PlatformPrincipal → Result HttpError PlatformPrincipal
provisioned claimed none = err (http_error 403 "user is not provisioned for any tenant")
provisioned claimed (some p) = ok (with_email claimed p)

abbrev pub or_default : String → Option String → String
or_default d none = d
or_default d (some s) = s

module _ (uuid : String → Option ℕ) (show_uuid : ℕ → String) where
  abbrev dev_principal : Headers → ℕ → Result HttpError PlatformPrincipal
  dev_principal h tenant_id =
      let role = or_default "tenant_admin" h.role in
      if any (str_eq role) read_roles
      then ok (record {
        tenant_id = tenant_id;
        role = role;
        subject = or_default (show_uuid tenant_id) h.subject;
        email = h.email;
        user_id = none;
        issuer = some "dev-header";
        auth_mode = "dev_header";
        workspace = none;
      })
      else err (http_error 400 "X-Role")

  abbrev dev_tenant : Headers → Option ℕ → Result HttpError PlatformPrincipal
  dev_tenant h none = err (http_error 400 "X-Tenant-ID must be a valid UUID")
  dev_tenant h (some tenant_id) = dev_principal h tenant_id

  -- `resolve_dev_header_principal`; `show_uuid` writes `f"dev:{tenant_id}"`.
  unfoldable pub resolve_dev_header_principal : Headers → Result HttpError PlatformPrincipal
  resolve_dev_header_principal h = elim (given h.tenant_id) [
    | none ↦ err (http_error 401 "X-Tenant-ID header is required")
    | some text ↦ dev_tenant h (uuid text)
  ]

  -- `IdentityService.authenticate`; `dev_header_auth` is the setting.
  unfoldable pub authenticate :
      Option Verifier → Bool → Accounts → Headers → Result HttpError PlatformPrincipal
  unfolding is_bearer verify_token resolve_membership resolve_dev_header_principal
  authenticate oidc dev_header_auth a h =
      if is_bearer h.authorization
      then (verify_token oidc h.authorization >>= λ claims.
          provisioned claims.email (resolve_membership claims.issuer claims.subject a))
      else if dev_header_auth
      then resolve_dev_header_principal h
      else err (http_error 401 "Authorization required")

-- `require_roles(*roles)` on the principal of the request
unfoldable pub require_roles : List String → PlatformPrincipal → Result HttpError PlatformPrincipal
require_roles allowed p =
    if any (str_eq p.role) allowed
    then ok p
    else err (http_error 403 "role is not permitted for this operation")
