-- ===== src/Identity/Service/Authorized.antt =====
-- Nobody is let in without a verified token or, where the setting allows it, a tenant's header.
use compliance_engine.Common.{
  ℕ, String, Bool, true, false, Option, none, some, List, [], ◌∷◌, any, str_eq, Has, if◌then◌else◌,
  ◌≡◌, ◌∙◌, refl, inl, inr, ◌⊎◌, arith, Result, ok, err, ◌>>=◌,
}
use mathlib.Core.Path.{subst}
use compliance_engine.Common.Text.{no_codes}
use compliance_engine.Policy.Catalog.{given}
use compliance_engine.Identity.Rows.{Workspace, Account, Member, Accounts, HttpError, http_error}
use compliance_engine.Identity.Service.{
  PlatformPrincipal, TokenClaims, Headers, Verifier, authenticate, resolve_membership,
  first_principal, principal_of, user_of, tenant_of, is_active, is_bearer, verify_token, token_of,
  provisioned, with_email, resolve_dev_header_principal, dev_tenant, or_default, read_roles,
}

-- An active membership of the account that the claims name gives the tenant and the role.
abbrev pub IsMember : Accounts → TokenClaims → PlatformPrincipal → Type 0
IsMember a claims p =
    (m : Member) × Has m a.memberships
    × (is_active claims.issuer claims.subject m ≡ true)
    × (p.tenant_id ≡ m.tenant_id)
    × (p.role ≡ m.role)

abbrev pub ByToken : Option Verifier → Accounts → Headers → PlatformPrincipal → Type 0
ByToken oidc a h p =
    (verify : Verifier) × (claims : TokenClaims) × (is_bearer h.authorization ≡ true)
    × (oidc ≡ some verify)
    × (no_codes (token_of h.authorization) ≡ false)
    × (verify (token_of h.authorization) ≡ ok claims)
    × IsMember a claims p

abbrev pub ByHeader : (String → Option ℕ) → Bool → Headers → PlatformPrincipal → Type 0
ByHeader uuid dev_header_auth h p =
    (text : String) × (is_bearer h.authorization ≡ false)
    × (dev_header_auth ≡ true)
    × (given h.tenant_id ≡ some text)
    × (uuid text ≡ some p.tenant_id)
    × (any (str_eq p.role) read_roles ≡ true)

module _ (uuid : String → Option ℕ) (show_uuid : ℕ → String) (oidc : Option Verifier)
    (dev_header_auth : Bool) (a : Accounts) (h : Headers) where
  abbrev pub Authorized : Result HttpError PlatformPrincipal → Type 0
  Authorized (err e) = Unit
  Authorized (ok p) = ByToken oidc a h p ⊎ ByHeader uuid dev_header_auth h p

  abbrev ByMember : TokenClaims → List Member → Option PlatformPrincipal → Type 0
  ByMember claims ms none = Unit
  ByMember claims ms (some p) =
      (m : Member) × Has m ms
      × (is_active claims.issuer claims.subject m ≡ true)
      × (p.tenant_id ≡ m.tenant_id)
      × (p.role ≡ m.role)

  ByMember-later :
      (claims : TokenClaims) (m : Member) (ms : List Member) (r : Option PlatformPrincipal)
      → ByMember claims ms r
      → ByMember claims (m ∷ ms) r
  ByMember-later claims m ms none h = tt
  ByMember-later claims m ms (some p) (n, has, active, t, r) = (n, inr has, active, t, r)

  ByMember-here :
      (claims : TokenClaims) (m : Member) (ms : List Member) (user : Option Account)
      (tenant : Option Workspace) (rest : Option PlatformPrincipal)
      → is_active claims.issuer claims.subject m ≡ true
      → ByMember claims ms rest
      → ByMember claims
          (m ∷ ms)
          (elim (principal_of m user tenant) [ some p ↦ some p | none ↦ rest ])
  ByMember-here claims m ms none tenant rest active k = ByMember-later claims m ms rest k
  ByMember-here claims m ms (some user) none rest active k = ByMember-later claims m ms rest k
  ByMember-here claims m ms (some user) (some tenant) rest active k =
      (m, inl refl, active, refl, refl)

  by_test :
      (claims : TokenClaims) (ms : List Member) (b : Bool) (x y : Option PlatformPrincipal)
      → (b ≡ true → ByMember claims ms x)
      → ByMember claims ms y
      → ByMember claims ms (if b then x else y)
  by_test claims ms true x y h k = h refl
  by_test claims ms false x y h k = k

  first_principal-ByMember :
      (claims : TokenClaims) (ms : List Member)
      → ByMember claims ms (first_principal claims.issuer claims.subject a ms)
  first_principal-ByMember claims [] = tt
  first_principal-ByMember claims (m ∷ ms) =
      let rec = first_principal-ByMember claims ms in
      by_test claims (m ∷ ms) (is_active claims.issuer claims.subject m) _ _
        (λ active. ByMember-here claims m ms (user_of a m) (tenant_of a m) _ active rec)
        (ByMember-later claims m ms _ rec)

  with_email_same :
      (claimed : Option String) (p : PlatformPrincipal)
      → ((with_email claimed p).tenant_id ≡ p.tenant_id) × ((with_email claimed p).role ≡ p.role)
  with_email_same claimed p = (ground arith, ground arith)

  provisioned-Authorized :
      (verify : Verifier) (claims : TokenClaims) (found : Option PlatformPrincipal)
      → is_bearer h.authorization ≡ true
      → oidc ≡ some verify
      → no_codes (token_of h.authorization) ≡ false
      → verify (token_of h.authorization) ≡ ok claims
      → ByMember claims a.memberships found
      → Authorized (provisioned claims.email found)
  provisioned-Authorized verify claims none bearer set given_token verified k = tt
  provisioned-Authorized verify claims (some p) bearer set given_token verified
        (m, has, active, t, r) =
      let (same_t, same_r) = with_email_same claims.email p in
      inl (
        verify,
        claims,
        bearer,
        set,
        given_token,
        verified,
        (m, has, active, same_t ∙ t, same_r ∙ r),
      )

  bearer-Authorized :
      is_bearer h.authorization ≡ true
      → Authorized (
          verify_token oidc h.authorization >>= λ claims.
          provisioned claims.email (resolve_membership claims.issuer claims.subject a))
  unfolding verify_token resolve_membership
  bearer-Authorized bearer = by_verifier oidc refl
    where
      by_claims :
          (verify : Verifier) (empty : Bool) (r : Result HttpError TokenClaims)
          → oidc ≡ some verify
          → no_codes (token_of h.authorization) ≡ empty
          → verify (token_of h.authorization) ≡ r
          → Authorized (
              (if empty then err (http_error 401 "Bearer token is required") else r) >>= λ claims.
              provisioned claims.email (resolve_membership claims.issuer claims.subject a))
      by_claims verify true r set no_token verified = tt
      by_claims verify false (err e) set some_token verified = tt
      by_claims verify false (ok claims) set some_token verified =
          provisioned-Authorized verify claims _ bearer set some_token verified
            (first_principal-ByMember claims a.memberships)

      by_verifier :
          (o : Option Verifier)
          → oidc ≡ o
          → Authorized (
              verify_token o h.authorization >>= λ claims.
              provisioned claims.email (resolve_membership claims.issuer claims.subject a))
      by_verifier none set = tt
      by_verifier (some verify) set =
          by_claims verify (no_codes (token_of h.authorization)) (verify (token_of h.authorization))
            set refl refl

  header-Authorized :
      is_bearer h.authorization ≡ false
      → dev_header_auth ≡ true
      → Authorized (resolve_dev_header_principal uuid show_uuid h)
  unfolding resolve_dev_header_principal
  header-Authorized bearer dev = by_header (given h.tenant_id) refl
    where
      by_role :
          (text : String) (id : ℕ) (role : String) (subject : String) (known : Bool)
          → given h.tenant_id ≡ some text
          → uuid text ≡ some id
          → any (str_eq role) read_roles ≡ known
          → Authorized (
              if known
              then ok (record {
                tenant_id = id;
                role = role;
                subject = subject;
                email = h.email;
                user_id = none;
                issuer = some "dev-header";
                auth_mode = "dev_header";
                workspace = none;
              })
              else err (http_error 400 "X-Role"))
      by_role text id role subject true t u r = inr (text, bearer, dev, t, u, r)
      by_role text id role subject false t u r = tt

      by_tenant :
          (text : String) (id : Option ℕ)
          → given h.tenant_id ≡ some text
          → uuid text ≡ id
          → Authorized (dev_tenant uuid show_uuid h id)
      by_tenant text none t u = tt
      by_tenant text (some id) t u =
          by_role text id (or_default "tenant_admin" h.role) (or_default (show_uuid id) h.subject)
            (any (str_eq (or_default "tenant_admin" h.role)) read_roles) t u refl

      by_header :
          (o : Option String)
          → given h.tenant_id ≡ o
          → Authorized (elim o [
            | none ↦ err (http_error 401 "X-Tenant-ID header is required")
            | some text ↦ dev_tenant uuid show_uuid h (uuid text)
          ])
      by_header none t = tt
      by_header (some text) t = by_tenant text (uuid text) t refl

  by_tests-Authorized :
      (bearer dev : Bool) (x y : Result HttpError PlatformPrincipal)
      → (bearer ≡ true → Authorized x)
      → (bearer ≡ false → dev ≡ true → Authorized y)
      → Authorized
          (if bearer then x else if dev then y else err (http_error 401 "Authorization required"))
  by_tests-Authorized true dev x y h k = h refl
  by_tests-Authorized false true x y h k = k refl refl
  by_tests-Authorized false false x y h k = tt

  -- Where a request is authenticated, either it has a bearer token that is not empty, a
  -- verifier is configured and accepts it, and the tenant and the role are those of an
  -- active membership of the account that the claims name; or it has no bearer token, the
  -- setting allows a tenant's header, that header is the tenant, and the role is one of the
  -- three.
  pub authenticate-Authorized :
      (p : PlatformPrincipal)
      → authenticate uuid show_uuid oidc dev_header_auth a h ≡ ok p
      → ByToken oidc a h p ⊎ ByHeader uuid dev_header_auth h p
  unfolding authenticate
  authenticate-Authorized p e = subst Authorized e (
      by_tests-Authorized (is_bearer h.authorization) dev_header_auth _ _ bearer-Authorized
        header-Authorized)
