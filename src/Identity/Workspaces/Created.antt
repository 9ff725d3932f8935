-- ===== src/Identity/Workspaces/Created.antt =====
-- What `POST /workspaces` makes is what the account then gets.
use compliance_engine.Common.{
  ℕ, String, Bool, true, false, Option, none, some, List, [], ◌∷◌, eq_refl, if◌then◌else◌, ◌≡◌,
  refl, arith, is_some, Result, ok, err,
}
use compliance_engine.Common.Text.{codes, strip}
use compliance_engine.Identity.Rows.{Workspace, Account, Accounts, HttpError, http_error}
use compliance_engine.Identity.Slug.{validate_workspace_name}
use compliance_engine.Identity.Workspaces.{
  Creation, post_workspace, create_workspace, resolve_unique_slug, create_with, insert_workspace,
  has_membership, get_workspace, slug_exists, is_kept_back, or_conflict,
}
use compliance_engine.Identity.Workspaces.Slugs.{IsUsable, resolve_unique_slug-IsFree}
use compliance_engine.Identity.Service.{PlatformPrincipal, resolve_membership}

abbrev pub admin_of : Workspace → Account → String → String → PlatformPrincipal
admin_of tenant user auth_issuer auth_subject = record {
  tenant_id = tenant.id;
  role = "tenant_admin";
  subject = auth_subject;
  email = user.email;
  user_id = some user.id;
  issuer = some auth_issuer;
  auth_mode = "jwt";
  workspace = some tenant;
}

module _ (now : ℕ) (auth_issuer auth_subject : String) (email : Option String) (a : Accounts) where
  -- Where the request is refused nothing is written. Where it is not, the account had no workspace,
  -- is the admin of the new one, and its slug was free.
  abbrev pub Created : Result HttpError Creation × Accounts → Type 0
  Created (err e, a') = a' ≡ a
  Created (ok (tenant, user, member), a') =
      (has_membership auth_issuer auth_subject a ≡ false)
      × (resolve_membership auth_issuer auth_subject a'
          ≡ some (admin_of tenant user auth_issuer auth_subject))
      × (get_workspace tenant.id a' ≡ some tenant)
      × (user.email ≡ email)
      × IsUsable tenant.slug
      × (slug_exists tenant.slug a.tenants ≡ false)

  resolve_inserted :
      (name slug : List ℕ)
      → let (made, a') = insert_workspace now name auth_issuer auth_subject email slug a in
        resolve_membership auth_issuer auth_subject a'
        ≡ some (admin_of made.0 made.1 auth_issuer auth_subject)
  unfolding resolve_membership
  resolve_inserted name slug = rw (eq_refl auth_issuer, eq_refl auth_subject) (ground arith)

  get_inserted :
      (name slug : List ℕ)
      → let (made, a') = insert_workspace now name auth_issuer auth_subject email slug a in
        get_workspace made.0.id a' ≡ some made.0
  unfolding get_workspace
  get_inserted name slug = ground arith

  or_conflict-Created :
      (name : List ℕ)
      → has_membership auth_issuer auth_subject a ≡ false
      → Created (
          or_conflict
            (create_with now name auth_issuer auth_subject email (resolve_unique_slug name a) a))
  or_conflict-Created name alone =
      by_slug (resolve_unique_slug name a) (resolve_unique_slug-IsFree name a)
    where
      by_slug :
          (found : Option (List ℕ))
          → ((slug : List ℕ)
              → found ≡ some slug
              → IsUsable slug × (slug_exists slug a.tenants ≡ false) × (is_kept_back slug ≡ false))
          → Created (or_conflict (create_with now name auth_issuer auth_subject email found a))
      by_slug none free = refl
      by_slug (some []) free = refl
      by_slug (some (c ∷ slug)) free =
          let (usable, unused, _) = free (c ∷ slug) refl in
          (
            alone,
            resolve_inserted name (c ∷ slug),
            get_inserted name (c ∷ slug),
            refl,
            usable,
            unused,
          )

  by_tests-Created :
      (bad member : Bool) (r : Result HttpError Creation × Accounts)
      → (member ≡ false → Created r)
      → Created (
          if bad
          then (err (http_error 422 "workspace name"), a)
          else if member
          then (err (http_error 403 "account already belongs to a workspace"), a)
          else r)
  by_tests-Created true member r h = refl
  by_tests-Created false true r h = refl
  by_tests-Created false false r h = h refl

  -- A request for a workspace that is refused changes nothing. One that succeeds comes from
  -- an account without an active membership, which resolves afterwards to the admin of the
  -- new tenant; the tenant is found by its identifier; the user has the email that was
  -- passed; the slug was free, matches the expression of slugs, and has from 3 to 50
  -- characters.
  pub post_workspace-Created :
      (workspace_name : String)
      → Created (post_workspace now workspace_name auth_issuer auth_subject email a)
  unfolding post_workspace
  post_workspace-Created workspace_name =
      by_tests-Created (is_some (validate_workspace_name workspace_name))
        (has_membership auth_issuer auth_subject a)
        (or_conflict (create_workspace now workspace_name auth_issuer auth_subject email a))
        (or_conflict-Created (strip (codes workspace_name)))
