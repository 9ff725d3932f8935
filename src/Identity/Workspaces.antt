-- ===== src/Identity/Workspaces.antt =====
-- src/platform_backend/platform/repositories/workspace.py, and the routes of
-- api/routes/workspaces.py that change it. `now` is the clock, in seconds.
pub mod Slugs
pub mod Created
mod Tests
use compliance_engine.Common.{
  ℕ, ◌+◌, String, Bool, true, false, not, ◌&&◌, ◌||◌, Option, none, some, List, [], ◌∷◌, any,
  str_eq, if◌then◌else◌, ◌==◌, Result, ok, err, is_some,
}
use compliance_engine.Common.Rows.{find_by, update_where}
use compliance_engine.Common.Text.{codes, strip, same_text, strip_left, strip_right, lower}
use compliance_engine.Identity.Rows.{Workspace, Account, Member, Accounts, HttpError, http_error}
use compliance_engine.Identity.Slug.{
  squeeze, slugify, validate_slug, slug_candidates, validate_workspace_name,
}

abbrev pub onboarding_states : List String
onboarding_states =
    "WORKSPACE_CREATED" ∷ "AWS_CONNECTED" ∷ "FIRST_SCAN_STARTED" ∷ "FIRST_SCAN_COMPLETE"
    ∷ "ONBOARDING_COMPLETE" ∷ []

-- `TRIAL_DAYS`, in seconds
abbrev pub trial_seconds : ℕ
trial_seconds = 1209600

abbrev pub is_active_member : String → String → Member → Bool
is_active_member auth_issuer auth_subject m =
    str_eq m.auth_issuer auth_issuer && str_eq m.auth_subject auth_subject && m.active

unfoldable pub has_membership : String → String → Accounts → Bool
has_membership auth_issuer auth_subject a =
    any (is_active_member auth_issuer auth_subject) a.memberships

abbrev pub slug_exists : List ℕ → List Workspace → Bool
slug_exists slug tenants = any (λ (t : Workspace). same_text t.slug slug) tenants

abbrev pub is_kept_back : List ℕ → Bool
is_kept_back slug = any (λ s. same_text (codes s) slug) ("admin" ∷ "api" ∷ "app" ∷ "drantiq" ∷ [])

-- The loop over the candidates.
abbrev pub first_free : List Workspace → List (List ℕ) → Option (List ℕ)
first_free tenants [] = none
first_free tenants (slug ∷ slugs) =
    let rest = first_free tenants slugs in
    if is_kept_back slug then rest else if slug_exists slug tenants then rest else some slug

abbrev pub free_slug : List Workspace → List ℕ → Option (List ℕ)
free_slug tenants base =
    if is_some (validate_slug base) then none else first_free tenants (slug_candidates base)

unfoldable pub resolve_unique_slug : List ℕ → Accounts → Option (List ℕ)
unfolding strip strip_left strip_right squeeze lower validate_slug slug_candidates
resolve_unique_slug name a = free_slug a.tenants (slugify name)

-- What `create_workspace` returns.
abbrev pub Creation : Type 0
Creation = Workspace × Account × Member

abbrev pub new_workspace : ℕ → ℕ → List ℕ → List ℕ → Workspace
new_workspace id now name slug = record {
  id = id;
  name = name;
  slug = slug;
  status = "provisioning";
  onboarding_state = "WORKSPACE_CREATED";
  plan = "trial";
  trial_end = now + trial_seconds;
}

abbrev pub new_account : ℕ → Option String → Account
new_account id email = record { id = id; email = email; onboarding_state = "WORKSPACE_CREATED" }

abbrev pub new_admin : ℕ → ℕ → ℕ → String → String → Member
new_admin id user_id tenant_id auth_issuer auth_subject = record {
  id = id;
  user_id = user_id;
  tenant_id = tenant_id;
  role = "tenant_admin";
  auth_issuer = auth_issuer;
  auth_subject = auth_subject;
  active = true;
}

-- The three insertions, in a transaction.
abbrev pub insert_workspace :
    ℕ → List ℕ → String → String → Option String → List ℕ → Accounts → Creation × Accounts
insert_workspace now name auth_issuer auth_subject email slug a =
    let tenant = new_workspace a.fresh now name slug in
    let user = new_account (a.fresh + 1) email in
    let member = new_admin (a.fresh + 2) (a.fresh + 1) a.fresh auth_issuer auth_subject in
    (
      (tenant, user, member),
      record {
        fresh = a.fresh + 3;
        tenants = tenant ∷ a.tenants;
        users = user ∷ a.users;
        memberships = member ∷ a.memberships;
      },
    )

-- `none` is `SlugUnavailableError`; an empty slug is no slug.
abbrev pub create_with :
    ℕ
    → List ℕ
    → String
    → String
    → Option String
    → Option (List ℕ)
    → Accounts
    → Option Creation × Accounts
create_with now name auth_issuer auth_subject email none a = (none, a)
create_with now name auth_issuer auth_subject email (some []) a = (none, a)
create_with now name auth_issuer auth_subject email (some (c ∷ slug)) a =
    let (made, a') = insert_workspace now name auth_issuer auth_subject email (c ∷ slug) a in
    (some made, a')

unfoldable pub create_workspace :
    ℕ → String → String → String → Option String → Accounts → Option Creation × Accounts
unfolding resolve_unique_slug strip
create_workspace now workspace_name auth_issuer auth_subject email a =
    let name = strip (codes workspace_name) in
    create_with now name auth_issuer auth_subject email (resolve_unique_slug name a) a

abbrev pub or_conflict : Option Creation × Accounts → Result HttpError Creation × Accounts
or_conflict (none, a) = (err (http_error 409 "workspace name unavailable"), a)
or_conflict (some made, a) = (ok made, a)

-- The route `POST /workspaces`, for the claims of a verified token.
unfoldable pub post_workspace :
    ℕ → String → String → String → Option String → Accounts → Result HttpError Creation × Accounts
unfolding validate_workspace_name has_membership create_workspace
post_workspace now workspace_name auth_issuer auth_subject email a =
    if is_some (validate_workspace_name workspace_name)
    then (err (http_error 422 "workspace name"), a)
    else if has_membership auth_issuer auth_subject a
    then (err (http_error 403 "account already belongs to a workspace"), a)
    else or_conflict (create_workspace now workspace_name auth_issuer auth_subject email a)

unfoldable pub get_workspace : ℕ → Accounts → Option Workspace
unfolding find_by
get_workspace tenant_id a = find_by (λ (t : Workspace). t.id == tenant_id) a.tenants

abbrev pub as_onboarded : String → Workspace → Workspace
as_onboarded state t = record t {
  onboarding_state = state;
  status = (if str_eq state "ONBOARDING_COMPLETE" then "active" else t.status);
}

-- `update_onboarding_state`: `err` is the `ValueError`, `ok none` that there is no such tenant.
unfoldable pub update_onboarding_state :
    ℕ → String → Accounts → Result String (Option Workspace) × Accounts
unfolding find_by update_where
update_onboarding_state tenant_id state a =
    if any (str_eq state) onboarding_states
    then (let a' = record a {
      tenants = update_where (λ (t : Workspace). t.id == tenant_id) (as_onboarded state) a.tenants;
    } in
        (ok (find_by (λ (t : Workspace). t.id == tenant_id) a'.tenants), a'))
    else (err state, a)

abbrev or_old : Option ℕ → ℕ → ℕ
or_old none old = old
or_old (some new) old = new

abbrev pub with_plan : String → Option ℕ → Workspace → Workspace
with_plan plan trial_end t = record t { plan = plan; trial_end = or_old trial_end t.trial_end }

unfoldable pub update_plan : ℕ → String → Option ℕ → Accounts → Option Workspace × Accounts
unfolding find_by update_where
update_plan tenant_id plan trial_end a =
    let a' = record a {
      tenants =
          update_where (λ (t : Workspace). t.id == tenant_id) (with_plan plan trial_end) a.tenants;
    } in
    (find_by (λ (t : Workspace). t.id == tenant_id) a'.tenants, a')
