-- ===== src/Identity/Service/Tests.antt =====
-- A request with a token, and the theorem at it.
use compliance_engine.Common.{ℕ, String, true, ◌≡◌, refl, [], ◌∷◌, ok, err, Option, some, none, ◌⊎◌}
use compliance_engine.Identity.Rows.{Accounts, http_error}
use compliance_engine.Identity.Service.{
  PlatformPrincipal, Headers, Verifier, authenticate, require_roles, read_roles,
}
use compliance_engine.Identity.Service.Authorized.{authenticate-Authorized, ByToken, ByHeader}

abbrev accounts : Accounts
accounts = record {
  fresh = 9;
  tenants =
      record {
        id = 1;
        name = [];
        slug = [];
        status = "active";
        onboarding_state = "AWS_CONNECTED";
        plan = "trial";
        trial_end = 0;
      }
      ∷ [];
  users = record { id = 2; email = none; onboarding_state = "AWS_CONNECTED" } ∷ [];
  memberships =
      record {
        id = 3;
        user_id = 2;
        tenant_id = 1;
        role = "viewer";
        auth_issuer = "i";
        auth_subject = "s";
        active = true;
      }
      ∷ [];
}

abbrev verify : Verifier
verify token = ok (record { subject = "s"; issuer = "i"; email = some "a@b" })

abbrev uuid : String → Option ℕ
uuid text = some 1

abbrev show_uuid : ℕ → String
show_uuid id = "dev:1"

abbrev headers : Option String → Headers
headers authorization = record {
  authorization = authorization;
  tenant_id = some "1";
  role = some "owner";
  subject = none;
  email = none;
}

abbrev viewer : PlatformPrincipal
viewer = record {
  tenant_id = 1;
  role = "viewer";
  subject = "s";
  email = some "a@b";
  user_id = some 2;
  issuer = some "i";
  auth_mode = "jwt";
  workspace = some (record {
    id = 1;
    name = [];
    slug = [];
    status = "active";
    onboarding_state = "AWS_CONNECTED";
    plan = "trial";
    trial_end = 0;
  });
}

let_in :
    authenticate uuid show_uuid (some verify) true accounts (headers (some "Bearer t")) ≡ ok viewer
unfolding authenticate
let_in = refl

-- The header does not help a request whose token is empty.
empty_token :
    authenticate uuid show_uuid (some verify) true accounts (headers (some "bearer  "))
    ≡ err (http_error 401 "Bearer token is required")
unfolding authenticate
empty_token = refl

unknown_role :
    authenticate uuid show_uuid none true accounts (headers none) ≡ err (http_error 400 "X-Role")
unfolding authenticate
unknown_role = refl

viewer_reads : require_roles read_roles viewer ≡ ok viewer
unfolding require_roles
viewer_reads = refl

authenticate-Authorized_example :
    ByToken (some verify) accounts (headers (some "Bearer t")) viewer
    ⊎ ByHeader uuid true (headers (some "Bearer t")) viewer
authenticate-Authorized_example =
    authenticate-Authorized uuid show_uuid (some verify) true accounts (headers (some "Bearer t"))
      viewer let_in
