-- ===== src/Invitations.antt =====
-- src/platform_backend/platform/repositories/invitations.py. `hash` is `hash_invite_token`, a token is
-- an argument where the code generates it, and `now` is the clock, in seconds.
pub mod Accept
pub mod Once
mod Tests
use compliance_engine.Common.{
  ℕ, ◌+◌, ◌*◌, String, Bool, true, false, ◌&&◌, ◌||◌, Option, none, some, List, [], ◌∷◌, map, any,
  str_eq, ◌==◌, ltb, if◌then◌else◌, Result, ok, err,
}
use compliance_engine.Common.Rows.{update_where, find_by}
use compliance_engine.Common.Text.{codes, lower, strip}
use compliance_engine.Policy.Catalog.{given}

-- The texts of the column `status`; `unknown` is any other.
pub data InviteStatus : Type 0 where
  pending accepted revoked expired unknown : InviteStatus

abbrev pub is_pending : InviteStatus → Bool
is_pending pending = true
is_pending _ = false

-- An email is the list of its code points.
pub record Invitation : Type 0 where
  pub id : ℕ
  pub tenant_id : ℕ
  pub email : List ℕ
  pub role : String
  pub token_hash : String
  pub invited_by : Option ℕ
  pub status : InviteStatus
  pub expires_at : ℕ

-- A row of platform.tenant_memberships.
pub record Membership : Type 0 where
  pub user_id : ℕ
  pub tenant_id : ℕ
  pub role : String
  pub auth_issuer : String
  pub auth_subject : String
  pub active : Bool

-- A row of platform.users: a new one has the onboarding state WORKSPACE_CREATED.
pub record User : Type 0 where
  pub id : ℕ
  pub email : List ℕ

pub record Tenant : Type 0 where
  pub id : ℕ
  pub name : String

pub record Tables : Type 0 where
  pub fresh : ℕ
  pub tenants : List Tenant
  pub users : List User
  pub invitations : List Invitation
  pub memberships : List Membership

-- `ValueError` of the creation, and `InvitationError` with its status code.
pub data InviteError : Type 0 where
  invalid_role : String → InviteError
  refusal : (message : String) (status_code : ℕ) → InviteError
  no_tenant : InviteError

-- What an acceptance returns.
abbrev pub Joined : Type 0
Joined = Tenant × Membership

-- `INVITE_TTL_DAYS`, and a week in seconds.
abbrev pub invite_ttl : ℕ
invite_ttl = 604800

abbrev pub is_invite_role : String → Bool
is_invite_role role = str_eq role "tenant_admin" || str_eq role "viewer"

-- A status that an update sets on the invitation with this identifier.
abbrev pub set_status : ℕ → InviteStatus → List Invitation → List Invitation
set_status id status rows =
    update_where (λ (i : Invitation). i.id == id) (λ (i : Invitation). record i { status = status })
      rows

-- The `WHERE` of `revoke` wants the tenant and a pending invitation.
abbrev pub is_revocable : ℕ → ℕ → Invitation → Bool
is_revocable tenant_id invitation_id i =
    i.id == invitation_id && i.tenant_id == tenant_id && is_pending i.status

abbrev pub as_revoked : Invitation → Invitation
as_revoked i = record i { status = revoked }

-- The row that `RETURNING` gives is the one that was updated.
unfoldable pub revoke : ℕ → ℕ → Tables → Option Invitation × Tables
unfolding update_where find_by
revoke tenant_id invitation_id t = (
  elim (find_by (is_revocable tenant_id invitation_id) t.invitations) [
    | none ↦ none
    | some i ↦ some (as_revoked i)
  ],
  record t {
    invitations = update_where (is_revocable tenant_id invitation_id) as_revoked t.invitations;
  },
)

-- `result["status"] == "pending" and result["expires_at"] < now`
abbrev pub is_overdue : ℕ → Invitation → Bool
is_overdue now i = is_pending i.status && ltb i.expires_at now

module _ (hash : String → String) where
  unfoldable pub create_invitation :
      ℕ
      → ℕ
      → String
      → String
      → Option ℕ
      → String
      → Tables
      → Result InviteError (Invitation × String) × Tables
  unfolding lower strip
  create_invitation now tenant_id email role invited_by token t =
      if is_invite_role role
      then (let row : Invitation = record {
        id = t.fresh;
        tenant_id = tenant_id;
        email = lower (strip (codes email));
        role = role;
        token_hash = hash token;
        invited_by = invited_by;
        status = pending;
        expires_at = now + invite_ttl;
      } in
          (ok (row, token), record t { fresh = t.fresh + 1; invitations = row ∷ t.invitations }))
      else (err (invalid_role role), t)

  -- The query of `get_by_token`, which joins the tenant.
  unfoldable pub find_invitation : String → Tables → Option Invitation
  unfolding find_by
  find_invitation token t =
      find_by
        (λ (i : Invitation).
          str_eq i.token_hash (hash token) && any (λ (n : Tenant). n.id == i.tenant_id) t.tenants)
        t.invitations

  -- An invitation that is read after its time becomes expired.
  abbrev pub expire_if_overdue : ℕ → Invitation → Tables → Option Invitation × Tables
  expire_if_overdue now i t =
      if is_overdue now i
      then (
        some (record i { status = expired }),
        record t {
          invitations =
              update_where (λ (r : Invitation). r.id == i.id && is_pending r.status)
                (λ (r : Invitation). record r { status = expired }) t.invitations;
        },
      )
      else (some i, t)

  abbrev pub read_found : ℕ → Option Invitation → Tables → Option Invitation × Tables
  read_found now none t = (none, t)
  read_found now (some i) t = expire_if_overdue now i t

  unfoldable pub get_by_token : ℕ → String → Tables → Option Invitation × Tables
  unfolding find_invitation update_where
  get_by_token now token t = read_found now (find_invitation token t) t

  -- The tests of `accept_invitation` before the transaction.
  abbrev pub status_refusal : InviteStatus → Option InviteError
  status_refusal revoked = some (refusal "invitation was revoked" 410)
  status_refusal expired = some (refusal "invitation has expired" 410)
  status_refusal accepted = some (refusal "invitation already accepted" 409)
  status_refusal unknown = some (refusal "invitation is not valid" 400)
  status_refusal pending = none

  abbrev same_codes : List ℕ → List ℕ → Bool
  same_codes [] [] = true
  same_codes (c ∷ cs) (d ∷ ds) = c == d && same_codes cs ds
  same_codes _ _ = false

  -- `email and invite["email"].lower() != email.lower()`
  unfoldable pub email_differs : Option String → Invitation → Bool
  unfolding lower
  email_differs email i = elim (given email) [
    | none ↦ false
    | some e ↦ if same_codes (lower i.email) (lower (codes e)) then false else true
  ]

  abbrev pub is_member : String → String → Membership → Bool
  is_member auth_issuer auth_subject m =
      str_eq m.auth_issuer auth_issuer && str_eq m.auth_subject auth_subject && m.active

  -- `email or invite["email"]`
  abbrev user_email : Option String → Invitation → List ℕ
  user_email email i = elim (given email) [ none ↦ i.email | some e ↦ codes e ]

  abbrev pub new_member : Invitation → ℕ → String → String → Membership
  new_member i user_id auth_issuer auth_subject = record {
    user_id = user_id;
    tenant_id = i.tenant_id;
    role = i.role;
    auth_issuer = auth_issuer;
    auth_subject = auth_subject;
    active = true;
  }

  -- The writes of the transaction, given the row of the tenant.
  abbrev pub join_tenant :
      Invitation
      → String
      → String
      → Option String
      → Option Tenant
      → Tables
      → Result InviteError Joined × Tables
  join_tenant i auth_issuer auth_subject email none t = (err no_tenant, t)
  join_tenant i auth_issuer auth_subject email (some tenant) t = (
    ok (tenant, new_member i t.fresh auth_issuer auth_subject),
    record t {
      fresh = t.fresh + 1;
      users = record { id = t.fresh; email = user_email email i } ∷ t.users;
      memberships = new_member i t.fresh auth_issuer auth_subject ∷ t.memberships;
      invitations = set_status i.id accepted t.invitations;
    },
  )

  -- The transaction: an exception inside it undoes what it wrote.
  unfoldable pub join :
      Invitation → String → String → Option String → Tables → Result InviteError Joined × Tables
  unfolding update_where find_by
  join i auth_issuer auth_subject email t =
      if any (is_member auth_issuer auth_subject) t.memberships
      then (err (refusal "account already belongs to a workspace" 403), t)
      else join_tenant i auth_issuer auth_subject email
          (find_by (λ (n : Tenant). n.id == i.tenant_id) t.tenants) t

  abbrev pub accept_checked :
      String
      → String
      → Option String
      → Invitation
      → Option InviteError
      → Tables
      → Result InviteError Joined × Tables
  accept_checked auth_issuer auth_subject email i (some e) t = (err e, t)
  accept_checked auth_issuer auth_subject email i none t =
      if email_differs email i
      then (err (refusal "invitation email does not match your account" 403), t)
      else join i auth_issuer auth_subject email t

  -- `accept_invitation` from the point where the invitation is read.
  abbrev pub accept_read :
      String
      → String
      → Option String
      → Option Invitation × Tables
      → Result InviteError Joined × Tables
  accept_read auth_issuer auth_subject email (none, t) =
      (err (refusal "invitation not found" 404), t)
  accept_read auth_issuer auth_subject email (some i, t) =
      accept_checked auth_issuer auth_subject email i (status_refusal i.status) t

  unfoldable pub accept_invitation :
      ℕ → String → String → String → Option String → Tables → Result InviteError Joined × Tables
  unfolding get_by_token join email_differs
  accept_invitation now token auth_issuer auth_subject email t =
      accept_read auth_issuer auth_subject email (get_by_token now token t)
