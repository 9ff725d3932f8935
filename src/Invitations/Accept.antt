-- ===== src/Invitations/Accept.antt =====
-- What accepting an invitation promises.
use compliance_engine.Common.{
  sym, ok-inj, ℕ, ◌≡◌, String, true, false, Option, none, some, ◌∷◌, any, ltb, refl, ap, Result, ok,
  err, Bool-cases, Option-cases, inl, inr,
}
use compliance_engine.Invitations.{
  join_tenant, InviteStatus, pending, accepted, expired, revoked, unknown, Invitation, Tenant,
  Tables, InviteError, set_status, is_overdue, find_invitation, read_found, status_refusal,
  email_differs, is_member, join, accept_read, accept_invitation, Joined,
}

-- A success: the invitation, and what the tables are after it.
pub record Granted (hash : String → String) (now : ℕ) (token issuer subject : String)
    (joined : Joined) (t u : Tables) : Type 0 where
  pub invitation : Invitation
  pub found : find_invitation hash token t ≡ some invitation
  pub was_pending : invitation.status ≡ pending
  pub in_time : ltb invitation.expires_at now ≡ false
  pub no_member : any (is_member hash issuer subject) t.memberships ≡ false
  pub tenant : joined.1.tenant_id ≡ invitation.tenant_id
  pub role : joined.1.role ≡ invitation.role
  pub active : joined.1.active ≡ true
  pub memberships : u.memberships ≡ joined.1 ∷ t.memberships
  pub invitations : u.invitations ≡ set_status invitation.id accepted t.invitations
  pub tenants : u.tenants ≡ t.tenants

err-not-ok :
    {A : Type 0} {e : InviteError} {a : A} → ◌≡◌ {A = Result InviteError A} (err e) (ok a) → ⊥
err-not-ok h = cc

pending-in_time :
    (now : ℕ) (i : Invitation)
    → i.status ≡ pending
    → is_overdue now i ≡ false
    → ltb i.expires_at now ≡ false
pending-in_time now i open_now h = rw open_now at h

module _ (hash : String → String) where
  status_refusal-none : (s : InviteStatus) → status_refusal hash s ≡ none → s ≡ pending
  status_refusal-none pending h = refl
  status_refusal-none accepted h = cc
  status_refusal-none revoked h = cc
  status_refusal-none expired h = cc
  status_refusal-none unknown h = cc

  join_tenant-Granted :
      (now : ℕ) (token issuer subject : String) (email : Option String) (i : Invitation)
      (row : Option Tenant) (joined : Joined) (t : Tables)
      → find_invitation hash token t ≡ some i
      → i.status ≡ pending
      → ltb i.expires_at now ≡ false
      → any (is_member hash issuer subject) t.memberships ≡ false
      → (join_tenant hash i issuer subject email row t).0 ≡ ok joined
      → Granted hash now token issuer subject joined t
          (join_tenant hash i issuer subject email row t).1
  join_tenant-Granted now token issuer subject email i none joined t found open_now in_time
        no_member h =
      cc
  join_tenant-Granted now token issuer subject email i (some tenant) joined t found open_now in_time
        no_member h =
      let e = ok-inj (sym h) in
      record {
        invitation = i;
        found = found;
        was_pending = open_now;
        in_time = in_time;
        no_member = no_member;
        tenant = ap (λ (j : Joined). j.1.tenant_id) e;
        role = ap (λ (j : Joined). j.1.role) e;
        active = ap (λ (j : Joined). j.1.active) e;
        memberships = ap (λ (j : Joined). j.1 ∷ t.memberships) (sym e);
        invitations = refl;
        tenants = refl;
      }

  join-Granted :
      (now : ℕ) (token issuer subject : String) (email : Option String) (i : Invitation)
      (joined : Joined) (t : Tables)
      → find_invitation hash token t ≡ some i
      → i.status ≡ pending
      → ltb i.expires_at now ≡ false
      → (join hash i issuer subject email t).0 ≡ ok joined
      → Granted hash now token issuer subject joined t (join hash i issuer subject email t).1
  unfolding join
  join-Granted now token issuer subject email i joined t found open_now in_time h =
      elim (Bool-cases (any (is_member hash issuer subject) t.memberships)) [
        | inl member ↦ absurd (err-not-ok (rw member at h))
        | inr no_member ↦ rw no_member (
            join_tenant-Granted now token issuer subject email i _ joined t found open_now in_time
              no_member (rw no_member at h))
      ]

  accept_read-Granted :
      (now : ℕ) (token issuer subject : String) (email : Option String) (row : Option Invitation)
      (joined : Joined) (t : Tables)
      → find_invitation hash token t ≡ row
      → (accept_read hash issuer subject email (read_found hash now row t)).0 ≡ ok joined
      → Granted hash now token issuer subject joined t
          (accept_read hash issuer subject email (read_found hash now row t)).1
  accept_read-Granted now token issuer subject email none joined t found h = cc
  accept_read-Granted now token issuer subject email (some i) joined t found h =
      elim (Bool-cases (is_overdue now i)) [
        | inl late ↦ absurd (err-not-ok (rw late at h))
        | inr in_time ↦ elim (Option-cases (status_refusal hash i.status)) [
          | inr (e, refused) ↦ absurd (err-not-ok (rw (in_time, refused) at h))
          | inl fine ↦ elim (Bool-cases (email_differs hash email i)) [
            | inl differs ↦ absurd (err-not-ok (rw (in_time, fine, differs) at h))
            | inr agrees ↦
                rw (in_time, fine, agrees)
                  (join-Granted now token issuer subject email i joined t found
                    (status_refusal-none i.status fine)
                    (pending-in_time now i (status_refusal-none i.status fine) in_time)
                    (rw (in_time, fine, agrees) at h))
          ]
        ]
      ]

  pub accept_invitation-Granted :
      (now : ℕ) (token issuer subject : String) (email : Option String) (joined : Joined)
      (t : Tables)
      → (accept_invitation hash now token issuer subject email t).0 ≡ ok joined
      → Granted hash now token issuer subject joined t
          (accept_invitation hash now token issuer subject email t).1
  unfolding accept_invitation
  accept_invitation-Granted now token issuer subject email joined t h =
      accept_read-Granted now token issuer subject email (find_invitation hash token t) joined t
        refl h
