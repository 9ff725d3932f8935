-- ===== src/Invitations/Once.antt =====
-- An invitation is accepted at most once, and an account belongs to at most one workspace.
use compliance_engine.Common.Updates.{find_by-update_some}
use compliance_engine.Common.{
  ℕ, ◌≡◌, ◌∙◌, ◌⊎◌, String, false, ◌&&◌, Option, none, some, List, [], ◌∷◌, any, ◌==◌, refl, arith,
  ap, ok, err, Bool-cases, inl, inr,
}
use compliance_engine.Invitations.{
  accepted, Invitation, Membership, Tenant, Tables, InviteError, refusal, set_status, is_overdue,
  find_invitation, read_found, get_by_token, status_refusal, email_differs, is_member, new_member,
  join, join_tenant, accept_checked, accept_read, accept_invitation, Joined,
}
use compliance_engine.Invitations.Accept.{accept_invitation-Granted}

-- No account has two active memberships.
abbrev pub OneWorkspace : (String → String) → List Membership → Type 0
OneWorkspace hash [] = Unit
OneWorkspace hash (m ∷ ms) =
    ((m.active && any (is_member hash m.auth_issuer m.auth_subject) ms) ≡ false)
    × OneWorkspace hash ms

module _ (hash : String → String) where
  find_invitation-accepted :
      (token : String) (i : Invitation) (t u : Tables)
      → find_invitation hash token t ≡ some i
      → u.invitations ≡ set_status i.id accepted t.invitations
      → u.tenants ≡ t.tenants
      → find_invitation hash token u ≡ some (record i { status = accepted })
  unfolding find_invitation
  find_invitation-accepted token i t u found rows tenants =
      rw (rows, tenants)
        (find_by-update_some _ (λ (r : Invitation). r.id == i.id)
            (λ (r : Invitation). record r { status = accepted }) t.invitations (λ r. refl)
          ∙ rw found (ground arith))

  accepted_again :
      (later : ℕ) (token issuer subject : String) (email : Option String) (i : Invitation)
      (u : Tables)
      → find_invitation hash token u ≡ some (record i { status = accepted })
      → accept_invitation hash later token issuer subject email u
        ≡ (err (refusal "invitation already accepted" 409), u)
  unfolding accept_invitation get_by_token
  accepted_again later token issuer subject email i u found =
      ap (λ row. accept_read hash issuer subject email (read_found hash later row u)) found

  -- After an acceptance that succeeded, every further acceptance of the same token, at any
  -- time, by any account and with any email, is refused as already accepted and changes
  -- nothing.
  pub accept_invitation-once :
      (now later : ℕ) (token issuer subject issuer' subject' : String)
      (email email' : Option String) (joined : Joined) (t : Tables)
      → (accept_invitation hash now token issuer subject email t).0 ≡ ok joined
      → accept_invitation hash later token issuer' subject' email'
          (accept_invitation hash now token issuer subject email t).1
        ≡ (
          err (refusal "invitation already accepted" 409),
          (accept_invitation hash now token issuer subject email t).1,
        )
  accept_invitation-once now later token issuer subject issuer' subject' email email' joined t h =
      let u = (accept_invitation hash now token issuer subject email t).1 in
      let g = accept_invitation-Granted hash now token issuer subject email joined t h in
      accepted_again later token issuer' subject' email' g.invitation u
        (find_invitation-accepted token g.invitation t u g.found g.invitations g.tenants)

  -- What happens to the memberships: nothing, or one that no active one stands against.
  abbrev Extends : List Membership → List Membership → Type 0
  Extends ms ns =
      (ns ≡ ms)
      ⊎ ((m : Membership) × (ns ≡ m ∷ ms)
          × (any (is_member hash m.auth_issuer m.auth_subject) ms ≡ false))

  join_tenant-Extends :
      (i : Invitation) (issuer subject : String) (email : Option String) (row : Option Tenant)
      (t : Tables)
      → any (is_member hash issuer subject) t.memberships ≡ false
      → Extends t.memberships (join_tenant hash i issuer subject email row t).1.memberships
  join_tenant-Extends i issuer subject email none t h = inl refl
  join_tenant-Extends i issuer subject email (some tenant) t h =
      inr (new_member hash i t.fresh issuer subject, refl, h)

  join-Extends :
      (i : Invitation) (issuer subject : String) (email : Option String) (t : Tables)
      → Extends t.memberships (join hash i issuer subject email t).1.memberships
  unfolding join
  join-Extends i issuer subject email t =
      elim (Bool-cases (any (is_member hash issuer subject) t.memberships)) [
        | inl member ↦ rw member (inl refl)
        | inr no_member ↦ rw no_member (join_tenant-Extends i issuer subject email _ t no_member)
      ]

  accept_checked-Extends :
      (i : Invitation) (issuer subject : String) (email : Option String) (e : Option InviteError)
      (t : Tables)
      → Extends t.memberships (accept_checked hash issuer subject email i e t).1.memberships
  accept_checked-Extends i issuer subject email (some e) t = inl refl
  accept_checked-Extends i issuer subject email none t =
      elim (Bool-cases (email_differs hash email i)) [
        | inl differs ↦ rw differs (inl refl)
        | inr agrees ↦ rw agrees (join-Extends i issuer subject email t)
      ]

  accept_read-Extends :
      (now : ℕ) (issuer subject : String) (email : Option String) (row : Option Invitation)
      (t : Tables)
      → Extends t.memberships
          (accept_read hash issuer subject email (read_found hash now row t)).1.memberships
  accept_read-Extends now issuer subject email none t = inl refl
  accept_read-Extends now issuer subject email (some i) t = elim (Bool-cases (is_overdue now i)) [
    | inl late ↦ rw late (inl refl)
    | inr in_time ↦
        rw in_time (accept_checked-Extends i issuer subject email (status_refusal hash i.status) t)
  ]

  Extends-OneWorkspace :
      (ms ns : List Membership) → Extends ms ns → OneWorkspace hash ms → OneWorkspace hash ns
  Extends-OneWorkspace ms ns (inl e) h = rw e h
  Extends-OneWorkspace ms ns (inr (m, e, alone)) h = rw e (ground arith, h)

  -- If no account has two active memberships, none has after an acceptance, whether it
  -- succeeds or is refused.
  pub accept_invitation-OneWorkspace :
      (now : ℕ) (token issuer subject : String) (email : Option String) (t : Tables)
      → OneWorkspace hash t.memberships
      → OneWorkspace hash (accept_invitation hash now token issuer subject email t).1.memberships
  unfolding accept_invitation get_by_token
  accept_invitation-OneWorkspace now token issuer subject email t h =
      Extends-OneWorkspace t.memberships _
        (accept_read-Extends now issuer subject email (find_invitation hash token t) t) h
