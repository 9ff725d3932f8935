-- ===== src/Invitations/Tests.antt =====
-- Invitations at work.
use compliance_engine.Common.{String, none, some, [], ◌∷◌, ◌≡◌, refl, ok, err}
use compliance_engine.Common.Text.{codes}
use compliance_engine.Invitations.{
  Invitation, pending, Tables, refusal, new_member, accept_invitation, Joined, revoke,
}
use compliance_engine.Invitations.Once.{
  OneWorkspace, accept_invitation-once, accept_invitation-OneWorkspace,
}

abbrev hash : String → String
hash token = token

abbrev invitation : Invitation
invitation = record {
  id = 1;
  tenant_id = 5;
  email = codes "ann@example.com";
  role = "viewer";
  token_hash = "t-1";
  invited_by = none;
  status = pending;
  expires_at = 100;
}

abbrev tables : Tables
tables = record {
  fresh = 2;
  tenants = record { id = 5; name = "Example" } ∷ [];
  users = [];
  invitations = invitation ∷ [];
  memberships = [];
}

abbrev joined : Joined
joined = (record { id = 5; name = "Example" }, new_member hash invitation 2 "issuer" "ann")

accepts :
    (accept_invitation hash 40 "t-1" "issuer" "ann" (some "Ann@example.com") tables).0 ≡ ok joined
unfolding accept_invitation
accepts = refl

late :
    (accept_invitation hash 101 "t-1" "issuer" "ann" none tables).0
    ≡ err (refusal "invitation has expired" 410)
unfolding accept_invitation
late = refl

withdrawn :
    (accept_invitation hash 40 "t-1" "issuer" "ann" none (revoke 5 1 tables).1).0
    ≡ err (refusal "invitation was revoked" 410)
unfolding accept_invitation revoke
withdrawn = refl

accept_invitation-once_example :
    accept_invitation hash 50 "t-1" "issuer" "bob" none
      (accept_invitation hash 40 "t-1" "issuer" "ann" (some "Ann@example.com") tables).1
    ≡ (
      err (refusal "invitation already accepted" 409),
      (accept_invitation hash 40 "t-1" "issuer" "ann" (some "Ann@example.com") tables).1,
    )
accept_invitation-once_example =
    accept_invitation-once hash 40 50 "t-1" "issuer" "ann" "issuer" "bob" (some "Ann@example.com")
      none joined tables accepts

accept_invitation-OneWorkspace_example :
    OneWorkspace hash
      (accept_invitation hash 40 "t-1" "issuer" "ann" (some "Ann@example.com") tables).1.memberships
accept_invitation-OneWorkspace_example =
    accept_invitation-OneWorkspace hash 40 "t-1" "issuer" "ann" (some "Ann@example.com") tables tt
