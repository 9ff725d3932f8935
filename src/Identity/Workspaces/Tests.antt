-- ===== src/Identity/Workspaces/Tests.antt =====
-- A new workspace whose first slug is taken, and the theorem at it.
use compliance_engine.Common.{◌≡◌, refl, [], ◌∷◌, some, none}
use compliance_engine.Common.Text.{codes}
use compliance_engine.Identity.Rows.{Accounts}
use compliance_engine.Identity.Workspaces.{post_workspace, resolve_unique_slug, new_workspace}
use compliance_engine.Identity.Workspaces.Created.{post_workspace-Created, Created}

abbrev accounts : Accounts
accounts = record {
  fresh = 5;
  tenants = new_workspace 1 0 (codes "Acme") (codes "acme") ∷ [];
  users = [];
  memberships = [];
}

second_slug : resolve_unique_slug (codes "Acme") accounts ≡ some (codes "acme-2")
unfolding resolve_unique_slug
second_slug = refl

reserved_name : resolve_unique_slug (codes "API") accounts ≡ none
unfolding resolve_unique_slug
reserved_name = refl

-- A base of 48 characters leaves room for no number: the slug has 50.
long_slug :
    resolve_unique_slug
      (codes "aaaaaaaaaaaaaaaaaaaaaaaaaaaaaaaaaaaaaaaaaaaaaaaa")
      (record accounts {
        tenants =
            new_workspace 1 0 [] (codes "aaaaaaaaaaaaaaaaaaaaaaaaaaaaaaaaaaaaaaaaaaaaaaaa") ∷ [];
      })
    ≡ some (codes "aaaaaaaaaaaaaaaaaaaaaaaaaaaaaaaaaaaaaaaaaaaaaaaa-2")
unfolding resolve_unique_slug
long_slug = refl

post_workspace-Created_example :
    Created 7 "iss" "sub" none accounts (post_workspace 7 " Acme " "iss" "sub" none accounts)
post_workspace-Created_example = post_workspace-Created 7 "iss" "sub" none accounts " Acme "
