-- ===== src/Identity/Slug/Tests.antt =====
-- Slugs at work.
use compliance_engine.Common.{◌≡◌, ◌≢◌, refl, some}
use compliance_engine.Common.Text.{codes}
use compliance_engine.Identity.Slug.{
  slugify_workspace_name, validate_slug, too_long, invalid_characters, reserved,
}
use compliance_engine.Identity.Slug.Shape.{validate_slug-slugify}

punctuation : slugify_workspace_name " Ann & Bob's -- Lab! " ≡ codes "ann-bob-s-lab"
unfolding slugify_workspace_name
punctuation = refl

reserved_name : validate_slug (slugify_workspace_name "Admin") ≡ some reserved
unfolding slugify_workspace_name validate_slug
reserved_name = refl

validate_slug-slugify_example :
    (validate_slug (slugify_workspace_name "Ann & Bob") ≢ some too_long)
    × (validate_slug (slugify_workspace_name "Ann & Bob") ≢ some invalid_characters)
validate_slug-slugify_example = validate_slug-slugify "Ann & Bob"
