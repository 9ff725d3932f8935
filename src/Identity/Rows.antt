-- ===== src/Identity/Rows.antt =====
-- The global tables of accounts: platform.tenants, platform.users and platform.tenant_memberships.
-- Names, slugs and emails are lists of code points; a time is a number.
use compliance_engine.Common.{ℕ, String, Bool, Option, List}

pub record Workspace : Type 0 where
  pub id : ℕ
  pub name : List ℕ
  pub slug : List ℕ
  pub status : String
  pub onboarding_state : String
  pub plan : String
  pub trial_end : ℕ

pub record Account : Type 0 where
  pub id : ℕ
  pub email : Option String
  pub onboarding_state : String

pub record Member : Type 0 where
  pub id : ℕ
  pub user_id : ℕ
  pub tenant_id : ℕ
  pub role : String
  pub auth_issuer : String
  pub auth_subject : String
  pub active : Bool

-- One counter gives the identifiers of new rows.
pub record Accounts : Type 0 where
  pub fresh : ℕ
  pub tenants : List Workspace
  pub users : List Account
  pub memberships : List Member

-- An `HTTPException`.
pub record HttpError : Type 0 where
  pub status_code : ℕ
  pub detail : String

abbrev pub http_error : ℕ → String → HttpError
http_error status_code detail = record { status_code = status_code; detail = detail }
