-- ===== src/Database/Accounts.antt =====
-- backend/src/database/schema.ts: the rows of users, sessions and account tokens.
use ufsc_dso2_trabalho1_merc.Prelude.{ℕ, String, Option}
use ufsc_dso2_trabalho1_merc.Database.Ids.{Uuid, Date}

-- `users`
pub record UserRow : Type 0 where
  pub id : Uuid
  pub tenant_id : String
  pub email : String
  pub password_hash : String
  pub token_version : ℕ
  pub email_verified_at : Option Date
  pub email_version : ℕ
  pub deactivated_at : Option Date
  pub username : Option String
  pub telephone : Option String
  pub created_at : Date
  pub updated_at : Date

-- `sessions`
pub record SessionRow : Type 0 where
  pub id : Uuid
  pub tenant_id : String
  pub user_id : Uuid
  pub family_id : Uuid
  pub token_version : ℕ
  pub refresh_token_hash : String
  pub refresh_token_secret_version : Option String
  pub previous_refresh_token_hash : Option String
  pub previous_refresh_token_secret_version : Option String
  pub rotation_counter : ℕ
  pub rotated_at : Option Date
  pub last_used_at : Date
  pub absolute_expires_at : Date
  pub expires_at : Date
  pub revoked_at : Option Date
  pub revoke_reason : Option String
  pub user_agent_label : Option String
  pub created_at : Date
  pub updated_at : Date

-- `AccountTokenPurpose`
pub data Purpose : Type 0 where
  email_verification password_reset email_change : Purpose

-- `AccountTokenInvalidationReason`
pub data InvalidationReason : Type 0 where
  replaced password_reset_done password_change email_changed account_deactivated :
      InvalidationReason

-- `account_tokens`
pub record AccountTokenRow : Type 0 where
  pub id : Uuid
  pub tenant_id : String
  pub user_id : Uuid
  pub purpose : Purpose
  pub token_hash : String
  pub token_hash_secret_version : String
  pub email_version : Option ℕ
  pub expires_at : Date
  pub consumed_at : Option Date
  pub invalidated_at : Option Date
  pub invalidation_reason : Option InvalidationReason
  pub created_at : Date
