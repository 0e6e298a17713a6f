-- ===== src/SessionService/Steps.antt =====
-- The data and the branches of backend/src/services/sessionService.ts. The signature of access
-- tokens (jsonwebtoken) and the CSRF token (`createCsrfToken`, a keyed hash of a random nonce) are
-- parameters, as is the HMAC.
use ufsc_dso2_trabalho1_merc.Prelude.{
  ℕ, ◌+◌, ◌-◌, String, Bool, false, Option, none, some, [], ◌∷◌, ◌==◌, ◌&&◌, not, is_some, leb,
  str_eq, get_or,
}
use ufsc_dso2_trabalho1_merc.Sql.{select_one}
use ufsc_dso2_trabalho1_merc.Result.{
  Error, app_error, throw_if, invalid_refresh_token, refresh_token_reused, refresh_already_rotated,
}
use ufsc_dso2_trabalho1_merc.Action.{Action, pure, lift, modify, ◌>>◌}
use ufsc_dso2_trabalho1_merc.Database.{
  Uuid, Date, AuditEvent, session_reuse_detected, session_revoked, Db,
}
use ufsc_dso2_trabalho1_merc.Database.Accounts.{SessionRow, UserRow}
use ufsc_dso2_trabalho1_merc.Events.{append_many}
use ufsc_dso2_trabalho1_merc.Sessions.{RotateSessionRecord, revoke_by_id}
use ufsc_dso2_trabalho1_merc.Sessions.Security.{
  RefreshToken, token, SecretKeyRing, SessionSecurityConfig, hash_refresh_token_with_active_key,
  versioned_refresh_token_matches, get_rotated_session_expiry,
}

-- What `randomUUID()` and `randomBytes` return during one call.
pub record Env : Type 0 where
  pub session_id : Uuid
  pub family_id : Uuid
  pub secret : String
  pub audit_id : ℕ → Uuid

-- What an access token says.
pub record AccessClaims : Type 0 where
  pub user_id : Uuid
  pub tenant_id : String
  pub session_id : Uuid
  pub token_version : ℕ

pub record SessionSummary : Type 0 where
  pub id : Uuid
  pub created_at : Date
  pub last_used_at : Date
  pub expires_at : Date
  pub absolute_expires_at : Date
  pub user_agent_label : Option String

abbrev pub to_session_summary : SessionRow → SessionSummary
to_session_summary session = record {
  id = session.id;
  created_at = session.created_at;
  last_used_at = session.last_used_at;
  expires_at = session.expires_at;
  absolute_expires_at = session.absolute_expires_at;
  user_agent_label = session.user_agent_label;
}

pub record Credentials : Type 0 where
  pub access_token : String
  pub csrf_token : String
  pub refresh_token : RefreshToken
  pub session : SessionSummary

-- A rotation returns credentials, or an error that is thrown once the transaction has committed.
pub data Rotation : Type 0 where
  rotated : Credentials → Rotation
  committed_error : Error → Rotation

-- `findTokenVersion` of repositories/postgres/userRepository.ts
abbrev pub is_live_user : String → Uuid → UserRow → Bool
is_live_user tenant_id user_id row =
    str_eq row.tenant_id tenant_id && row.id == user_id && not (is_some row.deactivated_at)

abbrev version_in : Option UserRow → Option ℕ
version_in none = none
version_in (some row) = some row.token_version

unfoldable pub find_token_version : String → Uuid → Db → Option ℕ
find_token_version tenant_id user_id db =
    version_in (select_one (is_live_user tenant_id user_id) db.users)

-- `tokenVersion === session.tokenVersion`, null excluded
abbrev pub has_version : ℕ → Option ℕ → Bool
has_version version none = false
has_version version (some v) = v == version

-- `now - rotatedAt <= refreshConcurrencyWindowMs`; a clock that went back is inside, as there.
abbrev pub is_inside_concurrency_window : SessionSecurityConfig → Option Date → Date → Bool
is_inside_concurrency_window config none now = false
is_inside_concurrency_window config (some rotated_at) now =
    leb (now - rotated_at) config.refresh_concurrency_window_ms

abbrev pub audit : Env → String → AuditEvent → Uuid → Uuid → Date → Action Db (Unit {0})
audit env tenant_id event actor_id resource_id now = modify (
    append_many env.audit_id (
      record {
        tenant_id = tenant_id;
        event = event;
        actor_id = some actor_id;
        resource_id = resource_id;
        occurred_at = now;
      }
      ∷ []))

-- `revokeReusedFamily`
unfoldable pub revoke_reused_family : Env → SessionRow → Date → Action Db Rotation
revoke_reused_family env session now = do
  modify (revoke_by_id session.tenant_id session.id "refresh_reuse" now)
  audit env session.tenant_id session_reuse_detected session.user_id session.id now
  pure (committed_error (app_error 401 refresh_token_reused))

-- The branch of a session whose user is gone or has another token version.
unfoldable pub revoke_invalid_user : Env → String → SessionRow → Date → Action Db Rotation
revoke_invalid_user env tenant_id session now = do
  modify (revoke_by_id tenant_id session.id "invalid_user_session" now)
  audit env tenant_id (session_revoked "invalid_user_session") session.user_id session.id now
  pure (committed_error (app_error 401 invalid_refresh_token))

module _ (hmac : RefreshToken → String → String) (ring : SecretKeyRing)
    (config : SessionSecurityConfig) where
  abbrev pub matches_previous : RefreshToken → SessionRow → Bool
  matches_previous refresh_token session = elim session.previous_refresh_token_hash [
    | none ↦ false
    | some hash ↦
        versioned_refresh_token_matches hmac ring refresh_token hash
          session.previous_refresh_token_secret_version
  ]

  -- `handlePreviousRefreshToken`
  unfoldable pub handle_previous_refresh_token :
      Env → SessionRow → RefreshToken → Date → Action Db Rotation
  handle_previous_refresh_token env session refresh_token now = do
    lift (
        throw_if (not (matches_previous refresh_token session))
          (app_error 401 invalid_refresh_token))
    lift (
        throw_if (is_inside_concurrency_window config session.rotated_at now)
          (app_error 409 refresh_already_rotated))
    revoke_reused_family env session now

  abbrev pub next_token : Env → SessionRow → RefreshToken
  next_token env session = token session.id env.secret

  -- The argument of `rotateCurrent`.
  abbrev pub rotation_of : Env → String → SessionRow → Date → RotateSessionRecord
  rotation_of env tenant_id session now = record {
    tenant_id = tenant_id;
    session_id = session.id;
    expected_refresh_token_hash = session.refresh_token_hash;
    next_refresh_token_hash = hash_refresh_token_with_active_key hmac ring (next_token env session);
    next_refresh_token_secret_version = ring.active_version;
    previous_refresh_token_secret_version = get_or session.refresh_token_secret_version "legacy";
    expires_at = get_rotated_session_expiry config session.absolute_expires_at now;
    now = now;
  }

  -- `rotatedSession`
  abbrev pub rotated_session : Env → String → SessionRow → Date → SessionRow
  rotated_session env tenant_id session now =
      let input = rotation_of env tenant_id session now in
      record session {
        refresh_token_hash = input.next_refresh_token_hash;
        previous_refresh_token_hash = some session.refresh_token_hash;
        previous_refresh_token_secret_version = some input.previous_refresh_token_secret_version;
        refresh_token_secret_version = some input.next_refresh_token_secret_version;
        rotation_counter = session.rotation_counter + 1;
        rotated_at = some now;
        last_used_at = now;
        expires_at = input.expires_at;
      }

module _ (sign : AccessClaims → String) (csrf : Uuid → String) where
  -- `createCredentials`, with the refresh token and the summary
  abbrev pub credentials : RefreshToken → SessionRow → ℕ → Credentials
  credentials refresh_token session token_version = record {
    access_token = sign (record {
      user_id = session.user_id;
      tenant_id = session.tenant_id;
      session_id = session.id;
      token_version = token_version;
    });
    csrf_token = csrf session.id;
    refresh_token = refresh_token;
    session = to_session_summary session;
  }
