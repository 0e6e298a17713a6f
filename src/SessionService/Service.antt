-- ===== src/SessionService/Service.antt =====
-- `createSessionService`: sessions are created, rotated, read and revoked.
use ufsc_dso2_trabalho1_merc.Prelude.{
  ℕ, String, Bool, true, false, Option, none, some, not, if◌then◌else◌,
}
use ufsc_dso2_trabalho1_merc.Result.{
  Result, ok, err, app_error, or_throw, throw_if, invalid_refresh_token, session_expired,
  session_not_found, invalid_auth_token,
}
use ufsc_dso2_trabalho1_merc.Action.{
  Action, pure, lift, gets, modify, writes, Transactions, ◌>>=◌, ◌>>◌,
}
use ufsc_dso2_trabalho1_merc.Database.{
  Uuid, Date, session_created, session_rotated, session_revoked, user_sessions_revoked, Db,
}
use ufsc_dso2_trabalho1_merc.Database.Accounts.{SessionRow}
use ufsc_dso2_trabalho1_merc.Sessions.{
  create, find_refresh_by_id, rotate_current, find_owned, revoke_owned, revoke_all,
}
use ufsc_dso2_trabalho1_merc.Sessions.Security.{
  RefreshToken, token, get_refresh_token_session_id, SecretKeyRing, SessionSecurityConfig,
  hash_refresh_token_with_active_key, versioned_refresh_token_matches, initial_absolute_expiry,
  get_initial_session_expiry, is_session_active,
}
use ufsc_dso2_trabalho1_merc.SessionService.Steps.{
  Env, AccessClaims, SessionSummary, to_session_summary, Credentials, Rotation, rotated,
  committed_error, find_token_version, has_version, audit, revoke_invalid_user,
  handle_previous_refresh_token, next_token, rotation_of, rotated_session, credentials,
}

-- `if ('committedError' in result) throw result.committedError`
abbrev pub thrown_after_commit : Rotation → Result Credentials
thrown_after_commit (rotated c) = ok c
thrown_after_commit (committed_error e) = err e

module _ (hmac : RefreshToken → String → String) (ring : SecretKeyRing)
    (config : SessionSecurityConfig) (sign : AccessClaims → String) (csrf : Uuid → String) where
  -- The record that `createSessionWithRepository` inserts. `user_agent_label` is what
  -- `getSafeUserAgentLabel` makes of the header.
  abbrev pub new_session : Env → Uuid → String → ℕ → Option String → Date → SessionRow
  new_session env user_id tenant_id token_version user_agent_label now = record {
    id = env.session_id;
    tenant_id = tenant_id;
    user_id = user_id;
    family_id = env.family_id;
    token_version = token_version;
    refresh_token_hash =
        hash_refresh_token_with_active_key hmac ring (token env.session_id env.secret);
    refresh_token_secret_version = some ring.active_version;
    previous_refresh_token_hash = none;
    previous_refresh_token_secret_version = none;
    rotation_counter = 0;
    rotated_at = none;
    last_used_at = now;
    absolute_expires_at = initial_absolute_expiry config now;
    expires_at = get_initial_session_expiry config now;
    revoked_at = none;
    revoke_reason = none;
    user_agent_label = user_agent_label;
    created_at = now;
    updated_at = now;
  }

  -- `createSessionWithRepository`
  unfoldable pub create_session_in_transaction :
      Env → Uuid → String → ℕ → Option String → Date → Action Db Credentials
  create_session_in_transaction env user_id tenant_id token_version user_agent_label now = do
    session ← writes (create (new_session env user_id tenant_id token_version user_agent_label now))
    audit env tenant_id session_created user_id env.session_id now
    pure (credentials sign csrf (token env.session_id env.secret) session token_version)

  -- `createSession`
  unfoldable pub create_session :
      Transactions Db → Env → Uuid → String → ℕ → Option String → Date → Action Db Credentials
  create_session tx env user_id tenant_id token_version user_agent_label now =
      tx.transaction
        (create_session_in_transaction env user_id tenant_id token_version user_agent_label now)

  -- A rotation that another one has overtaken.
  unfoldable pub overtaken : Env → Uuid → RefreshToken → String → Date → Action Db Rotation
  overtaken env session_id refresh_token tenant_id now = do
    found ← gets (find_refresh_by_id tenant_id session_id)
    session ← lift (or_throw found (app_error 401 invalid_refresh_token))
    handle_previous_refresh_token hmac ring config env session refresh_token now

  -- A rotation that has written.
  unfoldable pub finish_rotation : Env → SessionRow → String → Date → Action Db Rotation
  finish_rotation env session tenant_id now = do
    audit env tenant_id
        (session_rotated
          (rotated_session hmac ring config env tenant_id session now).rotation_counter)
        session.user_id session.id now
    pure (
        rotated (
          credentials sign csrf (next_token hmac ring config env session)
            (rotated_session hmac ring config env tenant_id session now) session.token_version))

  -- What follows `rotateCurrent`, by whether it has updated the session.
  unfoldable pub after_rotation :
      Env → SessionRow → RefreshToken → String → Date → Bool → Action Db Rotation
  after_rotation env session refresh_token tenant_id now true =
      finish_rotation env session tenant_id now
  after_rotation env session refresh_token tenant_id now false =
      overtaken env session.id refresh_token tenant_id now

  unfoldable pub rotate_current_token :
      Env → SessionRow → RefreshToken → String → Date → Action Db Rotation
  rotate_current_token env session refresh_token tenant_id now = do
    did_rotate ← writes (rotate_current (rotation_of hmac ring config env tenant_id session now))
    after_rotation env session refresh_token tenant_id now did_rotate

  -- An active session, by whether its user has its token version and whether the token is current.
  unfoldable pub rotate_active :
      Env → SessionRow → RefreshToken → String → Date → Bool → Bool → Action Db Rotation
  rotate_active env session refresh_token tenant_id now false matches =
      revoke_invalid_user env tenant_id session now
  rotate_active env session refresh_token tenant_id now true false =
      handle_previous_refresh_token hmac ring config env session refresh_token now
  rotate_active env session refresh_token tenant_id now true true =
      rotate_current_token env session refresh_token tenant_id now

  -- The checks of a session that was found.
  unfoldable pub rotate_found : Env → SessionRow → RefreshToken → String → Date → Action Db Rotation
  rotate_found env session refresh_token tenant_id now = do
    lift (throw_if (not (is_session_active session now)) (app_error 401 session_expired))
    version ← gets (find_token_version tenant_id session.user_id)
    rotate_active env session refresh_token tenant_id now
        (has_version session.token_version version)
        (versioned_refresh_token_matches hmac ring refresh_token session.refresh_token_hash
          session.refresh_token_secret_version)

  -- `rotateSessionWithRepository`
  unfoldable pub rotate_session_in_transaction :
      Env → RefreshToken → String → Date → Action Db Rotation
  rotate_session_in_transaction env refresh_token tenant_id now = do
    session_id ← lift (
        or_throw (get_refresh_token_session_id refresh_token) (app_error 401 invalid_refresh_token))
    found ← gets (find_refresh_by_id tenant_id session_id)
    session ← lift (or_throw found (app_error 401 invalid_refresh_token))
    rotate_found env session refresh_token tenant_id now

  -- `rotateSession`
  unfoldable pub rotate_session :
      Transactions Db → Env → RefreshToken → String → Date → Action Db Credentials
  rotate_session tx env refresh_token tenant_id now = do
    result ← tx.transaction (rotate_session_in_transaction env refresh_token tenant_id now)
    lift (thrown_after_commit result)

-- `getSession`
unfoldable pub get_session : Uuid → Uuid → String → Date → Db → Result SessionSummary
get_session session_id user_id tenant_id now db =
    summary_if_active (find_owned tenant_id user_id session_id db) now
  where
    summary_if_active : Option SessionRow → Date → Result SessionSummary
    summary_if_active none at = err (app_error 401 invalid_auth_token)
    summary_if_active (some session) at =
        if is_session_active session at
        then ok (to_session_summary session)
        else err (app_error 401 invalid_auth_token)

-- `revokeSession`
unfoldable pub revoke_session :
    Transactions Db → Env → Uuid → Uuid → String → String → Date → Action Db (Unit {0})
revoke_session tx env session_id user_id tenant_id reason now = tx.transaction (do
  revoked ← writes (revoke_owned tenant_id user_id session_id reason now)
  lift (throw_if (not revoked) (app_error 404 session_not_found))
  audit env tenant_id (session_revoked reason) user_id session_id now)

-- `revokeAllSessions`
unfoldable pub revoke_all_sessions :
    Transactions Db → Env → Uuid → String → Date → Action Db (Unit {0})
revoke_all_sessions tx env user_id tenant_id now = tx.transaction (do
  modify (revoke_all tenant_id user_id "all_sessions_logout" now)
  audit env tenant_id (user_sessions_revoked "all_sessions_logout") user_id user_id now)
