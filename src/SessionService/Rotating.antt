-- ===== src/SessionService/Rotating.antt =====
-- What a rotation makes of any session.
use ufsc_dso2_trabalho1_merc.Prelude.{String, Bool, true, false, some, ◌≡◌, not}
use ufsc_dso2_trabalho1_merc.Result.{
  app_error, or_throw, or_throw-eq-ok, throw_if, invalid_refresh_token, session_expired,
  refresh_already_rotated,
}
use ufsc_dso2_trabalho1_merc.Action.{reads, lift, Transactions, ◌>>=◌, ◌>>◌}
use ufsc_dso2_trabalho1_merc.Action.Laws.{reads-keeps, transaction-holds, lifted-keeps}
use ufsc_dso2_trabalho1_merc.Database.{Uuid, Date, Db}
use ufsc_dso2_trabalho1_merc.Database.Accounts.{SessionRow}
use ufsc_dso2_trabalho1_merc.Sessions.{find_refresh_by_id, rotate_current, revoke_by_id}
use ufsc_dso2_trabalho1_merc.Sessions.Security.{
  RefreshToken, get_refresh_token_session_id, SecretKeyRing, SessionSecurityConfig,
  is_session_active, versioned_refresh_token_matches,
}
use ufsc_dso2_trabalho1_merc.SessionService.Steps.{
  Env, AccessClaims, find_token_version, has_version, revoke_reused_family, revoke_invalid_user,
  matches_previous, is_inside_concurrency_window, handle_previous_refresh_token, rotation_of,
}
use ufsc_dso2_trabalho1_merc.SessionService.Service.{
  overtaken, finish_rotation, after_rotation, rotate_current_token, rotate_active, rotate_found,
  rotate_session_in_transaction, rotate_session, thrown_after_commit,
}
use ufsc_dso2_trabalho1_merc.SessionService.Updates.{
  audited-HasSuccessor, revoke_by_id-HasSuccessor, rotate_current-HasSuccessor,
}
use ufsc_dso2_trabalho1_merc.SessionService.Later.{HasSuccessor}

module _ (t : String) (id : Uuid) (row : SessionRow) where
  reused-HasSuccessor :
      (env : Env) (session : SessionRow) (now : Date) (db : Db)
      → HasSuccessor t id row db
      → HasSuccessor t id row (revoke_reused_family env session now db).1
  unfolding revoke_reused_family
  reused-HasSuccessor env session now db later =
      audited-HasSuccessor t id row env.audit_id _
        (revoke_by_id session.tenant_id session.id "refresh_reuse" now db)
        (revoke_by_id-HasSuccessor t id row session.tenant_id session.id "refresh_reuse" now db
          later)

  invalid_user-HasSuccessor :
      (env : Env) (tenant_id : String) (session : SessionRow) (now : Date) (db : Db)
      → HasSuccessor t id row db
      → HasSuccessor t id row (revoke_invalid_user env tenant_id session now db).1
  unfolding revoke_invalid_user
  invalid_user-HasSuccessor env tenant_id session now db later =
      audited-HasSuccessor t id row env.audit_id _
        (revoke_by_id tenant_id session.id "invalid_user_session" now db)
        (revoke_by_id-HasSuccessor t id row tenant_id session.id "invalid_user_session" now db
          later)

module _ (t : String) (id : Uuid) (row : SessionRow) (hmac : RefreshToken → String → String)
    (ring : SecretKeyRing) (config : SessionSecurityConfig) (env : Env) where
  previous-HasSuccessor :
      (session : SessionRow) (refresh_token : RefreshToken) (now : Date) (db : Db)
      → HasSuccessor t id row db
      → HasSuccessor t id row
          (handle_previous_refresh_token hmac ring config env session refresh_token now db).1
  unfolding handle_previous_refresh_token
  previous-HasSuccessor session refresh_token now db later =
      reads-keeps
        (λ _.
          throw_if (not (matches_previous hmac ring config refresh_token session))
            (app_error 401 invalid_refresh_token))
        (λ _.
          lift (
            throw_if (is_inside_concurrency_window config session.rotated_at now)
              (app_error 409 refresh_already_rotated))
          >> revoke_reused_family env session now)
        (HasSuccessor t id row) later
        (λ _ _.
          reads-keeps
            (λ _.
              throw_if (is_inside_concurrency_window config session.rotated_at now)
                (app_error 409 refresh_already_rotated))
            (λ _. revoke_reused_family env session now) (HasSuccessor t id row) later
            (λ _ _. reused-HasSuccessor t id row env session now db later))

module _ (t : String) (id : Uuid) (row : SessionRow) (hmac : RefreshToken → String → String)
    (ring : SecretKeyRing) (config : SessionSecurityConfig) (sign : AccessClaims → String)
    (csrf : Uuid → String) (env : Env) (refresh_token : RefreshToken) (tenant_id : String)
    (now : Date) where
  overtaken-HasSuccessor :
      (session_id : Uuid) (db : Db)
      → HasSuccessor t id row db
      → HasSuccessor t id row
          (overtaken hmac ring config sign csrf env session_id refresh_token tenant_id now db).1
  unfolding overtaken
  overtaken-HasSuccessor session_id db later =
      reads-keeps
        (λ d.
          or_throw (find_refresh_by_id tenant_id session_id d)
            (app_error 401 invalid_refresh_token))
        (λ session. handle_previous_refresh_token hmac ring config env session refresh_token now)
        (HasSuccessor t id row) later
        (λ session _.
          previous-HasSuccessor t id row hmac ring config env session refresh_token now db later)

  after_rotation-HasSuccessor :
      (session : SessionRow) (did_rotate : Bool) (db : Db)
      → HasSuccessor t id row db
      → HasSuccessor t id row
          (after_rotation hmac ring config sign csrf env session refresh_token tenant_id now
            did_rotate db).1
  unfolding after_rotation finish_rotation
  after_rotation-HasSuccessor session true db later =
      audited-HasSuccessor t id row env.audit_id _ db later
  after_rotation-HasSuccessor session false db later = overtaken-HasSuccessor session.id db later

  active-HasSuccessor :
      (session_id : Uuid) (session : SessionRow) (has matches : Bool) (db : Db)
      → find_refresh_by_id tenant_id session_id db ≡ some session
      → HasSuccessor t id row db
      → HasSuccessor t id row
          (rotate_active hmac ring config sign csrf env session refresh_token tenant_id now has
            matches db).1
  unfolding rotate_active rotate_current_token
  active-HasSuccessor session_id session false matches db found later =
      invalid_user-HasSuccessor t id row env tenant_id session now db later
  active-HasSuccessor session_id session true false db found later =
      previous-HasSuccessor t id row hmac ring config env session refresh_token now db later
  active-HasSuccessor session_id session true true db found later =
      let input = rotation_of hmac ring config env tenant_id session now in
      after_rotation-HasSuccessor session (rotate_current input db).0 (rotate_current input db).1 (
        rotate_current-HasSuccessor t id row hmac ring config env tenant_id now session_id session
          db found later)

  found-HasSuccessor :
      (session_id : Uuid) (session : SessionRow) (db : Db)
      → find_refresh_by_id tenant_id session_id db ≡ some session
      → HasSuccessor t id row db
      → HasSuccessor t id row
          (rotate_found hmac ring config sign csrf env session refresh_token tenant_id now db).1
  unfolding rotate_found
  found-HasSuccessor session_id session db found later =
      reads-keeps
        (λ _. throw_if (not (is_session_active session now)) (app_error 401 session_expired))
        (λ _ d.
          rotate_active hmac ring config sign csrf env session refresh_token tenant_id now
            (has_version session.token_version (find_token_version tenant_id session.user_id d))
            (versioned_refresh_token_matches hmac ring refresh_token session.refresh_token_hash
              session.refresh_token_secret_version)
            d)
        (HasSuccessor t id row) later
        (λ _ _. active-HasSuccessor session_id session _ _ db found later)

  pub rotate_session-HasSuccessor :
      (tx : Transactions Db) (db : Db)
      → HasSuccessor t id row db
      → HasSuccessor t id row
          (rotate_session hmac ring config sign csrf tx env refresh_token tenant_id now db).1
  unfolding rotate_session rotate_session_in_transaction
  rotate_session-HasSuccessor tx db later =
      let work =
        rotate_session_in_transaction hmac ring config sign csrf env refresh_token tenant_id now in
      lifted-keeps (tx.transaction work) thrown_after_commit (HasSuccessor t id row) (
        transaction-holds tx work (HasSuccessor t id row) later (
          reads-keeps
            (λ _.
              or_throw (get_refresh_token_session_id refresh_token)
                (app_error 401 invalid_refresh_token))
            (λ session_id.
              reads (λ d.
                or_throw (find_refresh_by_id tenant_id session_id d)
                  (app_error 401 invalid_refresh_token))
              >>= λ session.
                  rotate_found hmac ring config sign csrf env session refresh_token tenant_id now)
            (HasSuccessor t id row) later
            (λ session_id _.
              reads-keeps
                (λ d.
                  or_throw (find_refresh_by_id tenant_id session_id d)
                    (app_error 401 invalid_refresh_token))
                (λ session.
                  rotate_found hmac ring config sign csrf env session refresh_token tenant_id now)
                (HasSuccessor t id row) later
                (λ session got.
                  found-HasSuccessor session_id session db
                    (or_throw-eq-ok (find_refresh_by_id tenant_id session_id db)
                      (app_error 401 invalid_refresh_token) got)
                    later))))
