-- ===== src/SessionService/Expired.antt =====
-- Rotations of sessions that are not active.
use ufsc_dso2_trabalho1_merc.Prelude.{
  String, true, false, some, ◌≡◌, refl, ◌∙◌, ap, arith, is_some, if◌then◌else◌, Bool-cases, inl,
  inr,
}
use ufsc_dso2_trabalho1_merc.Sql.{select_one}
use ufsc_dso2_trabalho1_merc.Sql.Laws.{map_row, select_one-update, select_one_holds}
use ufsc_dso2_trabalho1_merc.Result.{
  ok, err, app_error, or_throw, invalid_refresh_token, session_expired,
}
use ufsc_dso2_trabalho1_merc.Action.{lift, Transactions}
use ufsc_dso2_trabalho1_merc.Action.Laws.{>>=_continues, >>=_stops}
use ufsc_dso2_trabalho1_merc.Database.{Uuid, Date, user_sessions_revoked, Db}
use ufsc_dso2_trabalho1_merc.Database.Accounts.{SessionRow}
use ufsc_dso2_trabalho1_merc.Events.{append_many}
use ufsc_dso2_trabalho1_merc.Sessions.{
  is_session, find_refresh_by_id, map_session_found, revoke_all, can_revoke, revoked_row,
}
use ufsc_dso2_trabalho1_merc.Sessions.Security.{
  RefreshToken, token, SecretKeyRing, SessionSecurityConfig, is_session_active,
  versioned_refresh_token_matches,
}
use ufsc_dso2_trabalho1_merc.SessionService.Steps.{
  Env, AccessClaims, find_token_version, has_version, audit,
}
use ufsc_dso2_trabalho1_merc.SessionService.Service.{
  rotate_active, rotate_found, rotate_session_in_transaction, rotate_session, thrown_after_commit,
  revoke_all_sessions,
}
use ufsc_dso2_trabalho1_merc.SessionService.Later.{HasSuccessor}
use ufsc_dso2_trabalho1_merc.SessionService.Calls.{Calls, Calls-HasSuccessor}

module _ (hmac : RefreshToken → String → String) (ring : SecretKeyRing)
    (config : SessionSecurityConfig) (sign : AccessClaims → String) (csrf : Uuid → String)
    (env : Env) (id : Uuid) (secret tenant_id : String) (now : Date) where
  -- A session that is found is rotated, or not, by what it is.
  pub rotation_found :
      (db : Db) {session : SessionRow}
      → find_refresh_by_id tenant_id id db ≡ some session
      → rotate_session_in_transaction hmac ring config sign csrf env
          (token id secret)
          tenant_id
          now
          db
        ≡ rotate_found hmac ring config sign csrf env session (token id secret) tenant_id now db
  unfolding rotate_session_in_transaction
  rotation_found db found =
      >>=_continues
        (lift (or_throw (find_refresh_by_id tenant_id id db) (app_error 401 invalid_refresh_token)))
        (λ session.
          rotate_found hmac ring config sign csrf env session (token id secret) tenant_id now)
        (ap (λ o. (or_throw o (app_error 401 invalid_refresh_token), db)) found)

  pub found_inactive :
      (session : SessionRow) (db : Db)
      → is_session_active session now ≡ false
      → rotate_found hmac ring config sign csrf env session (token id secret) tenant_id now db
        ≡ (err (app_error 401 session_expired), db)
  unfolding rotate_found
  found_inactive session db inactive = rw inactive refl

  pub found_active :
      (session : SessionRow) (db : Db)
      → is_session_active session now ≡ true
      → rotate_found hmac ring config sign csrf env session (token id secret) tenant_id now db
        ≡ rotate_active hmac ring config sign csrf env session
            (token id secret)
            tenant_id
            now
            (has_version session.token_version (find_token_version tenant_id session.user_id db))
            (versioned_refresh_token_matches hmac ring
              (token id secret)
              session.refresh_token_hash
              session.refresh_token_secret_version)
            db
  unfolding rotate_found
  found_active session db active = rw active refl

  pub rotate_session_inactive :
      (tx : Transactions Db) (db : Db) {session : SessionRow}
      → find_refresh_by_id tenant_id id db ≡ some session
      → is_session_active session now ≡ false
      → rotate_session hmac ring config sign csrf tx env (token id secret) tenant_id now db
        ≡ (err (app_error 401 session_expired), db)
  unfolding rotate_session
  rotate_session_inactive tx db {session} found inactive =
      let work =
        rotate_session_in_transaction hmac ring config sign csrf env (token id secret) tenant_id
          now in
      >>=_stops (tx.transaction work) (λ r. lift (thrown_after_commit r))
        (tx.rolls_back work db db (app_error 401 session_expired)
          (rotation_found db found ∙ found_inactive session db inactive))

  -- A session that was revoked is never rotated again: whatever calls of createSession,
  -- rotateSession, revokeSession and revokeAllSessions are made in between, a rotation by any token
  -- of it is refused and changes nothing.
  pub rotate_session_revoked :
      (tx : Transactions Db) {row : SessionRow} {db db' : Db}
      → select_one (is_session tenant_id id) db.sessions ≡ some row
      → is_some row.revoked_at ≡ true
      → Calls hmac ring config sign csrf tx db db'
      → rotate_session hmac ring config sign csrf tx env (token id secret) tenant_id now db'
        ≡ (err (app_error 401 session_expired), db')
  unfolding HasSuccessor find_refresh_by_id
  rotate_session_revoked tx {row} {db} {db'} found revoked calls =
      let (later, there, is_later) =
        Calls-HasSuccessor hmac ring config sign csrf tx tenant_id id row found calls in
      rotate_session_inactive tx db' (ap map_session_found there)
        (rw (is_later.revoked revoked) refl)

was_revoked :
    (tenant_id : String) (user_id : Uuid) (row : SessionRow)
    → is_some row.revoked_at ≡ true
    → can_revoke tenant_id user_id row ≡ false
was_revoked tenant_id user_id row was = ground arith

is_revoked :
    (tenant_id : String) (id user_id : Uuid) (row : SessionRow)
    → is_session tenant_id id row ≡ true
    → row.user_id ≡ user_id
    → is_some row.revoked_at ≡ false
    → can_revoke tenant_id user_id row ≡ true
is_revoked tenant_id id user_id row here users was_not = ground arith

revoked_by_all :
    (tenant_id : String) (id user_id : Uuid) (now : Date) (row : SessionRow) (db : Db)
    → select_one (is_session tenant_id id) db.sessions ≡ some row
    → row.user_id ≡ user_id
    → (later : SessionRow) × (select_one
          (is_session tenant_id id)
          (revoke_all tenant_id user_id "all_sessions_logout" now db).sessions
        ≡ some later)
      × (is_some later.revoked_at ≡ true)
unfolding revoke_all
revoked_by_all tenant_id id user_id now row db found users =
    let f = revoked_row "all_sessions_logout" now in
    let q = can_revoke tenant_id user_id in
    let after =
      select_one-update (is_session tenant_id id) q f db.sessions (λ a. refl)
      ∙ ap (map_row (λ a. if q a then f a else a)) found in
    elim (Bool-cases (is_some row.revoked_at)) [
      | inl was ↦ (row, after ∙ rw (was_revoked tenant_id user_id row was) refl, was)
      | inr was_not ↦ (
        f row,
        after
            ∙ rw
                (is_revoked tenant_id id user_id row
                  (select_one_holds (is_session tenant_id id) db.sessions found) users was_not)
                refl,
        refl,
      )
    ]

-- `revokeAllSessions` returns, and ends the user's sessions for good: whatever calls of
-- createSession, rotateSession, revokeSession and revokeAllSessions are made after it, a rotation
-- by any token of a session of the user is refused and changes nothing.
pub revoke_all_sessions_final :
    (hmac : RefreshToken → String → String) (ring : SecretKeyRing) (config : SessionSecurityConfig)
    (sign : AccessClaims → String) (csrf : Uuid → String) (tx : Transactions Db) (env env' : Env)
    (id user_id : Uuid) (secret tenant_id : String) (now now' : Date) {row : SessionRow} (db : Db)
    {db' : Db}
    → select_one (is_session tenant_id id) db.sessions ≡ some row
    → row.user_id ≡ user_id
    → Calls hmac ring config sign csrf tx
        (revoke_all_sessions tx env user_id tenant_id now db).1
        db'
    → ((revoke_all_sessions tx env user_id tenant_id now db).0 ≡ ok tt)
      × (rotate_session hmac ring config sign csrf tx env' (token id secret) tenant_id now' db'
          ≡ (err (app_error 401 session_expired), db'))
unfolding revoke_all_sessions append_many
revoke_all_sessions_final hmac ring config sign csrf tx env env' id user_id secret tenant_id now
      now' {row} db found users calls =
    let committed =
      tx.commits
        (λ d.
          audit env tenant_id (user_sessions_revoked "all_sessions_logout") user_id user_id now
            (revoke_all tenant_id user_id "all_sessions_logout" now d))
        db _ tt refl in
    let (later, there, revoked) = revoked_by_all tenant_id id user_id now row db found users in
    (
      ap (λ x. x.0) committed,
      rotate_session_revoked hmac ring config sign csrf env' id secret tenant_id now' tx
          (ap (λ x. select_one (is_session tenant_id id) x.1.sessions) committed ∙ there) revoked
          calls,
    )
