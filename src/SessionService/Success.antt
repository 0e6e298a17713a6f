-- ===== src/SessionService/Success.antt =====
-- Rotations by the current token, and what is left of that token.
use ufsc_dso2_trabalho1_merc.Prelude.{
  String, true, some, ◌≡◌, refl, ◌∙◌, ap, arith, if◌then◌else◌, str_eq_refl, length,
}
use ufsc_dso2_trabalho1_merc.Sql.{select, select_one, update}
use ufsc_dso2_trabalho1_merc.Sql.Laws.{
  map_row, select_one-update, select_one_holds, length-select_narrower,
}
use ufsc_dso2_trabalho1_merc.Result.{ok}
use ufsc_dso2_trabalho1_merc.Action.{lift, Transactions}
use ufsc_dso2_trabalho1_merc.Action.Laws.{>>=_continues}
use ufsc_dso2_trabalho1_merc.Database.{Uuid, Date, Db}
use ufsc_dso2_trabalho1_merc.Database.Accounts.{SessionRow}
use ufsc_dso2_trabalho1_merc.Events.{append_many}
use ufsc_dso2_trabalho1_merc.Sessions.{
  is_session, find_refresh_by_id, map_session, map_session_found, rotated_row, rotate_current,
  can_rotate, RotateSessionRecord,
}
use ufsc_dso2_trabalho1_merc.Sessions.Security.{
  RefreshToken, token, SecretKeyRing, SessionSecurityConfig, is_session_active,
  versioned_refresh_token_matches,
}
use ufsc_dso2_trabalho1_merc.SessionService.Steps.{
  Env, AccessClaims, Credentials, rotated, find_token_version, has_version, credentials, next_token,
  rotation_of, rotated_session,
}
use ufsc_dso2_trabalho1_merc.SessionService.Service.{
  finish_rotation, after_rotation, rotate_current_token, rotate_active,
  rotate_session_in_transaction, rotate_session, thrown_after_commit,
}
use ufsc_dso2_trabalho1_merc.SessionService.Expired.{rotation_found, found_active}

module _ (hmac : RefreshToken → String → String) (ring : SecretKeyRing)
    (config : SessionSecurityConfig) (id : Uuid) (secret tenant_id : String) (now : Date)
    (db : Db) where
  -- The token is the current one of an active session, the only one of its id, of a user who still
  -- has the session's token version.
  pub record IsCurrent (row : SessionRow) : Type 0 where
    pub found : select_one (is_session tenant_id id) db.sessions ≡ some row
    pub only : length (select (is_session tenant_id id) db.sessions) ≡ 1
    pub active : is_session_active row now ≡ true
    pub of_user : has_version row.token_version (find_token_version tenant_id row.user_id db) ≡ true
    pub current :
        versioned_refresh_token_matches hmac ring
          (token id secret)
          row.refresh_token_hash
          (map_session row).refresh_token_secret_version
        ≡ true

module _ (hmac : RefreshToken → String → String) (ring : SecretKeyRing)
    (config : SessionSecurityConfig) (id : Uuid) (secret tenant_id : String) (now : Date) (db : Db)
    (sign : AccessClaims → String) (csrf : Uuid → String) (env : Env) {row : SessionRow}
    (is_current : IsCurrent hmac ring config id secret tenant_id now db row) where
  abbrev input : RotateSessionRecord
  input = rotation_of hmac ring config env tenant_id (map_session row) now

  -- The database after the rotation.
  abbrev after_success : Db
  after_success =
      (finish_rotation hmac ring config sign csrf env (map_session row) tenant_id now
        (rotate_current input db).1).1

  new_credentials : Credentials
  new_credentials =
      credentials sign csrf (next_token hmac ring config env (map_session row))
        (rotated_session hmac ring config env tenant_id (map_session row) now) row.token_version

  narrows :
      (a : SessionRow)
      → is_session tenant_id id row ≡ true
      → can_rotate input a ≡ true
      → is_session tenant_id id a ≡ true
  narrows a it can = ground arith

  can_be :
      is_session tenant_id id row ≡ true
      → is_session_active row now ≡ true
      → can_rotate input row ≡ true
  can_be it live = ground (arith, str_eq_refl row.refresh_token_hash)

  one_can : length (select (can_rotate input) db.sessions) ≡ 1
  one_can =
      length-select_narrower (is_session tenant_id id) (can_rotate input)
        (λ a it.
          narrows a (select_one_holds (is_session tenant_id id) db.sessions is_current.found) it)
        db.sessions is_current.found
        (can_be (select_one_holds (is_session tenant_id id) db.sessions is_current.found)
          is_current.active)
        is_current.only

  current_works :
      rotate_session_in_transaction hmac ring config sign csrf env
        (token id secret)
        tenant_id
        now
        db
      ≡ (ok (rotated new_credentials), after_success)
  unfolding rotate_active rotate_current_token find_refresh_by_id rotate_current finish_rotation
      after_rotation new_credentials
  current_works =
      rotation_found hmac ring config sign csrf env id secret tenant_id now db
        (ap map_session_found is_current.found)
      ∙ found_active hmac ring config sign csrf env id secret tenant_id now (map_session row) db
          is_current.active
      ∙ rw (is_current.of_user, is_current.current, one_can) refl

  sessions_after :
      after_success.sessions ≡ update (can_rotate input) (rotated_row input) db.sessions
  unfolding finish_rotation rotate_current append_many
  sessions_after = refl

  -- The current token of an active session is exchanged for a new one: the call returns the new
  -- credentials, the session is rotated, and no user is changed.
  pub rotate_session_succeeds :
      (tx : Transactions Db)
      → (after : Db) × (rotate_session hmac ring config sign csrf tx env
            (token id secret)
            tenant_id
            now
            db
          ≡ (
            ok (
                credentials sign csrf
                  (next_token hmac ring config env (map_session row))
                  (rotated_session hmac ring config env tenant_id (map_session row) now)
                  row.token_version),
            after,
          ))
        × (select_one (is_session tenant_id id) after.sessions
            ≡ some (
                rotated_row (rotation_of hmac ring config env tenant_id (map_session row) now) row))
        × (after.users ≡ db.users)
  unfolding rotate_session finish_rotation rotate_current append_many new_credentials
  rotate_session_succeeds tx =
      let work =
        rotate_session_in_transaction hmac ring config sign csrf env (token id secret) tenant_id
          now in
      (
        after_success,
        >>=_continues (tx.transaction work) (λ r. lift (thrown_after_commit r))
            (tx.commits work db after_success (rotated new_credentials) current_works),
        select_one-update (is_session tenant_id id) (can_rotate input) (rotated_row input)
              db.sessions (λ a. refl)
            ∙ ap (map_row (λ a. if can_rotate input a then rotated_row input a else a))
                is_current.found
            ∙ rw
                (can_be (select_one_holds (is_session tenant_id id) db.sessions is_current.found)
                  is_current.active)
                refl,
        refl,
      )
