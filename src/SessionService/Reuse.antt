-- ===== src/SessionService/Reuse.antt =====
-- Rotations of active sessions by earlier tokens.
use ufsc_dso2_trabalho1_merc.Prelude.{
  String, true, false, some, ◌≡◌, refl, ◌∙◌, ap, if◌then◌else◌, ==_refl, str_eq_refl,
}
use ufsc_dso2_trabalho1_merc.Sql.{select_one}
use ufsc_dso2_trabalho1_merc.Sql.Laws.{map_row, select_one-update}
use ufsc_dso2_trabalho1_merc.Result.{
  ok, err, app_error, refresh_token_reused, refresh_already_rotated,
}
use ufsc_dso2_trabalho1_merc.Action.{lift, Transactions}
use ufsc_dso2_trabalho1_merc.Action.Laws.{>>=_continues, >>=_stops}
use ufsc_dso2_trabalho1_merc.Database.{Uuid, Date, Db}
use ufsc_dso2_trabalho1_merc.Database.Accounts.{SessionRow}
use ufsc_dso2_trabalho1_merc.Events.{append_many}
use ufsc_dso2_trabalho1_merc.Sessions.{
  is_session, find_refresh_by_id, map_session, map_session_found, revoke_by_id, revoked_row,
}
use ufsc_dso2_trabalho1_merc.Sessions.Security.{
  RefreshToken, token, SecretKeyRing, SessionSecurityConfig, is_session_active,
  versioned_refresh_token_matches,
}
use ufsc_dso2_trabalho1_merc.SessionService.Steps.{
  Env, AccessClaims, committed_error, find_token_version, has_version, matches_previous,
  is_inside_concurrency_window, handle_previous_refresh_token, revoke_reused_family,
}
use ufsc_dso2_trabalho1_merc.SessionService.Service.{
  rotate_active, rotate_session_in_transaction, rotate_session, thrown_after_commit,
}
use ufsc_dso2_trabalho1_merc.SessionService.Expired.{rotation_found, found_active}

module _ (hmac : RefreshToken → String → String) (ring : SecretKeyRing)
    (config : SessionSecurityConfig) (id : Uuid) (secret tenant_id : String) (now : Date)
    (db : Db) where
  -- The token is the one before the current one of an active session of a user who still has the
  -- session's token version.
  pub record IsEarlier (row : SessionRow) : Type 0 where
    pub found : select_one (is_session tenant_id id) db.sessions ≡ some row
    pub active : is_session_active row now ≡ true
    pub of_user : has_version row.token_version (find_token_version tenant_id row.user_id db) ≡ true
    pub not_current :
        versioned_refresh_token_matches hmac ring
          (token id secret)
          row.refresh_token_hash
          (map_session row).refresh_token_secret_version
        ≡ false
    pub previous : matches_previous hmac ring config (token id secret) (map_session row) ≡ true

  module _ (sign : AccessClaims → String) (csrf : Uuid → String) (env : Env) {row : SessionRow}
      (earlier : IsEarlier row) where
    -- The transaction comes to the branch of earlier tokens.
    to_previous :
        rotate_session_in_transaction hmac ring config sign csrf env
          (token id secret)
          tenant_id
          now
          db
        ≡ handle_previous_refresh_token hmac ring config env
            (map_session row)
            (token id secret)
            now
            db
    unfolding rotate_active find_refresh_by_id
    to_previous =
        rotation_found hmac ring config sign csrf env id secret tenant_id now db
          (ap map_session_found earlier.found)
        ∙ found_active hmac ring config sign csrf env id secret tenant_id now (map_session row) db
            earlier.active
        ∙ rw (earlier.of_user, earlier.not_current) refl

    -- Within the concurrency window an earlier token is refused with 409 and nothing changes.
    pub rotate_session_repeated :
        (tx : Transactions Db)
        → is_inside_concurrency_window config row.rotated_at now ≡ true
        → rotate_session hmac ring config sign csrf tx env (token id secret) tenant_id now db
          ≡ (err (app_error 409 refresh_already_rotated), db)
    unfolding rotate_session handle_previous_refresh_token
    rotate_session_repeated tx inside =
        let work =
          rotate_session_in_transaction hmac ring config sign csrf env (token id secret) tenant_id
            now in
        >>=_stops (tx.transaction work) (λ r. lift (thrown_after_commit r))
          (tx.rolls_back work db db (app_error 409 refresh_already_rotated)
            (to_previous ∙ rw (earlier.previous, inside) refl))

    -- After it the error is 401 and the session is revoked: that is committed, although the call
    -- throws.
    pub rotate_session_reused :
        (tx : Transactions Db)
        → is_inside_concurrency_window config row.rotated_at now ≡ false
        → (after : Db) × (rotate_session hmac ring config sign csrf tx env
              (token id secret)
              tenant_id
              now
              db
            ≡ (err (app_error 401 refresh_token_reused), after))
          × (select_one (is_session tenant_id id) after.sessions
              ≡ some (revoked_row "refresh_reuse" now row))
    unfolding rotate_session handle_previous_refresh_token revoke_reused_family revoke_by_id
        append_many
    rotate_session_reused tx outside =
        let work =
          rotate_session_in_transaction hmac ring config sign csrf env (token id secret) tenant_id
            now in
        let after = (revoke_reused_family env (map_session row) now db).1 in
        let revoked : work db ≡ (ok (committed_error (app_error 401 refresh_token_reused)), after) =
          to_previous ∙ rw (earlier.previous, outside) refl in
        let q = is_session row.tenant_id row.id in
        let f = revoked_row "refresh_reuse" now in
        (
          after,
          >>=_continues (tx.transaction work) (λ r. lift (thrown_after_commit r))
              (tx.commits work db after (committed_error (app_error 401 refresh_token_reused))
                revoked),
          select_one-update (is_session tenant_id id) q f db.sessions (λ a. refl)
              ∙ ap (map_row (λ a. if q a then f a else a)) earlier.found
              ∙ rw (str_eq_refl row.tenant_id, ==_refl row.id) refl,
        )
