-- ===== src/SessionService/Once.antt =====
-- A refresh token that is used a second time.
use ufsc_dso2_trabalho1_merc.Prelude.{
  ℕ, ◌+◌, ◌-◌, ◌≤◌, leb, arith, String, true, false, Option, none, some, ◌≡◌, refl, get_or, str_eq,
  Bool-cases, inl, inr,
}
use ufsc_dso2_trabalho1_merc.Sql.{select_one}
use ufsc_dso2_trabalho1_merc.Result.{
  ok, err, app_error, refresh_token_reused, refresh_already_rotated,
}
use ufsc_dso2_trabalho1_merc.Action.{Transactions}
use ufsc_dso2_trabalho1_merc.Database.{Uuid, Date, Db}
use ufsc_dso2_trabalho1_merc.Database.Accounts.{SessionRow}
use ufsc_dso2_trabalho1_merc.Sessions.{is_session, map_session, revoked_row, rotated_row, truthy}
use ufsc_dso2_trabalho1_merc.Sessions.Security.{
  RefreshToken, token, SecretKeyRing, SessionSecurityConfig, is_session_active,
  versioned_refresh_token_matches, hash_refresh_token_with_active_key,
}
use ufsc_dso2_trabalho1_merc.SessionService.Steps.{
  Env, AccessClaims, Credentials, find_token_version, has_version, is_inside_concurrency_window,
  next_token, rotation_of,
}
use ufsc_dso2_trabalho1_merc.SessionService.Service.{rotate_session}
use ufsc_dso2_trabalho1_merc.SessionService.Reuse.{
  IsEarlier, rotate_session_reused, rotate_session_repeated,
}
use ufsc_dso2_trabalho1_merc.SessionService.Success.{IsCurrent, rotate_session_succeeds}

-- The version of the previous hash is never empty.
truthy_version :
    (v : Option String)
    → truthy (some (get_or (truthy v) "legacy")) ≡ some (get_or (truthy v) "legacy")
truthy_version none = refl
truthy_version (some s) = elim (Bool-cases (str_eq s "")) [
  | inl empty ↦ rw empty refl
  | inr full ↦ rw (full, full) refl
]

still_inside : (now now' window : ℕ) → now' ≤ now + window → leb (now' - now) window ≡ true
still_inside now now' window bound = ground arith

module _ (hmac : RefreshToken → String → String) (ring : SecretKeyRing)
    (config : SessionSecurityConfig) (id : Uuid) (secret tenant_id : String) (now : Date) (db : Db)
    (sign : AccessClaims → String) (csrf : Uuid → String) (tx : Transactions Db) (env : Env)
    {row : SessionRow}
    (is_current : IsCurrent hmac ring config id secret tenant_id now db row) where
  abbrev after_row : SessionRow
  after_row = rotated_row (rotation_of hmac ring config env tenant_id (map_session row) now) row

  same_user :
      (after : Db)
      → after.users ≡ db.users
      → has_version row.token_version (find_token_version tenant_id row.user_id after) ≡ true
  unfolding find_token_version
  same_user after users = rw users is_current.of_user

  now-IsEarlier :
      (after : Db) (now' : Date)
      → select_one (is_session tenant_id id) after.sessions ≡ some after_row
      → after.users ≡ db.users
      → is_session_active after_row now' ≡ true
      → str_eq
          (hmac (token id secret) ring.active_key)
          (hmac (next_token hmac ring config env row) ring.active_key)
        ≡ false
      → str_eq row.refresh_token_hash "" ≡ false
      → IsEarlier hmac ring config id secret tenant_id now' after after_row
  unfolding versioned_refresh_token_matches hash_refresh_token_with_active_key
  now-IsEarlier after now' found users active apart full = record {
    found = found;
    active = active;
    of_user = same_user after users;
    not_current = rw (ring.active_named, ring.has_active) apart;
    previous = rw (full, truthy_version row.refresh_token_secret_version) is_current.current;
  }

  -- A refresh token works once: after it was exchanged, a call with it, when the concurrency window
  -- has passed and the session is still active, is refused with 401 and leaves the session revoked,
  -- where the two tokens have different hashes and the hash in the row is not empty.
  pub rotate_session_once :
      (env' : Env) (now' : Date)
      → is_session_active after_row now' ≡ true
      → is_inside_concurrency_window config (some now) now' ≡ false
      → str_eq
          (hmac (token id secret) ring.active_key)
          (hmac (next_token hmac ring config env row) ring.active_key)
        ≡ false
      → str_eq row.refresh_token_hash "" ≡ false
      → (credentials_ : Credentials) × (after last : Db) × (rotate_session hmac ring config sign
            csrf tx env
            (token id secret)
            tenant_id
            now
            db
          ≡ (ok credentials_, after))
        × (rotate_session hmac ring config sign csrf tx env' (token id secret) tenant_id now' after
            ≡ (err (app_error 401 refresh_token_reused), last))
        × (select_one (is_session tenant_id id) last.sessions
            ≡ some (revoked_row "refresh_reuse" now' after_row))
  rotate_session_once env' now' active outside apart full =
      let (after, exchanged, found, users) =
        rotate_session_succeeds hmac ring config id secret tenant_id now db sign csrf env is_current
          tx in
      let earlier = now-IsEarlier after now' found users active apart full in
      let (last, refused, revoked) =
        rotate_session_reused hmac ring config id secret tenant_id now' after sign csrf env' earlier
          tx outside in
      (_, after, last, exchanged, refused, revoked)

  -- Of two calls with the current token of an active session, the only one of its id, of a user with
  -- its token version, the first exchanges it, and the second, no later after it than the concurrency
  -- window and with the session still active, is refused with 409 and changes nothing, where the two
  -- tokens have different hashes and the hash in the row is not empty.
  pub rotate_session_overlaps :
      (env' : Env) (now' : Date)
      → is_session_active after_row now' ≡ true
      → now' ≤ now + config.refresh_concurrency_window_ms
      → str_eq
          (hmac (token id secret) ring.active_key)
          (hmac (next_token hmac ring config env row) ring.active_key)
        ≡ false
      → str_eq row.refresh_token_hash "" ≡ false
      → (credentials_ : Credentials) × (after : Db) × (rotate_session hmac ring config sign csrf tx
            env
            (token id secret)
            tenant_id
            now
            db
          ≡ (ok credentials_, after))
        × (rotate_session hmac ring config sign csrf tx env' (token id secret) tenant_id now' after
            ≡ (err (app_error 409 refresh_already_rotated), after))
        × (select_one (is_session tenant_id id) after.sessions ≡ some after_row)
  rotate_session_overlaps env' now' active in_window apart full =
      let (after, exchanged, found, users) =
        rotate_session_succeeds hmac ring config id secret tenant_id now db sign csrf env is_current
          tx in
      let earlier = now-IsEarlier after now' found users active apart full in
      (
        _,
        after,
        exchanged,
        rotate_session_repeated hmac ring config id secret tenant_id now' after sign csrf env'
            earlier tx (still_inside now now' config.refresh_concurrency_window_ms in_window),
        found,
      )
