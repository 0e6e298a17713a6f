-- ===== src/Tests/Sessions.antt =====
-- A session that is opened, rotated and rotated again by its first token.
use ufsc_dso2_trabalho1_merc.Prelude.{◌+◌, arith, String, none, some, [], ◌∷◌, ◌≡◌, refl}
use ufsc_dso2_trabalho1_merc.Sql.{select_one}
use ufsc_dso2_trabalho1_merc.Result.{
  ok, err, app_error, session_expired, refresh_token_reused, refresh_already_rotated,
}
use ufsc_dso2_trabalho1_merc.Database.{Uuid, Db}
use ufsc_dso2_trabalho1_merc.Database.Accounts.{UserRow, SessionRow}
use ufsc_dso2_trabalho1_merc.Events.{append_many}
use ufsc_dso2_trabalho1_merc.Sessions.{
  create, find_refresh_by_id, rotate_current, revoke_by_id, revoke_owned, revoke_all, is_session,
  delete_expired, rotated_row, revoked_row, map_session,
}
use ufsc_dso2_trabalho1_merc.Sessions.Security.{
  RefreshToken, token, malformed, SecretKeyRing, SessionSecurityConfig,
  hash_refresh_token_with_active_key, versioned_refresh_token_matches,
}
use ufsc_dso2_trabalho1_merc.SessionService.Steps.{
  Env, AccessClaims, Credentials, credentials, find_token_version, revoke_reused_family,
  revoke_invalid_user, handle_previous_refresh_token, rotation_of, rotated_session,
}
use ufsc_dso2_trabalho1_merc.SessionService.Service.{
  new_session, create_session_in_transaction, create_session, overtaken, finish_rotation,
  after_rotation, rotate_current_token, rotate_active, rotate_found, rotate_session_in_transaction,
  rotate_session, revoke_session, revoke_all_sessions,
}
use ufsc_dso2_trabalho1_merc.SessionService.Later.{HasSuccessor}
use ufsc_dso2_trabalho1_merc.SessionService.Calls.{
  Calls, rotation, revocation_of_all, idle, followed_by, Calls-HasSuccessor,
}
use ufsc_dso2_trabalho1_merc.SessionService.Expired.{
  rotate_session_revoked, revoke_all_sessions_final,
}
use ufsc_dso2_trabalho1_merc.SessionService.Success.{IsCurrent, rotate_session_succeeds}
use ufsc_dso2_trabalho1_merc.SessionService.Once.{rotate_session_once, rotate_session_overlaps}
use ufsc_dso2_trabalho1_merc.SessionService.CleanUp.{rotate_session-delete_expired}
use ufsc_dso2_trabalho1_merc.Tests.Fixtures.{plain_transactions, tenant, market}

-- What a run of the session service computes with.
unfoldable session_run : Unit {0}
unfolding append_many create find_refresh_by_id rotate_current revoke_by_id revoke_owned revoke_all
    hash_refresh_token_with_active_key versioned_refresh_token_matches find_token_version
    revoke_reused_family revoke_invalid_user handle_previous_refresh_token
    create_session_in_transaction create_session overtaken finish_rotation after_rotation
    rotate_current_token rotate_active rotate_found rotate_session_in_transaction rotate_session
    revoke_session revoke_all_sessions
session_run = tt

abbrev ana : UserRow
ana = record {
  id = 7;
  tenant_id = tenant;
  email = "ana@example.com";
  password_hash = "x";
  token_version = 3;
  email_verified_at = none;
  email_version = 1;
  deactivated_at = none;
  username = some "ana";
  telephone = none;
  created_at = 1;
  updated_at = 1;
}

-- Of a token and a key, the secret part.
abbrev hmac : RefreshToken → String → String
hmac (token id secret) key = secret
hmac (malformed text) key = text

abbrev ring : SecretKeyRing
ring = record {
  active_version = "v1";
  keys = λ v. some "key";
  active_key = "key";
  active_named = refl;
  has_active = refl;
}

abbrev config : SessionSecurityConfig
config = record {
  refresh_idle_ttl_ms = 1000;
  absolute_ttl_ms = 5000;
  refresh_concurrency_window_ms = 10;
}

abbrev sign : AccessClaims → String
sign claims = "signed"

abbrev csrf : Uuid → String
csrf id = "csrf"

abbrev first_env : Env
first_env = record { session_id = 90; family_id = 91; secret = "one"; audit_id = λ i. 9000 + i }

abbrev next_env : Env
next_env = record first_env { secret = "two"; audit_id = λ i. 9100 + i }

abbrev opened : Db
opened =
    (create_session hmac ring config sign csrf plain_transactions first_env 7 tenant 3 none 100
      (record market { users = ana ∷ [] })).1

abbrev row : SessionRow
row = new_session hmac ring config sign csrf first_env 7 tenant 3 none 100

abbrev is_current : IsCurrent hmac ring config 90 "one" tenant 200 opened row
unfolding session_run
is_current = record { found = refl; only = refl; active = refl; of_user = refl; current = refl }

abbrev exchanged : Db
exchanged =
    (rotate_session hmac ring config sign csrf plain_transactions next_env (token 90 "one") tenant
      200 opened).1

abbrev exchanged_row : SessionRow
exchanged_row = rotated_row (rotation_of hmac ring config next_env tenant (map_session row) 200) row

rotate_session_succeeds_example :
    (after : Db) × (rotate_session hmac ring config sign csrf plain_transactions next_env
        (token 90 "one")
        tenant
        200
        opened
      ≡ (
        ok (
            credentials sign csrf
              (token 90 "two")
              (rotated_session hmac ring config next_env tenant (map_session row) 200)
              3),
        after,
      ))
    × (select_one (is_session tenant 90) after.sessions ≡ some exchanged_row)
    × (after.users ≡ ana ∷ [])
unfolding session_run
rotate_session_succeeds_example =
    rotate_session_succeeds hmac ring config 90 "one" tenant 200 opened sign csrf next_env
      is_current plain_transactions

rotate_session_once_example :
    (credentials_ : Credentials) × (after last : Db) × (rotate_session hmac ring config sign csrf
        plain_transactions next_env
        (token 90 "one")
        tenant
        200
        opened
      ≡ (ok credentials_, after))
    × (rotate_session hmac ring config sign csrf plain_transactions first_env
          (token 90 "one")
          tenant
          300
          after
        ≡ (err (app_error 401 refresh_token_reused), last))
    × (select_one (is_session tenant 90) last.sessions
        ≡ some (revoked_row "refresh_reuse" 300 exchanged_row))
unfolding session_run
rotate_session_once_example =
    rotate_session_once hmac ring config 90 "one" tenant 200 opened sign csrf plain_transactions
      next_env is_current first_env 300 refl refl refl refl

rotate_session_overlaps_example :
    (credentials_ : Credentials) × (after : Db) × (rotate_session hmac ring config sign csrf
        plain_transactions next_env
        (token 90 "one")
        tenant
        200
        opened
      ≡ (ok credentials_, after))
    × (rotate_session hmac ring config sign csrf plain_transactions first_env
          (token 90 "one")
          tenant
          210
          after
        ≡ (err (app_error 409 refresh_already_rotated), after))
    × (select_one (is_session tenant 90) after.sessions ≡ some exchanged_row)
unfolding session_run
rotate_session_overlaps_example =
    rotate_session_overlaps hmac ring config 90 "one" tenant 200 opened sign csrf plain_transactions
      next_env is_current first_env 210 refl (omega arith) refl refl

-- A session that was over when the clean-up came, beside the one that is rotated.
abbrev crowded : Db
crowded = record opened { sessions = record row { id = 80; expires_at = 150 } ∷ row ∷ [] }

rotate_session-delete_expired_example :
    (credentials_ : Credentials) × (after after' : Db) × (rotate_session hmac ring config sign csrf
        plain_transactions next_env
        (token 90 "one")
        tenant
        200
        crowded
      ≡ (ok credentials_, after))
    × (rotate_session hmac ring config sign csrf plain_transactions next_env
          (token 90 "one")
          tenant
          200
          (delete_expired 150 crowded).1
        ≡ (ok credentials_, after'))
    × (select_one (is_session tenant 90) after'.sessions ≡ some exchanged_row)
unfolding session_run
rotate_session-delete_expired_example =
    rotate_session-delete_expired hmac ring config 90 "one" tenant 150 200 crowded sign csrf
      next_env (record { found = refl; only = refl; active = refl; of_user = refl; current = refl })
      (omega arith) plain_transactions

abbrev ended : Db
ended = (revoke_all_sessions plain_transactions first_env 7 tenant 210 exchanged).1

abbrev calls : Calls hmac ring config sign csrf plain_transactions opened ended
calls =
    followed_by (followed_by idle (rotation next_env (token 90 "one") tenant 200))
      (revocation_of_all first_env 7 tenant 210)

Calls-HasSuccessor_example : HasSuccessor tenant 90 row ended
unfolding session_run
Calls-HasSuccessor_example =
    Calls-HasSuccessor hmac ring config sign csrf plain_transactions tenant 90 row refl calls

revoke_all_sessions_final_example :
    ((revoke_all_sessions plain_transactions first_env 7 tenant 210 exchanged).0 ≡ ok tt)
    × (rotate_session hmac ring config sign csrf plain_transactions next_env
          (token 90 "two")
          tenant
          220
          ended
        ≡ (err (app_error 401 session_expired), ended))
unfolding session_run
revoke_all_sessions_final_example =
    revoke_all_sessions_final hmac ring config sign csrf plain_transactions first_env next_env 90 7
      "two" tenant 210 220 exchanged refl refl idle

rotate_session_revoked_example :
    rotate_session hmac ring config sign csrf plain_transactions next_env
      (token 90 "two")
      tenant
      230
      ended
    ≡ (err (app_error 401 session_expired), ended)
unfolding session_run
rotate_session_revoked_example =
    rotate_session_revoked hmac ring config sign csrf next_env 90 "two" tenant 230
      plain_transactions refl refl idle
