-- ===== src/Sessions.antt =====
-- backend/src/repositories/postgres/sessionRepository.ts. Security is the part of
-- services/sessionSecurityService.ts about refresh tokens and expiry.
pub mod Security
use ufsc_dso2_trabalho1_merc.Prelude.{
  ℕ, ◌+◌, String, Bool, Option, none, some, List, [], ◌∷◌, ◌++◌, ◌&&◌, ◌==◌, not, is_some, leb, ltb,
  str_eq, length, if◌then◌else◌, map,
}
use ufsc_dso2_trabalho1_merc.Sql.{select, select_one, update, delete}
use ufsc_dso2_trabalho1_merc.Database.{Uuid, Date, Db}
use ufsc_dso2_trabalho1_merc.Database.Accounts.{SessionRow}

-- `value ? { field: value } : {}`: an empty text is left out too.
abbrev pub truthy : Option String → Option String
truthy none = none
truthy (some text) = if str_eq text "" then none else some text

-- `mapSession`; a `SessionRecord` has the fields of a row.
abbrev pub map_session : SessionRow → SessionRow
map_session row = record row {
  refresh_token_secret_version = truthy row.refresh_token_secret_version;
  previous_refresh_token_hash = truthy row.previous_refresh_token_hash;
  previous_refresh_token_secret_version = truthy row.previous_refresh_token_secret_version;
  revoke_reason = truthy row.revoke_reason;
  user_agent_label = truthy row.user_agent_label;
}

abbrev pub map_session_found : Option SessionRow → Option SessionRow
map_session_found none = none
map_session_found (some row) = some (map_session row)

-- `create`: the columns of a rotation and of a revocation are left null.
unfoldable pub create : SessionRow → Db → SessionRow × Db
create input db =
    let row = record input {
      previous_refresh_token_hash = none;
      previous_refresh_token_secret_version = none;
      rotated_at = none;
      revoked_at = none;
      revoke_reason = none;
    } in
    (map_session row, record db { sessions = db.sessions ++ row ∷ [] })

abbrev pub is_session : String → Uuid → SessionRow → Bool
is_session tenant_id session_id row = str_eq row.tenant_id tenant_id && row.id == session_id

unfoldable pub find_refresh_by_id : String → Uuid → Db → Option SessionRow
find_refresh_by_id tenant_id session_id db =
    map_session_found (select_one (is_session tenant_id session_id) db.sessions)

-- `isNull(revokedAt)`, `gt(expiresAt, now)` and `gt(absoluteExpiresAt, now)`
abbrev pub is_live : Date → SessionRow → Bool
is_live now row =
    not (is_some row.revoked_at) && ltb now row.expires_at && ltb now row.absolute_expires_at

pub record RotateSessionRecord : Type 0 where
  pub tenant_id : String
  pub session_id : Uuid
  pub expected_refresh_token_hash : String
  pub next_refresh_token_hash : String
  pub next_refresh_token_secret_version : String
  pub previous_refresh_token_secret_version : String
  pub expires_at : Date
  pub now : Date

-- The WHERE clause of `rotateCurrent`.
abbrev pub can_rotate : RotateSessionRecord → SessionRow → Bool
can_rotate input row =
    is_session input.tenant_id input.session_id row
    && str_eq row.refresh_token_hash input.expected_refresh_token_hash
    && is_live input.now row

abbrev pub rotated_row : RotateSessionRecord → SessionRow → SessionRow
rotated_row input row = record row {
  previous_refresh_token_hash = some input.expected_refresh_token_hash;
  previous_refresh_token_secret_version = some input.previous_refresh_token_secret_version;
  refresh_token_hash = input.next_refresh_token_hash;
  refresh_token_secret_version = some input.next_refresh_token_secret_version;
  rotation_counter = row.rotation_counter + 1;
  rotated_at = some input.now;
  last_used_at = input.now;
  expires_at = input.expires_at;
  updated_at = input.now;
}

unfoldable pub rotate_current : RotateSessionRecord → Db → Bool × Db
rotate_current input db = (
  length (select (can_rotate input) db.sessions) == 1,
  record db { sessions = update (can_rotate input) (rotated_row input) db.sessions },
)

abbrev pub revoked_row : String → Date → SessionRow → SessionRow
revoked_row reason now row = record row {
  revoked_at = some now;
  revoke_reason = some reason;
  updated_at = now;
}

unfoldable pub revoke_by_id : String → Uuid → String → Date → Db → Db
revoke_by_id tenant_id session_id reason now db = record db {
  sessions = update (is_session tenant_id session_id) (revoked_row reason now) db.sessions;
}

abbrev pub is_users_session : String → Uuid → SessionRow → Bool
is_users_session tenant_id user_id row = str_eq row.tenant_id tenant_id && row.user_id == user_id

abbrev pub is_owned_session : String → Uuid → Uuid → SessionRow → Bool
is_owned_session tenant_id user_id session_id row =
    is_users_session tenant_id user_id row && row.id == session_id

unfoldable pub find_owned : String → Uuid → Uuid → Db → Option SessionRow
find_owned tenant_id user_id session_id db =
    map_session_found (select_one (is_owned_session tenant_id user_id session_id) db.sessions)

abbrev pub can_revoke_owned : String → Uuid → Uuid → SessionRow → Bool
can_revoke_owned tenant_id user_id session_id row =
    is_owned_session tenant_id user_id session_id row && not (is_some row.revoked_at)

unfoldable pub revoke_owned : String → Uuid → Uuid → String → Date → Db → Bool × Db
revoke_owned tenant_id user_id session_id reason now db = (
  length (select (can_revoke_owned tenant_id user_id session_id) db.sessions) == 1,
  record db {
    sessions =
        update (can_revoke_owned tenant_id user_id session_id) (revoked_row reason now) db.sessions;
  },
)

abbrev pub can_revoke : String → Uuid → SessionRow → Bool
can_revoke tenant_id user_id row =
    is_users_session tenant_id user_id row && not (is_some row.revoked_at)

unfoldable pub revoke_all : String → Uuid → String → Date → Db → Db
revoke_all tenant_id user_id reason now db = record db {
  sessions = update (can_revoke tenant_id user_id) (revoked_row reason now) db.sessions;
}

-- `isActive`, which the authentication of every request asks.
unfoldable pub is_active : String → Uuid → Uuid → ℕ → Date → Db → Bool
is_active tenant_id user_id session_id token_version now db = is_some (
    select_one
      (λ row.
        is_owned_session tenant_id user_id session_id row
        && row.token_version == token_version
        && is_live now row)
      db.sessions)

unfoldable pub delete_expired : Date → Db → ℕ × Db
delete_expired now db = (
  length (select (λ row. leb row.expires_at now) db.sessions),
  record db { sessions = delete (λ row. leb row.expires_at now) db.sessions },
)
