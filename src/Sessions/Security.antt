-- ===== src/Sessions/Security.antt =====
-- backend/src/services/sessionSecurityService.ts: refresh tokens, their hashes and the expiry of
-- sessions. The HMAC of node:crypto is a parameter.
use ufsc_dso2_trabalho1_merc.Prelude.{
  ℕ, ◌+◌, String, Bool, false, Option, none, some, ◌≡◌, ◌&&◌, not, is_some, ltb, min, str_eq,
  get_or,
}
use ufsc_dso2_trabalho1_merc.Database.Ids.{Uuid, Date}
use ufsc_dso2_trabalho1_merc.Database.Accounts.{SessionRow}

-- The text of a refresh token, by what `split('.')` and the two patterns see in it:
-- `${sessionId}.${secret}`, or a text of another form.
pub data RefreshToken : Type 0 where
  token : (session_id : Uuid) (secret : String) → RefreshToken
  malformed : (text : String) → RefreshToken

abbrev pub get_refresh_token_session_id : RefreshToken → Option Uuid
get_refresh_token_session_id (token session_id secret) = some session_id
get_refresh_token_session_id (malformed text) = none

-- `SecretKeyRing`; `getVersionedSecretRing` throws unless there is an active version, which is not
-- empty, with a key.
pub record SecretKeyRing : Type 0 where
  pub active_version : String
  pub keys : String → Option String
  pub active_key : String
  pub active_named : str_eq active_version "" ≡ false
  pub has_active : keys active_version ≡ some active_key

-- `SessionSecurityConfig`; the lifetime of access tokens is left to `jsonwebtoken`.
pub record SessionSecurityConfig : Type 0 where
  pub refresh_idle_ttl_ms : ℕ
  pub absolute_ttl_ms : ℕ
  pub refresh_concurrency_window_ms : ℕ

module _ (hmac : RefreshToken → String → String) (ring : SecretKeyRing) where
  -- `hashRefreshTokenWithActiveKey`: the hash, beside `active_version`.
  unfoldable pub hash_refresh_token_with_active_key : RefreshToken → String
  hash_refresh_token_with_active_key refresh_token = hmac refresh_token ring.active_key

  abbrev matches_by : RefreshToken → String → Option String → Bool
  matches_by refresh_token expected_hash none = false
  matches_by refresh_token expected_hash (some secret) =
      str_eq (hmac refresh_token secret) expected_hash

  -- `versionedRefreshTokenMatches`
  unfoldable pub versioned_refresh_token_matches : RefreshToken → String → Option String → Bool
  versioned_refresh_token_matches refresh_token expected_hash version =
      matches_by refresh_token expected_hash (ring.keys (get_or version "legacy"))

-- `getRotatedSessionExpiry`
abbrev pub get_rotated_session_expiry : SessionSecurityConfig → Date → Date → Date
get_rotated_session_expiry config absolute_expires_at now =
    min (now + config.refresh_idle_ttl_ms) absolute_expires_at

-- `getInitialSessionExpiry`
abbrev pub initial_absolute_expiry : SessionSecurityConfig → Date → Date
initial_absolute_expiry config now = now + config.absolute_ttl_ms

abbrev pub get_initial_session_expiry : SessionSecurityConfig → Date → Date
get_initial_session_expiry config now =
    min (now + config.refresh_idle_ttl_ms) (initial_absolute_expiry config now)

-- `isSessionActive`
abbrev pub is_session_active : SessionRow → Date → Bool
is_session_active session now =
    not (is_some session.revoked_at)
    && ltb now session.expires_at
    && ltb now session.absolute_expires_at
