-- ===== src/SessionService/CleanUp.antt =====
-- `deleteExpiredSessions` beside rotations.
use ufsc_dso2_trabalho1_merc.Prelude.{
  ◌≤◌, String, Bool, true, false, some, List, [], ◌∷◌, ◌≡◌, refl, arith, length, leb,
}
use ufsc_dso2_trabalho1_merc.Sql.{select, select_one, delete}
use ufsc_dso2_trabalho1_merc.Result.{ok}
use ufsc_dso2_trabalho1_merc.Action.{Transactions}
use ufsc_dso2_trabalho1_merc.Database.{Uuid, Date, Db}
use ufsc_dso2_trabalho1_merc.Database.Accounts.{SessionRow}
use ufsc_dso2_trabalho1_merc.Sessions.{is_session, map_session, rotated_row, delete_expired}
use ufsc_dso2_trabalho1_merc.Sessions.Security.{
  RefreshToken, token, SecretKeyRing, SessionSecurityConfig, is_session_active,
}
use ufsc_dso2_trabalho1_merc.SessionService.Steps.{
  Env, AccessClaims, Credentials, rotation_of, find_token_version,
}
use ufsc_dso2_trabalho1_merc.SessionService.Service.{rotate_session}
use ufsc_dso2_trabalho1_merc.SessionService.Success.{IsCurrent, rotate_session_succeeds}

module _ {ℓ} {A : Type ℓ} (p q : A → Bool) where
  length-delete_zero :
      (xs : List A) → length (select p xs) ≡ 0 → length (select p (delete q xs)) ≡ 0
  length-delete_zero [] h = refl
  length-delete_zero (x ∷ xs) h = ground (arith, length-delete_zero xs)

  -- The first row that a query finds is found after a deletion of others.
  select_one-delete_other :
      (xs : List A) {a : A}
      → select_one p xs ≡ some a
      → q a ≡ false
      → select_one p (delete q xs) ≡ some a
  select_one-delete_other [] found other = cc
  select_one-delete_other (x ∷ xs) {a} found other =
      ground (arith, select_one-delete_other xs {a = a})

  length-delete_other :
      (xs : List A) {a : A}
      → select_one p xs ≡ some a
      → q a ≡ false
      → length (select p xs) ≡ 1
      → length (select p (delete q xs)) ≡ 1
  length-delete_other [] found other one = cc
  length-delete_other (x ∷ xs) {a} found other one =
      ground (arith, length-delete_other xs {a = a}, length-delete_zero xs)

not_expired :
    (row : SessionRow) (cleaned now : Date)
    → is_session_active row now ≡ true
    → cleaned ≤ now
    → leb row.expires_at cleaned ≡ false
not_expired row cleaned now active earlier = ground arith

module _ (hmac : RefreshToken → String → String) (ring : SecretKeyRing)
    (config : SessionSecurityConfig) (id : Uuid) (secret tenant_id : String) (cleaned now : Date)
    (db : Db) (sign : AccessClaims → String) (csrf : Uuid → String) (env : Env) {row : SessionRow}
    (is_current : IsCurrent hmac ring config id secret tenant_id now db row)
    (earlier : cleaned ≤ now) where
  delete_expired-IsCurrent :
      IsCurrent hmac ring config id secret tenant_id now (delete_expired cleaned db).1 row
  unfolding delete_expired find_token_version
  delete_expired-IsCurrent =
      let q = λ (r : SessionRow). leb r.expires_at cleaned in
      let other = not_expired row cleaned now is_current.active earlier in
      record {
        found =
            select_one-delete_other (is_session tenant_id id) q db.sessions is_current.found other;
        only =
            length-delete_other (is_session tenant_id id) q db.sessions is_current.found other
              is_current.only;
        active = is_current.active;
        of_user = is_current.of_user;
        current = is_current.current;
      }

  -- A clean-up of expired sessions, at a time no later than the rotation's, takes nothing from who
  -- holds the current token of an active session, the only one of its id, of a user with its token
  -- version: the rotation returns the credentials that it would have returned without the clean-up,
  -- and the session is rotated.
  pub rotate_session-delete_expired :
      (tx : Transactions Db)
      → (credentials_ : Credentials) × (after after' : Db) × (rotate_session hmac ring config sign
            csrf tx env
            (token id secret)
            tenant_id
            now
            db
          ≡ (ok credentials_, after))
        × (rotate_session hmac ring config sign csrf tx env
              (token id secret)
              tenant_id
              now
              (delete_expired cleaned db).1
            ≡ (ok credentials_, after'))
        × (select_one (is_session tenant_id id) after'.sessions
            ≡ some (
                rotated_row (rotation_of hmac ring config env tenant_id (map_session row) now) row))
  rotate_session-delete_expired tx =
      let (after, exchanged, found, users) =
        rotate_session_succeeds hmac ring config id secret tenant_id now db sign csrf env is_current
          tx in
      let (after', exchanged', found', users') =
        rotate_session_succeeds hmac ring config id secret tenant_id now
          (delete_expired cleaned db).1 sign csrf env delete_expired-IsCurrent tx in
      (_, after, after', exchanged, exchanged', found')
