-- ===== src/SessionService/Updates.antt =====
-- What the updates of the session table make of a session.
use ufsc_dso2_trabalho1_merc.Prelude.{
  ℕ, ◌≤◌, String, true, false, Option, none, some, List, ◌≡◌, refl, sym, ◌∙◌, ap, arith, ◌&&◌, ◌==◌,
  is_some, str_eq, str_eq_iff,
}
use ufsc_dso2_trabalho1_merc.Sql.{select_one}
use ufsc_dso2_trabalho1_merc.Sql.Laws.{select_one_holds}
use ufsc_dso2_trabalho1_merc.Database.{Uuid, Date, Db}
use ufsc_dso2_trabalho1_merc.Database.Accounts.{SessionRow}
use ufsc_dso2_trabalho1_merc.Events.{AppendAuditEvent, append_many}
use ufsc_dso2_trabalho1_merc.Sessions.{
  is_session, find_refresh_by_id, map_session, map_session_found, revoked_row, rotated_row,
  can_rotate, rotate_current, RotateSessionRecord, revoke_by_id,
}
use ufsc_dso2_trabalho1_merc.Sessions.Security.{
  RefreshToken, SecretKeyRing, SessionSecurityConfig, get_rotated_session_expiry,
}
use ufsc_dso2_trabalho1_merc.SessionService.Steps.{Env, rotation_of}
use ufsc_dso2_trabalho1_merc.SessionService.Later.{
  IsLater, IsLater-revoked, HasSuccessor, update-HasSuccessor,
}

-- A rotation of a session that is not revoked, to an expiry within its absolute expiry.
rotated-IsLater :
    (input : RotateSessionRecord) (a : SessionRow)
    → input.expires_at ≤ a.absolute_expires_at
    → is_some a.revoked_at ≡ false
    → IsLater a (rotated_row input a)
rotated-IsLater input a bound live = record {
  tenant = refl;
  user = refl;
  family = refl;
  version = refl;
  absolute = refl;
  bounded = λ _. bound;
  counted = omega arith;
  revoked = λ h. h;
  kept = λ h. cc (h, live);
}

id_in : Option SessionRow → Uuid
id_in none = 0
id_in (some a) = a.id

same_session :
    (t tenant_id : String) (id session_id : Uuid) (a b : SessionRow)
    → is_session t id a ≡ true
    → (str_eq a.tenant_id tenant_id && a.id == b.id) ≡ true
    → is_session tenant_id session_id b ≡ true
    → (t ≡ tenant_id) × (id ≡ session_id)
same_session t tenant_id id session_id a b one two three =
    ground (arith, str_eq_iff a.tenant_id t, str_eq_iff a.tenant_id tenant_id)

-- The session that a lookup by id gives is the row of that id.
found_row :
    (t tenant_id : String) (id session_id : Uuid) (session a : SessionRow) (db : Db)
    → find_refresh_by_id tenant_id session_id db ≡ some session
    → select_one (is_session t id) db.sessions ≡ some a
    → is_session tenant_id session.id a ≡ true
    → map_session a ≡ session
unfolding find_refresh_by_id id_in
found_row t tenant_id id session_id session a db found here it =
    split (select_one (is_session tenant_id session_id) db.sessions) refl found
  where
    split :
        (o : Option SessionRow)
        → select_one (is_session tenant_id session_id) db.sessions ≡ o
        → map_session_found o ≡ some session
        → map_session a ≡ session
    split none e k = cc
    split (some b) e k =
        let same_id : session.id ≡ b.id = sym (ap id_in k) in
        let (is_t, is_id) =
          same_session t tenant_id id session_id a b
            (select_one_holds (is_session t id) db.sessions here)
            (ap (λ x. str_eq a.tenant_id tenant_id && a.id == x) (sym same_id) ∙ it)
            (select_one_holds (is_session tenant_id session_id) db.sessions e) in
        let there : select_one (is_session t id) db.sessions ≡ some b =
          ap (λ x. select_one (is_session x id) db.sessions) is_t
          ∙ ap (λ x. select_one (is_session tenant_id x) db.sessions) is_id
          ∙ e in
        cc (here, there, k)

live_of :
    (input : RotateSessionRecord) (a : SessionRow)
    → can_rotate input a ≡ true
    → is_some a.revoked_at ≡ false
live_of input a it = ground arith

identified :
    (input : RotateSessionRecord) (a : SessionRow)
    → can_rotate input a ≡ true
    → is_session input.tenant_id input.session_id a ≡ true
identified input a it = ground arith

module _ (t : String) (id : Uuid) (row : SessionRow) where
  -- An audit event changes no session.
  pub audited-HasSuccessor :
      (new_id : ℕ → Uuid) (events : List AppendAuditEvent) (db : Db)
      → HasSuccessor t id row db
      → HasSuccessor t id row (append_many new_id events db)
  unfolding append_many HasSuccessor
  audited-HasSuccessor new_id events db later = later

  pub revoke_by_id-HasSuccessor :
      (tenant_id : String) (session_id : Uuid) (reason : String) (now : Date) (db : Db)
      → HasSuccessor t id row db
      → HasSuccessor t id row (revoke_by_id tenant_id session_id reason now db)
  unfolding revoke_by_id
  revoke_by_id-HasSuccessor tenant_id session_id reason now db later =
      update-HasSuccessor t id row (is_session tenant_id session_id) (revoked_row reason now) db
        (λ a. refl) (λ a _ _. IsLater-revoked reason now a) later

  module _ (hmac : RefreshToken → String → String) (ring : SecretKeyRing)
      (config : SessionSecurityConfig) (env : Env) (tenant_id : String) (now : Date) where
    rotated_bound :
        (session_id : Uuid) (session a : SessionRow) (db : Db)
        → find_refresh_by_id tenant_id session_id db ≡ some session
        → select_one (is_session t id) db.sessions ≡ some a
        → can_rotate (rotation_of hmac ring config env tenant_id session now) a ≡ true
        → get_rotated_session_expiry config session.absolute_expires_at now ≤ a.absolute_expires_at
    rotated_bound session_id session a db found here it =
        let same =
          found_row t tenant_id id session_id session a db found here
            (identified (rotation_of hmac ring config env tenant_id session now) a it) in
        omega (arith, ap (λ x. x.absolute_expires_at) same)

    pub rotate_current-HasSuccessor :
        (session_id : Uuid) (session : SessionRow) (db : Db)
        → find_refresh_by_id tenant_id session_id db ≡ some session
        → HasSuccessor t id row db
        → HasSuccessor t id row
            (rotate_current (rotation_of hmac ring config env tenant_id session now) db).1
    unfolding rotate_current
    rotate_current-HasSuccessor session_id session db found later =
        update-HasSuccessor t id row
          (can_rotate (rotation_of hmac ring config env tenant_id session now))
          (rotated_row (rotation_of hmac ring config env tenant_id session now)) db (λ a. refl)
          (λ a here it.
            rotated-IsLater (rotation_of hmac ring config env tenant_id session now) a
              (rotated_bound session_id session a db found here it)
              (live_of (rotation_of hmac ring config env tenant_id session now) a it))
          later
