-- ===== src/SessionService/Later.antt =====
-- What a session becomes: who it is for never changes, it never outlives its absolute expiry, and
-- once it is revoked its token is never replaced.
use ufsc_dso2_trabalho1_merc.Prelude.{
  ◌++◌, ◌≤◌, String, Bool, true, some, List, ◌≡◌, refl, ◌∙◌, ap, arith, is_some, if◌then◌else◌,
  Bool-cases, inl, inr,
}
use ufsc_dso2_trabalho1_merc.Sql.{select_one, update}
use ufsc_dso2_trabalho1_merc.Sql.Laws.{map_row, select_one-update, select_one-append_some}
use ufsc_dso2_trabalho1_merc.Database.{Uuid, Date, Db}
use ufsc_dso2_trabalho1_merc.Database.Accounts.{SessionRow}
use ufsc_dso2_trabalho1_merc.Sessions.{is_session, revoked_row}

pub record IsLater (row later : SessionRow) : Type 0 where
  pub tenant : later.tenant_id ≡ row.tenant_id
  pub user : later.user_id ≡ row.user_id
  pub family : later.family_id ≡ row.family_id
  pub version : later.token_version ≡ row.token_version
  pub absolute : later.absolute_expires_at ≡ row.absolute_expires_at
  pub bounded :
      row.expires_at ≤ row.absolute_expires_at → later.expires_at ≤ later.absolute_expires_at
  pub counted : row.rotation_counter ≤ later.rotation_counter
  pub revoked : is_some row.revoked_at ≡ true → is_some later.revoked_at ≡ true
  pub kept :
      is_some row.revoked_at ≡ true
      → (later.refresh_token_hash ≡ row.refresh_token_hash)
        × (later.rotation_counter ≡ row.rotation_counter)

pub IsLater-refl : (row : SessionRow) → IsLater row row
IsLater-refl row = record {
  tenant = refl;
  user = refl;
  family = refl;
  version = refl;
  absolute = refl;
  bounded = λ h. h;
  counted = omega arith;
  revoked = λ h. h;
  kept = λ h. (refl, refl);
}

pub IsLater-trans : {a b c : SessionRow} → IsLater a b → IsLater b c → IsLater a c
IsLater-trans f g = record {
  tenant = g.tenant ∙ f.tenant;
  user = g.user ∙ f.user;
  family = g.family ∙ f.family;
  version = g.version ∙ f.version;
  absolute = g.absolute ∙ f.absolute;
  bounded = λ h. g.bounded (f.bounded h);
  counted = omega (arith, f.counted, g.counted);
  revoked = λ h. g.revoked (f.revoked h);
  kept = λ h.
      let (hash, count) = f.kept h in
      let (hash', count') = g.kept (f.revoked h) in (hash' ∙ hash, count' ∙ count);
}

pub IsLater-revoked :
    (reason : String) (now : Date) (row : SessionRow) → IsLater row (revoked_row reason now row)
IsLater-revoked reason now row = record {
  tenant = refl;
  user = refl;
  family = refl;
  version = refl;
  absolute = refl;
  bounded = λ h. h;
  counted = omega arith;
  revoked = λ h. refl;
  kept = λ h. (refl, refl);
}

-- The session `id` of the tenant is there, and later than the row.
unfoldable pub HasSuccessor : String → Uuid → SessionRow → Db → Type 0
HasSuccessor t id row db =
    (later : SessionRow) × (select_one (is_session t id) db.sessions ≡ some later)
    × IsLater row later

module _ (t : String) (id : Uuid) (row : SessionRow) where
  pub start-HasSuccessor :
      (db : Db) → select_one (is_session t id) db.sessions ≡ some row → HasSuccessor t id row db
  unfolding HasSuccessor
  start-HasSuccessor db found = (row, found, IsLater-refl row)

  -- An insertion hides no session.
  pub insert-HasSuccessor :
      (db : Db) (rows : List SessionRow)
      → HasSuccessor t id row db
      → HasSuccessor t id row (record db { sessions = db.sessions ++ rows })
  unfolding HasSuccessor
  insert-HasSuccessor db rows (later, found, is_later) =
      (later, select_one-append_some (is_session t id) db.sessions rows found, is_later)

  -- An update that makes the session later, if it changes it.
  pub update-HasSuccessor :
      (q : SessionRow → Bool) (f : SessionRow → SessionRow) (db : Db)
      → ((a : SessionRow) → is_session t id (f a) ≡ is_session t id a)
      → ((a : SessionRow)
          → select_one (is_session t id) db.sessions ≡ some a
          → q a ≡ true
          → IsLater a (f a))
      → HasSuccessor t id row db
      → HasSuccessor t id row (record db { sessions = update q f db.sessions })
  unfolding HasSuccessor
  update-HasSuccessor q f db same later_by (later, found, is_later) =
      let after =
        select_one-update (is_session t id) q f db.sessions same
        ∙ ap (map_row (λ a. if q a then f a else a)) found in
      elim (Bool-cases (q later)) [
        | inl hit_here ↦ (
          f later,
          after ∙ rw hit_here refl,
          IsLater-trans is_later (later_by later found hit_here),
        )
        | inr missed ↦ (later, after ∙ rw missed refl, is_later)
      ]
