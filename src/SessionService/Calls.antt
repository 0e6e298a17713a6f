-- ===== src/SessionService/Calls.antt =====
-- Any sequence of calls of the session service that open, rotate and revoke sessions.
use ufsc_dso2_trabalho1_merc.Prelude.{ℕ, String, Option, some, ◌≡◌, refl, not}
use ufsc_dso2_trabalho1_merc.Sql.{select_one}
use ufsc_dso2_trabalho1_merc.Result.{app_error, throw_if, session_not_found}
use ufsc_dso2_trabalho1_merc.Action.{Transactions}
use ufsc_dso2_trabalho1_merc.Action.Laws.{reads-keeps, transaction-holds}
use ufsc_dso2_trabalho1_merc.Database.{Uuid, Date, session_revoked, Db}
use ufsc_dso2_trabalho1_merc.Database.Accounts.{SessionRow}
use ufsc_dso2_trabalho1_merc.Sessions.{
  is_session, revoked_row, can_revoke, can_revoke_owned, revoke_owned, revoke_all, create,
}
use ufsc_dso2_trabalho1_merc.Sessions.Security.{RefreshToken, SecretKeyRing, SessionSecurityConfig}
use ufsc_dso2_trabalho1_merc.SessionService.Steps.{Env, AccessClaims, audit}
use ufsc_dso2_trabalho1_merc.SessionService.Service.{
  create_session_in_transaction, create_session, rotate_session, revoke_session,
  revoke_all_sessions,
}
use ufsc_dso2_trabalho1_merc.SessionService.Updates.{audited-HasSuccessor}
use ufsc_dso2_trabalho1_merc.SessionService.Rotating.{rotate_session-HasSuccessor}
use ufsc_dso2_trabalho1_merc.SessionService.Later.{
  IsLater-revoked, HasSuccessor, start-HasSuccessor, insert-HasSuccessor, update-HasSuccessor,
}

module _ (hmac : RefreshToken → String → String) (ring : SecretKeyRing)
    (config : SessionSecurityConfig) (sign : AccessClaims → String) (csrf : Uuid → String)
    (tx : Transactions Db) where
  -- One call, whether it returns or throws.
  pub data Call (db : Db) : Db → Type 0 where
    opening :
        (env : Env) (user_id : Uuid) (tenant_id : String) (token_version : ℕ)
        (user_agent_label : Option String) (now : Date)
        → Call db
            (create_session hmac ring config sign csrf tx env user_id tenant_id token_version
              user_agent_label now db).1
    rotation :
        (env : Env) (refresh_token : RefreshToken) (tenant_id : String) (now : Date)
        → Call db
            (rotate_session hmac ring config sign csrf tx env refresh_token tenant_id now db).1
    revocation :
        (env : Env) (session_id user_id : Uuid) (tenant_id reason : String) (now : Date)
        → Call db (revoke_session tx env session_id user_id tenant_id reason now db).1
    revocation_of_all :
        (env : Env) (user_id : Uuid) (tenant_id : String) (now : Date)
        → Call db (revoke_all_sessions tx env user_id tenant_id now db).1

  -- Any calls, one after another.
  pub data Calls (db : Db) : Db → Type 0 where
    idle : Calls db db
    followed_by : {mid end : Db} → Calls db mid → Call mid end → Calls db end

  module _ (t : String) (id : Uuid) (row : SessionRow) where
    Call-HasSuccessor :
        {db db' : Db} → HasSuccessor t id row db → Call db db' → HasSuccessor t id row db'
    unfolding create_session create_session_in_transaction create revoke_session revoke_owned
        revoke_all_sessions revoke_all
    Call-HasSuccessor {db} later
          (opening env user_id tenant_id token_version user_agent_label now) =
        transaction-holds tx _ (HasSuccessor t id row) later
          (audited-HasSuccessor t id row env.audit_id _ _ (insert-HasSuccessor t id row db _ later))
    Call-HasSuccessor {db} later (rotation env refresh_token tenant_id now) =
        rotate_session-HasSuccessor t id row hmac ring config sign csrf env refresh_token tenant_id
          now tx db later
    Call-HasSuccessor {db} later (revocation env session_id user_id tenant_id reason now) =
        let q = can_revoke_owned tenant_id user_id session_id in
        let after : HasSuccessor t id row
            (revoke_owned tenant_id user_id session_id reason now db).1 =
          update-HasSuccessor t id row q (revoked_row reason now) db (λ a. refl)
            (λ a _ _. IsLater-revoked reason now a) later in
        transaction-holds tx _ (HasSuccessor t id row) later (
          reads-keeps
            (λ _.
              throw_if (not (revoke_owned tenant_id user_id session_id reason now db).0)
                (app_error 404 session_not_found))
            (λ _. audit env tenant_id (session_revoked reason) user_id session_id now)
            (HasSuccessor t id row) after
            (λ _ _. audited-HasSuccessor t id row env.audit_id _ _ after))
    Call-HasSuccessor {db} later (revocation_of_all env user_id tenant_id now) =
        transaction-holds tx _ (HasSuccessor t id row) later (
          audited-HasSuccessor t id row env.audit_id _ _ (
            update-HasSuccessor t id row (can_revoke tenant_id user_id)
              (revoked_row "all_sessions_logout" now) db (λ a. refl)
              (λ a _ _. IsLater-revoked "all_sessions_logout" now a) later))

    -- Whatever calls of createSession, rotateSession, revokeSession and revokeAllSessions are made,
    -- returning or throwing, and no clean-up by deleteExpiredSessions, a session that was there is
    -- there: of the same user, with the same absolute expiry, and bounded by it if it was; rotated
    -- no less often; and if it was revoked it still is, and its token is the same.
    pub Calls-HasSuccessor :
        {db db' : Db}
        → select_one (is_session t id) db.sessions ≡ some row
        → Calls db db'
        → HasSuccessor t id row db'
    Calls-HasSuccessor {db} found idle = start-HasSuccessor t id row db found
    Calls-HasSuccessor found (followed_by before call) =
        Call-HasSuccessor (Calls-HasSuccessor found before) call
