-- ===== src/Events.antt =====
-- The writes of PostgresAuditEventRepository (backend/src/repositories/postgres/auditEventRepository.ts)
-- and of PostgresNotificationRepository (checkoutRepositories.ts beside it). The ids that
-- `randomUUID()` returns in turn are `new_id 0`, `new_id 1`, ….
use ufsc_dso2_trabalho1_merc.Prelude.{
  ℕ, ◌+◌, String, Bool, false, Option, List, [], ◌∷◌, ◌++◌, ◌&&◌, ◌==◌, not, str_eq, length,
}
use ufsc_dso2_trabalho1_merc.Sql.{select, select_one, update}
use ufsc_dso2_trabalho1_merc.Database.{
  Uuid, Date, Message, NotificationRow, AuditEvent, AuditRow, Db,
}

pub record AppendAuditEvent : Type 0 where
  pub tenant_id : String
  pub event : AuditEvent
  pub actor_id : Option Uuid
  pub resource_id : Uuid
  pub occurred_at : Date

abbrev audit_rows : (ℕ → Uuid) → ℕ → List AppendAuditEvent → List AuditRow
audit_rows new_id i [] = []
audit_rows new_id i (e ∷ events) =
    record {
      id = new_id i;
      tenant_id = e.tenant_id;
      event = e.event;
      actor_id = e.actor_id;
      resource_id = e.resource_id;
      occurred_at = e.occurred_at;
    }
    ∷ audit_rows new_id (i + 1) events

-- With no events nothing is inserted.
unfoldable pub append_many : (ℕ → Uuid) → List AppendAuditEvent → Db → Db
append_many new_id events db = record db {
  audit_events = db.audit_events ++ audit_rows new_id 0 events;
}

pub record CreateNotification : Type 0 where
  pub tenant_id : String
  pub user_id : Uuid
  pub message : Message

abbrev pub notification_rows :
    (ℕ → Uuid) → ℕ → Date → List CreateNotification → List NotificationRow
notification_rows new_id i now [] = []
notification_rows new_id i now (n ∷ ns) =
    record {
      id = new_id i;
      tenant_id = n.tenant_id;
      user_id = n.user_id;
      message = n.message;
      is_read = false;
      created_at = now;
      updated_at = now;
    }
    ∷ notification_rows new_id (i + 1) now ns

unfoldable pub notify_many : (ℕ → Uuid) → Date → List CreateNotification → Db → Db
notify_many new_id now ns db = record db {
  notifications = db.notifications ++ notification_rows new_id 0 now ns;
}

abbrev pub is_notification_of : String → Uuid → NotificationRow → Bool
is_notification_of tenant_id user_id row = str_eq row.tenant_id tenant_id && row.user_id == user_id

unfoldable pub count_unread : String → Uuid → Db → ℕ
count_unread tenant_id user_id db =
    length
      (select (λ row. is_notification_of tenant_id user_id row && not row.is_read) db.notifications)

abbrev is_notification : String → Uuid → Uuid → NotificationRow → Bool
is_notification tenant_id user_id notification_id row =
    is_notification_of tenant_id user_id row && row.id == notification_id

abbrev mark : Bool → Date → NotificationRow → NotificationRow
mark read now row = record row { is_read = read; updated_at = now }

-- `update … returning`: the rows after the update.
unfoldable pub update_read : Date → String → Uuid → Uuid → Bool → Db → Option NotificationRow × Db
update_read now tenant_id user_id notification_id read db =
    let db' = record db {
      notifications =
          update (is_notification tenant_id user_id notification_id) (mark read now)
            db.notifications;
    } in
    (select_one (is_notification tenant_id user_id notification_id) db'.notifications, db')
