-- ===== src/Idempotency.antt =====
-- backend/src/repositories/postgres/mutationIdempotencyRepository.ts. The table has one row at
-- most for a tenant, actor, operation and key: they are its primary key, and `ON CONFLICT DO
-- NOTHING` inserts exactly if there is none.
pub mod Claims
use ufsc_dso2_trabalho1_merc.Prelude.{
  ℕ, String, Bool, true, false, Option, none, some, List, [], ◌∷◌, ◌++◌, ◌&&◌, ◌==◌, str_eq, length,
  not, if◌then◌else◌,
}
use ufsc_dso2_trabalho1_merc.Sql.{select, select_one, update}
use ufsc_dso2_trabalho1_merc.Result.{Result, ok, err, internal, throw_if}
use ufsc_dso2_trabalho1_merc.Action.{Action}
use ufsc_dso2_trabalho1_merc.Database.{
  Uuid, Date, Operation, product_create, review_upsert, IdempotencyRow, Db,
}

pub record MutationIdempotencyClaim : Type 0 where
  pub tenant_id : String
  pub actor_id : Uuid
  pub operation : Operation
  pub key : Uuid
  pub request_hash : String
  pub now : Date

pub data MutationIdempotencyResult : Type 0 where
  claimed conflict : MutationIdempotencyResult
  replay : (resource_id : Uuid) → MutationIdempotencyResult

abbrev pub same_operation : Operation → Operation → Bool
same_operation product_create product_create = true
same_operation review_upsert review_upsert = true
same_operation _ _ = false

-- `predicate`
abbrev pub is_claim : MutationIdempotencyClaim → IdempotencyRow → Bool
is_claim input row =
    str_eq row.tenant_id input.tenant_id
    && row.actor_id == input.actor_id
    && same_operation row.operation input.operation
    && row.key == input.key

abbrev pub claim_row : MutationIdempotencyClaim → IdempotencyRow
claim_row input = record {
  tenant_id = input.tenant_id;
  actor_id = input.actor_id;
  operation = input.operation;
  key = input.key;
  request_hash = input.request_hash;
  resource_id = none;
  created_at = input.now;
}

abbrev pub replay_of : Option Uuid → Result MutationIdempotencyResult
replay_of none = err internal
replay_of (some resource_id) = ok (replay resource_id)

abbrev pub claim_on :
    MutationIdempotencyClaim → Option IdempotencyRow → Action Db MutationIdempotencyResult
claim_on input none db =
    (ok claimed, record db { idempotency = db.idempotency ++ claim_row input ∷ [] })
claim_on input (some existing) db = (
  if str_eq existing.request_hash input.request_hash
      then replay_of existing.resource_id
      else ok conflict,
  db,
)

unfoldable pub claim : MutationIdempotencyClaim → Action Db MutationIdempotencyResult
claim input db = claim_on input (select_one (is_claim input) db.idempotency) db

abbrev pub is_claim_with_hash : MutationIdempotencyClaim → IdempotencyRow → Bool
is_claim_with_hash input row = is_claim input row && str_eq row.request_hash input.request_hash

abbrev pub completed : Uuid → IdempotencyRow → IdempotencyRow
completed resource_id row = record row { resource_id = some resource_id }

unfoldable pub complete : MutationIdempotencyClaim → Uuid → Action Db (Unit {0})
complete input resource_id db = (
  throw_if (not (length (select (is_claim_with_hash input) db.idempotency) == 1)) internal,
  record db {
    idempotency = update (is_claim_with_hash input) (completed resource_id) db.idempotency;
  },
)
