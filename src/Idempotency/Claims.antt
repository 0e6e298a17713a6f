-- ===== src/Idempotency/Claims.antt =====
-- What a claim that was completed answers later.
use ufsc_dso2_trabalho1_merc.Prelude.{
  true, false, none, some, List, [], ◌∷◌, ◌++◌, ◌≡◌, refl, ◌∙◌, str_eq, ==_refl, str_eq_refl,
}
use ufsc_dso2_trabalho1_merc.Sql.{select_one, update}
use ufsc_dso2_trabalho1_merc.Sql.Laws.{map_row, select_one-update, select_one-append_none}
use ufsc_dso2_trabalho1_merc.Result.{ok}
use ufsc_dso2_trabalho1_merc.Database.{
  Uuid, Operation, product_create, review_upsert, IdempotencyRow, Db,
}
use ufsc_dso2_trabalho1_merc.Idempotency.{
  MutationIdempotencyClaim, same_operation, is_claim, is_claim_with_hash, claim_row, completed,
  claim, claim_on, claimed, conflict, replay_of,
}

same_operation_refl : (o : Operation) → same_operation o o ≡ true
same_operation_refl product_create = refl
same_operation_refl review_upsert = refl

module _ (i : MutationIdempotencyClaim) where
  is_claim-claim_row : is_claim i (claim_row i) ≡ true
  is_claim-claim_row =
      rw
        (
          str_eq_refl i.tenant_id,
          ==_refl i.actor_id,
          same_operation_refl i.operation,
          ==_refl i.key,
        )
        refl

  is_claim_with_hash-claim_row : is_claim_with_hash i (claim_row i) ≡ true
  is_claim_with_hash-claim_row = rw (is_claim-claim_row, str_eq_refl i.request_hash) refl

  -- A key that was claimed and completed is found with the resource.
  pub select_one-completed :
      (rows : List IdempotencyRow) (id : Uuid)
      → select_one (is_claim i) rows ≡ none
      → select_one
          (is_claim i)
          (update (is_claim_with_hash i) (completed id) (rows ++ claim_row i ∷ []))
        ≡ some (completed id (claim_row i))
  select_one-completed rows id unused =
      let found : select_one (is_claim i) (rows ++ claim_row i ∷ []) ≡ some (claim_row i) =
        select_one-append_none (is_claim i) rows (claim_row i ∷ []) unused
        ∙ rw is_claim-claim_row refl in
      rw
        (
          select_one-update (is_claim i) (is_claim_with_hash i) (completed id)
              (rows ++ claim_row i ∷ []) (λ r. refl),
          found,
          map_row,
          is_claim_with_hash-claim_row,
        )
        refl

  -- The three answers of a claim.
  pub claim_unused :
      (db : Db)
      → select_one (is_claim i) db.idempotency ≡ none
      → claim i db ≡ (ok claimed, record db { idempotency = db.idempotency ++ claim_row i ∷ [] })
  unfolding claim
  claim_unused db unused = rw unused refl

  pub claim_used :
      (db : Db) {row : IdempotencyRow}
      → select_one (is_claim i) db.idempotency ≡ some row
      → str_eq row.request_hash i.request_hash ≡ true
      → claim i db ≡ (replay_of row.resource_id, db)
  unfolding claim
  claim_used db used same = rw (used, claim_on, same) refl

  pub claim_other :
      (db : Db) {row : IdempotencyRow}
      → select_one (is_claim i) db.idempotency ≡ some row
      → str_eq row.request_hash i.request_hash ≡ false
      → claim i db ≡ (ok conflict, db)
  unfolding claim
  claim_other db used other = rw (used, claim_on, other) refl
