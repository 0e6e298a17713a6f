-- ===== src/ProductService/Replays.antt =====
-- What a used key answers to a creation.
use ufsc_dso2_trabalho1_merc.Prelude.{
  String, Option, none, some, [], ◌∷◌, ◌++◌, ◌≡◌, refl, sym, ap, subst, ◌∙◌, inl, inr, Option-cases,
  Bool-cases, true, false, str_eq, str_eq_refl, ==_refl,
}
use ufsc_dso2_trabalho1_merc.Sql.{select_one, exists_row}
use ufsc_dso2_trabalho1_merc.Sql.Laws.{select_one-append_none, select_one-eq-none}
use ufsc_dso2_trabalho1_merc.Result.{ok, err, internal, app_error, or_throw, idempotency_key_reused}
use ufsc_dso2_trabalho1_merc.Action.{Action, lift, reads}
use ufsc_dso2_trabalho1_merc.Action.Laws.{>>=-eq-ok, >>=_continues}
use ufsc_dso2_trabalho1_merc.Database.{Uuid, IdempotencyRow, Db}
use ufsc_dso2_trabalho1_merc.Products.{ProductRecord, map_found, find_by_id, is_product}
use ufsc_dso2_trabalho1_merc.Products.Writing.{new_row}
use ufsc_dso2_trabalho1_merc.Idempotency.{
  is_claim, claim, claim_row, replay, replay_of, completed, MutationIdempotencyClaim,
  MutationIdempotencyResult,
}
use ufsc_dso2_trabalho1_merc.Idempotency.Claims.{
  select_one-completed, claim_unused, claim_used, claim_other,
}
use ufsc_dso2_trabalho1_merc.ProductService.Creating.{IsCreated, create_claimed-IsCreated}
use ufsc_dso2_trabalho1_merc.ProductService.Service.{
  Env, CreateProductData, product_claim, create_claimed, create_record,
  create_product_in_transaction,
}

module _ (to_lower : String → String) (request_hash : CreateProductData → String)
    (tenant_id : String) (seller key : Uuid) where
  abbrev pub attempt : Env → CreateProductData → Action Db ProductRecord
  attempt env body =
      create_product_in_transaction to_lower request_hash env tenant_id seller key body

  abbrev pub its_claim : Env → CreateProductData → MutationIdempotencyClaim
  its_claim env body = product_claim env tenant_id seller key (request_hash body)

  pub after_claim :
      (env : Env) (body : CreateProductData) (db : Db) {t : Db} {a : MutationIdempotencyResult}
      → claim (its_claim env body) db ≡ (ok a, t)
      → attempt env body db ≡ create_claimed to_lower request_hash env tenant_id seller key body a t
  unfolding create_product_in_transaction
  after_claim env body db e =
      >>=_continues (claim (its_claim env body))
        (create_claimed to_lower request_hash env tenant_id seller key body) e

  pub created-replay :
      (env : Env) (body : CreateProductData) (id : Uuid) (db : Db) {p : ProductRecord} {db' : Db}
      → create_claimed to_lower request_hash env tenant_id seller key body (replay id) db
        ≡ (ok p, db')
      → (db' ≡ db) × (find_by_id tenant_id id db ≡ ok (some p))
  unfolding create_claimed
  created-replay env body id db {p} {db'} h =
      let (found, t, e, k) =
        >>=-eq-ok (reads (find_by_id tenant_id id)) (λ r. lift (or_throw r internal)) h in
      replayed_value found (ap (λ x. x.0) e) (ap (λ x. x.1) e) k
    where
      replayed_value :
          (found : Option ProductRecord) {t : Db}
          → find_by_id tenant_id id db ≡ ok found
          → db ≡ t
          → lift (or_throw found internal) t ≡ (ok p, db')
          → (db' ≡ db) × (find_by_id tenant_id id db ≡ ok (some p))
      replayed_value none e same k = cc
      replayed_value (some q) e same k = (cc, cc)

  replay-created :
      (env : Env) (body : CreateProductData) (id : Uuid) (db : Db) {p : ProductRecord}
      → find_by_id tenant_id id db ≡ ok (some p)
      → create_claimed to_lower request_hash env tenant_id seller key body (replay id) db
        ≡ (ok p, db)
  unfolding create_claimed
  replay-created env body id db found =
      >>=_continues (reads (find_by_id tenant_id id)) (λ r. lift (or_throw r internal))
        (ap (λ r. (r, db)) found)

  -- A used key of another request is refused.
  pub its_refusal :
      (env : Env) (body : CreateProductData) (db : Db) {row : IdempotencyRow}
      → select_one (is_claim (its_claim env body)) db.idempotency ≡ some row
      → str_eq row.request_hash (request_hash body) ≡ false
      → attempt env body db ≡ (err (app_error 409 idempotency_key_reused), db)
  unfolding create_claimed
  its_refusal env body db used other =
      after_claim env body db (claim_other (its_claim env body) db used other)

  -- The key stands for a request and for a product that is there.
  pub record Answers (body : CreateProductData) (p : ProductRecord) (db : Db) : Type 0 where
    pub row : IdempotencyRow
    pub used : (e : Env) → select_one (is_claim (its_claim e body)) db.idempotency ≡ some row
    pub same : str_eq row.request_hash (request_hash body) ≡ true
    pub id : Uuid
    pub set : row.resource_id ≡ some id
    pub found : find_by_id tenant_id id db ≡ ok (some p)

  pub Answers-attempt :
      (env : Env) (body : CreateProductData) (p : ProductRecord) (db : Db)
      → Answers body p db
      → attempt env body db ≡ (ok p, db)
  Answers-attempt env body p db a =
      after_claim env body db
        (claim_used (its_claim env body) db (a.used env) a.same ∙ ap (λ r. (replay_of r, db)) a.set)
      ∙ replay-created env body a.id db a.found

  -- A replay has found its answer.
  replayed-Answers :
      (env : Env) (body : CreateProductData) (db : Db) {p : ProductRecord} {db' : Db}
      (row : IdempotencyRow) (set : Option Uuid)
      → row.resource_id ≡ set
      → ((e : Env) → select_one (is_claim (its_claim e body)) db.idempotency ≡ some row)
      → str_eq row.request_hash (request_hash body) ≡ true
      → attempt env body db ≡ (ok p, db')
      → Answers body p db'
  unfolding create_product_in_transaction
  replayed-Answers env body db row none is_set used same h =
      let (a, t, e, k) =
        >>=-eq-ok (claim (its_claim env body))
          (create_claimed to_lower request_hash env tenant_id seller key body) h in
      cc (e, claim_used (its_claim env body) db (used env) same, is_set)
  replayed-Answers env body db {p} row (some id) is_set used same h =
      let claims =
        claim_used (its_claim env body) db (used env) same ∙ ap (λ r. (replay_of r, db)) is_set in
      let (kept, found) =
        created-replay env body id db (sym (after_claim env body db claims) ∙ h) in
      subst (Answers body p) (sym kept)
        (record { row = row; used = used; same = same; id = id; set = is_set; found = found })

  -- So has a creation, if its id was new.
  created-Answers :
      (env : Env) (body : CreateProductData) (db : Db) {p : ProductRecord} {db' : Db}
      → exists_row (is_product tenant_id env.product_id) db.products ≡ false
      → select_one (is_claim (its_claim env body)) db.idempotency ≡ none
      → IsCreated to_lower request_hash env tenant_id seller key body
          (record db { idempotency = db.idempotency ++ claim_row (its_claim env body) ∷ [] })
          p
          db'
      → Answers body p db'
  unfolding find_by_id
  created-Answers env body db {p} {db'} fresh unused created =
      let row =
        new_row to_lower env.product_id env.written_at (create_record tenant_id seller body) in
      let found : select_one (is_product tenant_id env.product_id) db'.products ≡ some row =
        rw created.products (
          select_one-append_none (is_product tenant_id env.product_id) db.products (row ∷ [])
            (select_one-eq-none (is_product tenant_id env.product_id) db.products fresh)
          ∙ rw (str_eq_refl tenant_id, ==_refl env.product_id) refl) in
      record {
        row = completed env.product_id (claim_row (its_claim env body));
        used = λ e.
            rw created.idempotency
              (select_one-completed (its_claim env body) db.idempotency env.product_id unused);
        same = str_eq_refl (request_hash body);
        id = env.product_id;
        set = refl;
        found = rw (found, map_found, created.made) refl;
      }

  -- Whatever it did, a creation that returned leaves its answer.
  pub attempt-Answers :
      (env : Env) (body : CreateProductData) (db : Db) {p : ProductRecord} {db' : Db}
      → exists_row (is_product tenant_id env.product_id) db.products ≡ false
      → attempt env body db ≡ (ok p, db')
      → Answers body p db'
  attempt-Answers env body db {p} {db'} fresh h =
      elim (Option-cases (select_one (is_claim (its_claim env body)) db.idempotency)) [
        | inl unused ↦ created-Answers env body db fresh unused (
            create_claimed-IsCreated to_lower request_hash env tenant_id seller key body
              (record db { idempotency = db.idempotency ++ claim_row (its_claim env body) ∷ [] })
              (sym (after_claim env body db (claim_unused (its_claim env body) db unused)) ∙ h))
        | inr (row, used) ↦ elim (Bool-cases (str_eq row.request_hash (request_hash body))) [
          | inl same ↦ replayed-Answers env body db row row.resource_id refl (λ e. used) same h
          | inr other ↦ cc (its_refusal env body db used other, h)
        ]
      ]
