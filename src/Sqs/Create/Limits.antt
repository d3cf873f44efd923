-- ===== src/Sqs/Create/Limits.antt =====
-- The limits of the queues that `handle_create_queue_typed` of
-- hiraeth_sqs/src/actions/create_queue.rs stores.
use hiraeth.Common.{
  ℕ, String, true, [], ◌∷◌, Option, ◌≡◌, refl, inl, inr, any, Bool-cases, All, All-append, Result,
  ok, err, step, done, Yields, ◌>>=◌, ◌>>◌,
}
use hiraeth.Core.Request.{Map, ResolvedRequest}
use hiraeth.Sqlite.Sqs.Admin.{after_check, ensure_queue_exists, tag_queue, upsert_tags}
use hiraeth.Sqlite.Sqs.{Db, create_queue, same_identity}
use hiraeth.Sqs.Attributes.Laws.{HasLimits, from_attribute_map-HasLimits}
use hiraeth.Sqs.Attributes.{from_attribute_map}
use hiraeth.Sqs.Create.{
  created, handle_create_queue, new_queue, tag_created, validate_queue_name, validate_tags,
}
use hiraeth.Sqs.Error.{SqsError, map_store_error}
use hiraeth.Sqs.Messages.{and_then, persist}
use hiraeth.Store.Sqs.{SqsQueue}
use hiraeth.Store.{StoreError, conflict, not_found, storage_failure}

-- a queue within the limits of SQS
abbrev pub InLimits : SqsQueue → Type 0
InLimits q =
    HasLimits q.visibility_timeout_seconds q.delay_seconds q.maximum_message_size
      q.message_retention_period_seconds q.receive_message_wait_time_seconds
      q.kms_data_key_reuse_period_seconds

pub persist-after :
    {A B : Type 0}
    → (to_error : StoreError → SqsError) (response : B) (r : Result A StoreError × Db)
    → (persist to_error response r).1 ≡ r.1
persist-after to_error response (ok a, after) = refl
persist-after to_error response (err e, after) = refl

after_check-queues :
    (queue_id : ℕ) (tags : Map String) (db : Db) (r : Result Unit StoreError)
    → (after_check (λ d. (tt, record d { tags = upsert_tags queue_id tags d.tags })) db r).1.queues
      ≡ db.queues
after_check-queues queue_id tags db (ok _) = refl
after_check-queues queue_id tags db (err e) = refl

tag_queue-queues :
    (queue_id : ℕ) (tags : Map String) (db : Db) → (tag_queue queue_id tags db).1.queues ≡ db.queues
unfolding tag_queue
tag_queue-queues queue_id tags db =
    after_check-queues queue_id tags db (ensure_queue_exists queue_id db)

tag_created-queues :
    (url : String) (tags : Map String) (db : Db) (found : Result SqsQueue SqsError)
    → (tag_created url tags db found).1.queues ≡ db.queues
unfolding tag_queue
tag_created-queues url tags db (ok q) =
    rw (persist-after map_store_error url (tag_queue q.id tags db)) (tag_queue-queues q.id tags db)
tag_created-queues url tags db (err e) = refl

created-queues :
    (request : ResolvedRequest) (name : String) (tags : Map String) (queue : SqsQueue)
    (r : Result Unit StoreError × Db)
    → (created request name tags queue r).1.queues ≡ r.1.queues
unfolding created
created-queues request name [] queue (ok _, db) = refl
created-queues request name (tag ∷ tags) queue (ok _, db) = tag_created-queues _ (tag ∷ tags) db _
created-queues request name tags queue (err (conflict _), db) = refl
created-queues request name tags queue (err (not_found _), db) = refl
created-queues request name tags queue (err (storage_failure _), db) = refl

create_queue-InLimits :
    (unique_message foreign_key_message : String) (now : ℕ) (queue : SqsQueue) (db : Db)
    → InLimits queue
    → All InLimits db.queues
    → All InLimits (create_queue unique_message foreign_key_message now queue db).1.queues
unfolding create_queue
create_queue-InLimits u f now queue db h hs =
    elim (Bool-cases
      (any (λ q. same_identity q queue.name queue.region queue.account_id) db.queues)) [
        | inl e ↦ rw e hs
        | inr e ↦ rw e (All-append InLimits db.queues _ hs (h, tt))
      ]

module _ (unique_message foreign_key_message : String)
    (json_error policy_error : String → Option String) (request : ResolvedRequest)
    (now current_timestamp : ℕ) (db : Db) (queue_name : String) (attributes tags : Map String) where
  abbrev requested : Result SqsQueue SqsError
  requested = do
    values ← from_attribute_map json_error policy_error attributes
    validate_queue_name queue_name values.fifo_queue
    validate_tags tags true
    ok (new_queue request now queue_name values)

  requested-InLimits : Yields InLimits requested
  unfolding new_queue
  requested-InLimits =
      step InLimits (from_attribute_map json_error policy_error attributes) (λ values read.
        step InLimits (validate_queue_name queue_name values.fifo_queue) (λ _ _.
          step InLimits (validate_tags tags true) (λ _ _.
            done InLimits (new_queue request now queue_name values)
              (from_attribute_map-HasLimits json_error policy_error attributes values read))))

  created-InLimits :
      (r : Result SqsQueue SqsError)
      → Yields InLimits r
      → All InLimits db.queues
      → All InLimits
          (and_then db r (λ queue.
            created request queue_name tags queue (
              create_queue unique_message foreign_key_message current_timestamp queue db))).1.queues
  created-InLimits (err e) y hs = hs
  created-InLimits (ok queue) y hs =
      rw
        (created-queues request queue_name tags queue
          (create_queue unique_message foreign_key_message current_timestamp queue db))
        (create_queue-InLimits unique_message foreign_key_message current_timestamp queue db
          (y queue refl) hs)

  -- When every stored queue is within the limits of SQS, so is every queue after a request to create
  -- one, whatever attributes the request asks for.
  pub handle_create_queue-InLimits :
      All InLimits db.queues
      → All InLimits
          (handle_create_queue unique_message foreign_key_message json_error policy_error request
            now current_timestamp db queue_name attributes tags).1.queues
  unfolding handle_create_queue
  handle_create_queue-InLimits = created-InLimits requested requested-InLimits
