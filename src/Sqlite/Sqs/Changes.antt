-- ===== src/Sqlite/Sqs/Changes.antt =====
-- What the operations of hiraeth_store_sqlx/src/sqs.rs that change the tables keep and give.
use hiraeth.Common.{
  ℕ, suc, ◌≤◌, String, true, false, not, ◌&&◌, List, [], ◌∷◌, ◌++◌, map, ◌≡◌, ◌≢◌, refl, ap, ◌∙◌,
  inl, inr, arith, ◌==◌, eqb, any, keep, Bool-cases, if◌then◌else◌, All, All-append, All-mem,
  mem-All, Distinct-keep, Distinct-concat, Distinct-map, mem-keep, keep-mem, ap₂, ◌||◌, eq_refl,
  Some-any, any-Some, any-false-All, any-append,
}
use hiraeth.Sqlite.Sqs.Admin.{set_queue_attributes, update_queue}
use hiraeth.Sqlite.Sqs.Valid.{IsValid, identity, map-IsValid, keep-IsValid}
use hiraeth.Sqlite.Sqs.{
  MessageRow, Db, max_id, has_queue, same_identity, create_queue, send_message, delete_queue,
  delete_message, delete_message_by_id, has_receipt, set_visible, set_message_visible_at,
  purge_queue,
}
use hiraeth.Store.Sqs.{SqsQueue, SqsMessage, SqsQueueAttributeUpdate}

-- Deleting by a receipt handle keeps the store valid.
pub delete_message-IsValid :
    (queue_id : ℕ) (receipt_handle : String) (db : Db)
    → IsValid db
    → IsValid (delete_message queue_id receipt_handle db).1
unfolding delete_message
delete_message-IsValid queue_id receipt_handle db v =
    elim (Bool-cases (any (has_receipt queue_id receipt_handle) db.messages)) [
      | inl e ↦ rw e (keep-IsValid _ db v)
      | inr e ↦ rw e v
    ]

pub delete_message_by_id-IsValid :
    (queue_id : ℕ) (message_id : String) (db : Db)
    → IsValid db
    → IsValid (delete_message_by_id queue_id message_id db).1
unfolding delete_message_by_id
delete_message_by_id-IsValid queue_id message_id db v =
    elim (Bool-cases
      (any (λ row. eqb row.queue_id queue_id && row.message_id == message_id) db.messages)) [
        | inl e ↦ rw e (keep-IsValid _ db v)
        | inr e ↦ rw e v
      ]

pub purge_queue-IsValid :
    (queue_id : ℕ) (db : Db) → IsValid db → IsValid (purge_queue queue_id db).1
unfolding purge_queue
purge_queue-IsValid queue_id db v = keep-IsValid _ db v

pub set_message_visible_at-IsValid :
    (queue_id : ℕ) (receipt_handle : String) (visible_at : ℕ) (db : Db)
    → IsValid db
    → IsValid (set_message_visible_at queue_id receipt_handle visible_at db).1
unfolding set_message_visible_at
set_message_visible_at-IsValid queue_id receipt_handle visible_at db v =
    elim (Bool-cases (any (has_receipt queue_id receipt_handle) db.messages)) [
      | inl e ↦ rw e (
          map-IsValid
            (λ row.
              if has_receipt queue_id receipt_handle row then set_visible visible_at row else row)
            db (λ row. ground arith) (λ row. ground arith) (λ row. ground arith) v)
      | inr e ↦ rw e v
    ]

module _ {ℓ} {A : Type ℓ} (id : A → ℕ) where
  -- the id of a new row is that of no row
  max_id-fresh : (xs : List A) → All (λ x. id x ≤ max_id id xs) xs
  max_id-fresh [] = tt
  max_id-fresh (x ∷ xs) =
      (ground arith, mem-All _ xs (λ y m. let h = All-mem _ xs (max_id-fresh xs) m in ground arith))

  fresh : (xs : List A) → All (λ x. id x ≢ suc (max_id id xs)) xs
  fresh xs = mem-All _ xs (λ y m e. let h = All-mem _ xs (max_id-fresh xs) m in omega arith)

eq_true : {s t : String} → s ≡ t → (s == t) ≡ true
eq_true {s} {t} e = rw e (eq_refl t)

module _ (unique_message foreign_key_message : String) where
  pub create_queue-IsValid :
      (now : ℕ) (queue : SqsQueue) (db : Db)
      → IsValid db
      → IsValid (create_queue unique_message foreign_key_message now queue db).1
  unfolding create_queue
  create_queue-IsValid now queue db v =
      elim (Bool-cases
        (any (λ q. same_identity q queue.name queue.region queue.account_id) db.queues)) [
          | inl e ↦ rw e v
          | inr e ↦ rw e (record {
            row_ids = v.row_ids;
            message_ids = v.message_ids;
            owned =
                mem-All _ db.messages (λ row m. add_queue row (All-mem _ db.messages v.owned m));
            queue_ids =
                Distinct-concat (λ q. q.id) db.queues _ v.queue_ids (fresh (λ q. q.id) db.queues);
            identities = Distinct-concat identity db.queues _ v.identities (
                mem-All _ db.queues (λ q m same.
                  differs q (All-mem _ db.queues (any-false-All _ db.queues e) m) same));
          })
        ]
    where
      new : SqsQueue
      new = record queue { id = suc (max_id (λ q. q.id) db.queues); created_at = now }

      add_queue :
          (row : MessageRow)
          → has_queue row.message.queue_id db.queues ≡ true
          → has_queue row.message.queue_id (db.queues ++ new ∷ []) ≡ true
      add_queue row h = any-append _ db.queues _ h

      differs :
          (q : SqsQueue)
          → same_identity q queue.name queue.region queue.account_id ≡ false
          → identity q ≢ identity queue
      differs q h same = absurd (
          cc (
            h,
            eq_true (ap (λ t. t.0) same),
            eq_true (ap (λ t. t.1) same),
            eq_true (ap (λ t. t.2) same),
          ))

  pub send_message-IsValid :
      (message : SqsMessage) (db : Db)
      → IsValid db
      → IsValid (send_message unique_message foreign_key_message message db).1
  unfolding send_message
  send_message-IsValid message db v =
      elim (Bool-cases (any (λ row. row.message_id == message.message_id) db.messages)) [
        | inl e ↦ rw e v
        | inr e ↦ elim (Bool-cases (has_queue message.queue_id db.queues)) [
          | inr n ↦ rw (e, n) v
          | inl y ↦
              rw (e, y)
                (record {
                  row_ids =
                      Distinct-concat (λ row. row.row_id) db.messages _ v.row_ids
                        (fresh (λ row. row.row_id) db.messages);
                  message_ids =
                      Distinct-concat (λ row. row.message.message_id) db.messages _ v.message_ids
                        (mem-All _ db.messages (λ row m same.
                          differs row (All-mem _ db.messages (any-false-All _ db.messages e) m)
                            same));
                  owned = All-append _ db.messages _ v.owned (y, tt);
                  queue_ids = v.queue_ids;
                  identities = v.identities;
                })
        ]
      ]
    where
      differs :
          (row : MessageRow)
          → (row.message_id == message.message_id) ≡ false
          → row.message.message_id ≢ message.message_id
      differs row h same = cc (h, eq_true same)

pub delete_queue-IsValid :
    (queue_id : ℕ) (db : Db) → IsValid db → IsValid (delete_queue queue_id db).1
unfolding delete_queue
delete_queue-IsValid queue_id db v = elim (Bool-cases (has_queue queue_id db.queues)) [
  | inr e ↦ rw e v
  | inl e ↦ rw e (record {
    row_ids = Distinct-keep _ _ db.messages v.row_ids;
    message_ids = Distinct-keep _ _ db.messages v.message_ids;
    owned = mem-All _ _ (λ row m.
        let (k, other) = mem-keep _ db.messages m in
        still row other (All-mem _ db.messages v.owned k));
    queue_ids = Distinct-keep _ _ db.queues v.queue_ids;
    identities = Distinct-keep _ _ db.queues v.identities;
  })
]
  where
    still :
        (row : MessageRow)
        → not (eqb row.message.queue_id queue_id) ≡ true
        → has_queue row.message.queue_id db.queues ≡ true
        → has_queue row.message.queue_id (keep (λ q. not (eqb q.id queue_id)) db.queues) ≡ true
    still row other h =
        let (q, m, e) = any-Some _ db.queues h in
        Some-any _ _ (q, keep-mem _ db.queues m (ground arith), e)

pub set_queue_attributes-IsValid :
    (now queue_id : ℕ) (attributes : SqsQueueAttributeUpdate) (db : Db)
    → IsValid db
    → IsValid (set_queue_attributes now queue_id attributes db).1
unfolding set_queue_attributes
set_queue_attributes-IsValid now queue_id attributes db v =
    elim (Bool-cases (has_queue queue_id db.queues)) [
      | inr e ↦ rw e v
      | inl e ↦ rw e (record {
        row_ids = v.row_ids;
        message_ids = v.message_ids;
        owned =
            mem-All _ db.messages
              (λ row m. same_ids row.message.queue_id db.queues ∙ All-mem _ db.messages v.owned m);
        queue_ids = Distinct-map _ change db.queues (λ q. ground arith) v.queue_ids;
        identities = Distinct-map _ change db.queues (λ q. ground arith) v.identities;
      })
    ]
  where
    change : SqsQueue → SqsQueue
    change q = if eqb q.id queue_id then update_queue now attributes q else q

    kept : (q : SqsQueue) (id : ℕ) → eqb (change q).id id ≡ eqb q.id id
    kept q id = ground arith

    same_ids : (id : ℕ) (qs : List SqsQueue) → has_queue id (map change qs) ≡ has_queue id qs
    same_ids id [] = refl
    same_ids id (q ∷ qs) = ap₂ (λ a b. a || b) (kept q id) (same_ids id qs)
