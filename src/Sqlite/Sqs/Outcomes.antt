-- ===== src/Sqlite/Sqs/Outcomes.antt =====
-- What the operations of hiraeth_store_sqlx/src/sqs.rs leave behind.
use mathlib.Core.List.{Memᴰ}
use hiraeth.Common.{
  ℕ, suc, String, Bool, true, false, not, List, [], ◌∷◌, ◌++◌, some, none, ◌≡◌, ◌≢◌, ◌↔◌, refl, sym,
  ap, inl, inr, arith, eqb, any, keep, find, Bool-cases, mem-keep, keep-mem, ok, err, eq_refl,
  eq_iff, eqb_iff, any-Some, Option,
}
use hiraeth.Sqlite.Sqs.{
  MessageRow, Db, max_id, has_queue, same_identity, create_queue, delete_queue, get_queue,
  get_queue_by_id, delete_message, has_receipt, holds_handle,
}
use hiraeth.Store.Sqs.{SqsQueue}
use hiraeth.Store.{not_found, conflict}

any-keep : {A : Type 0} → (p : A → Bool) (xs : List A) → any p (keep (λ x. not (p x)) xs) ≡ false
any-keep p [] = refl
any-keep p (x ∷ xs) = ground (arith, any-keep p xs)

-- The message is in the queue and was last delivered under the receipt handle.
abbrev pub Holds : ℕ → String → MessageRow → Type 0
Holds queue_id receipt_handle row =
    (row.message.queue_id ≡ queue_id) × (row.message.receipt_handle ≡ some receipt_handle)

holds_handle_iff :
    (receipt_handle : String) (held : Option String)
    → (holds_handle receipt_handle held ≡ true) ↔ (held ≡ some receipt_handle)
holds_handle_iff receipt_handle none = ((λ h. absurd (cc h)), λ h. absurd (cc h))
holds_handle_iff receipt_handle (some h) = (
  (λ e. ap (λ t. some t) ((eq_iff h receipt_handle).0 e)),
  λ e. (eq_iff h receipt_handle).1 (cc e),
)

has_receipt_iff :
    (queue_id : ℕ) (receipt_handle : String) (row : MessageRow)
    → (has_receipt queue_id receipt_handle row ≡ true) ↔ Holds queue_id receipt_handle row
has_receipt_iff queue_id receipt_handle row = (
  λ h.
      (ground arith, (holds_handle_iff receipt_handle row.message.receipt_handle).0 (ground arith)),
  λ (q, h).
      let held = (holds_handle_iff receipt_handle row.message.receipt_handle).1 h in
      let same = (eqb_iff row.message.queue_id queue_id).1 q in rw (same, held),
)

-- A deletion that succeeds removes the messages of this queue that were last delivered under the
-- receipt handle, of which there was one at least, and no other; the same deletion then fails and
-- changes nothing.
pub delete_message_once :
    (queue_id : ℕ) (receipt_handle : String) (db db' : Db)
    → delete_message queue_id receipt_handle db ≡ (ok tt, db')
    → ((row : MessageRow) × Memᴰ row db.messages × Holds queue_id receipt_handle row)
      × ((row : MessageRow)
          → Memᴰ row db'.messages
            ↔ (Memᴰ row db.messages × (Holds queue_id receipt_handle row → ⊥)))
      × (delete_message queue_id receipt_handle db'
          ≡ (err (not_found "receipt handle not found"), db'))
unfolding delete_message
delete_message_once queue_id receipt_handle db db' h =
    elim (Bool-cases (any (has_receipt queue_id receipt_handle) db.messages)) [
      | inr e ↦ absurd (cc (rw e at h))
      | inl e ↦
          let left : db'.messages
              ≡ keep (λ row. not (has_receipt queue_id receipt_handle row)) db.messages =
            sym (ap (λ r. r.1.messages) (rw e at h)) in
          let (held, m, q) = any-Some (has_receipt queue_id receipt_handle) db.messages e in
          (
            (held, m, (has_receipt_iff queue_id receipt_handle held).0 q),
            λ row. rw left (
              (λ m.
                  let (k, q) = mem-keep _ db.messages m in
                  (
                    k,
                    λ holds.
                        not_holds row q ((has_receipt_iff queue_id receipt_handle row).1 holds),
                  )),
              λ (k, q). keep-mem _ db.messages k (kept row q),
            ),
            rw (left, any-keep) refl,
          )
    ]
  where
    not_holds :
        (row : MessageRow)
        → not (has_receipt queue_id receipt_handle row) ≡ true
        → has_receipt queue_id receipt_handle row ≡ true
        → ⊥
    not_holds row q e = absurd (cc (rw e at q))

    kept :
        (row : MessageRow)
        → (Holds queue_id receipt_handle row → ⊥)
        → not (has_receipt queue_id receipt_handle row) ≡ true
    kept row q = elim (Bool-cases (has_receipt queue_id receipt_handle row)) [
      | inl e ↦ absurd (q ((has_receipt_iff queue_id receipt_handle row).0 e))
      | inr e ↦ rw e
    ]

module _ {A : Type 0} (id : A → ℕ) (i : ℕ) where
  abbrev others : List A → List A
  others xs = keep (λ x. not (eqb (id x) i)) xs

  others_iff : (xs : List A) (x : A) → Memᴰ x (others xs) ↔ (Memᴰ x xs × (id x ≢ i))
  others_iff xs x = (
    (λ m. let (k, q) = mem-keep _ xs m in (k, (λ e. ground arith))),
    λ (k, q). keep-mem _ xs k (ground arith),
  )

  keep-others : (xs : List A) → keep (λ x. eqb (id x) i) (others xs) ≡ []
  keep-others [] = refl
  keep-others (x ∷ xs) = ground (arith, keep-others xs)

  find-others : (xs : List A) → find (λ x. eqb (id x) i) (others xs) ≡ none
  find-others [] = refl
  find-others (x ∷ xs) = ground (arith, find-others xs)

-- A queue deletion that succeeds removes the queue with all its messages and tags, and no other queue
-- and no message of one.
pub delete_queue_cascade :
    (queue_id : ℕ) (db db' : Db)
    → delete_queue queue_id db ≡ (ok tt, db')
    → ((get_queue_by_id queue_id db').0 ≡ ok none)
      × ((row : MessageRow)
          → Memᴰ row db'.messages ↔ (Memᴰ row db.messages × (row.message.queue_id ≢ queue_id)))
      × (keep (λ row. eqb row.queue_id queue_id) db'.tags ≡ [])
      × ((q : SqsQueue) → Memᴰ q db'.queues ↔ (Memᴰ q db.queues × (q.id ≢ queue_id)))
unfolding delete_queue get_queue_by_id
delete_queue_cascade queue_id db db' h = elim (Bool-cases (has_queue queue_id db.queues)) [
  | inr e ↦ absurd (cc (rw e at h))
  | inl e ↦
      let same = ap (λ r. r.1) (rw e at h) in
      rw (← same) (
        ap ok (find-others (λ q. q.id) queue_id db.queues),
        others_iff (λ row. row.message.queue_id) queue_id db.messages,
        keep-others (λ row. row.queue_id) queue_id db.tags,
        others_iff (λ q. q.id) queue_id db.queues,
      )
]

module _ {A : Type 0} (p : A → Bool) where
  find-last : (xs : List A) (x : A) → any p xs ≡ false → p x ≡ true → find p (xs ++ x ∷ []) ≡ some x
  find-last [] x none_before here = ground arith
  find-last (y ∷ xs) x none_before here = let after = find-last xs x in ground arith

  any-last : (xs : List A) (x : A) → p x ≡ true → any p (xs ++ x ∷ []) ≡ true
  any-last [] x here = ground arith
  any-last (y ∷ xs) x here = ground (arith, any-last xs x here)

same_identity_refl : (q : SqsQueue) → same_identity q q.name q.region q.account_id ≡ true
same_identity_refl q = rw (eq_refl q.name, eq_refl q.region, eq_refl q.account_id) refl

-- A queue that was created is found under its name, region and account, with the attributes asked for;
-- creating it again is a conflict that changes nothing.
pub create_queue_found :
    (unique_message foreign_key_message : String) (now : ℕ) (queue : SqsQueue) (db db' : Db)
    → create_queue unique_message foreign_key_message now queue db ≡ (ok tt, db')
    → ((get_queue queue.name queue.region queue.account_id db').0
        ≡ ok (some (record queue { id = suc (max_id (λ q. q.id) db.queues); created_at = now })))
      × ((later : ℕ)
          → create_queue unique_message foreign_key_message later queue db'
            ≡ (err (conflict unique_message), db'))
unfolding create_queue get_queue
create_queue_found u f now queue db db' h =
    elim (Bool-cases
      (any (λ q. same_identity q queue.name queue.region queue.account_id) db.queues)) [
        | inl e ↦ absurd (cc (rw e at h))
        | inr e ↦
            let same = ap (λ r. r.1) (rw e at h) in
            rw (← same) (
              ap ok (find-last _ db.queues _ e (same_identity_refl queue)),
              λ later.
                  rw
                    (any-last (λ q. same_identity q queue.name queue.region queue.account_id)
                      db.queues
                      (record queue { id = suc (max_id (λ q. q.id) db.queues); created_at = now })
                      (same_identity_refl queue))
                    refl,
            )
      ]
