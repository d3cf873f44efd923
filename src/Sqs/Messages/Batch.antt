-- ===== src/Sqs/Messages/Batch.antt =====
-- What the message handlers of hiraeth_sqs/src/actions for batches leave in the tables.
use mathlib.Core.List.Memᴰ
use mathlib.Core.List.{Memᴰ}
use hiraeth.Common.{
  ℕ, ◌+◌, String, Bool, false, List, [], ◌∷◌, ◌≡◌, refl, ap, inl, inr, arith, length, Bool-cases,
  any, keep, not, Result, ok, err, map_err, ◌==◌,
}
use hiraeth.Sqlite.Sqs.{Db, delete_message, has_receipt}
use hiraeth.Sqs.Error.{SqsError, map_receipt_handle_store_error}
use hiraeth.Sqs.Messages.{BatchResponse, DeleteMessageBatchEntry, delete_entries, record_entry}

-- how many entries of a list have an id
abbrev pub count {ℓ} : {A : Type ℓ} → (A → String) → String → List A → ℕ
count id key xs = length (keep (λ x. id x == key) xs)

-- how often a response reports an id, as done or as failed
abbrev pub reports : BatchResponse → String → ℕ
reports response key =
    count (λ id. id) key response.successful + count (λ f. f.id) key response.failed

reports-record_entry :
    (id key : String) (r : Result Unit SqsError) (response : BatchResponse)
    → reports (record_entry id r response) key ≡ count (λ i. i) key (id ∷ []) + reports response key
reports-record_entry id key (ok _) response = ground arith
reports-record_entry id key (err e) response = ground arith

delete_entries-reports :
    (queue_id : ℕ) (entries : List DeleteMessageBatchEntry) (db : Db) (key : String)
    → reports (delete_entries queue_id entries db).0 key ≡ count (λ e. e.id) key entries
unfolding delete_entries
delete_entries-reports queue_id [] db key = refl
delete_entries-reports queue_id (entry ∷ entries) db key =
    let (result, after) = delete_message queue_id entry.receipt_handle db in
    let first =
      reports-record_entry entry.id key (map_err map_receipt_handle_store_error result)
        (delete_entries queue_id entries after).0 in
    let rest = delete_entries-reports queue_id entries after key in ground arith

any-keep-false :
    {A : Type 0} → (p q : A → Bool) (xs : List A) → any p xs ≡ false → any p (keep q xs) ≡ false
any-keep-false p q [] h = refl
any-keep-false p q (x ∷ xs) h = let rest = any-keep-false p q xs in ground arith

any-keep-not :
    {A : Type 0} → (p : A → Bool) (xs : List A) → any p (keep (λ x. not (p x)) xs) ≡ false
any-keep-not p [] = refl
any-keep-not p (x ∷ xs) = ground (arith, any-keep-not p xs)

-- no message of the queue holds the handle
abbrev pub IsGone : ℕ → String → Db → Type 0
IsGone queue_id handle db = any (has_receipt queue_id handle) db.messages ≡ false

delete_message-IsGone :
    (queue_id : ℕ) (handle : String) (db : Db)
    → IsGone queue_id handle (delete_message queue_id handle db).1
unfolding delete_message
delete_message-IsGone queue_id handle db =
    elim (Bool-cases (any (has_receipt queue_id handle) db.messages)) [
      | inl e ↦ rw e (any-keep-not (has_receipt queue_id handle) db.messages)
      | inr e ↦ rw e e
    ]

delete_message-stays-IsGone :
    (queue_id : ℕ) (handle other : String) (db : Db)
    → IsGone queue_id handle db
    → IsGone queue_id handle (delete_message queue_id other db).1
unfolding delete_message
delete_message-stays-IsGone queue_id handle other db h =
    elim (Bool-cases (any (has_receipt queue_id other) db.messages)) [
      | inl e ↦ rw e (any-keep-false (has_receipt queue_id handle) _ db.messages h)
      | inr e ↦ rw e h
    ]

delete_entries-stays-IsGone :
    (queue_id : ℕ) (handle : String) (entries : List DeleteMessageBatchEntry) (db : Db)
    → IsGone queue_id handle db
    → IsGone queue_id handle (delete_entries queue_id entries db).1
unfolding delete_entries
delete_entries-stays-IsGone queue_id handle [] db h = h
delete_entries-stays-IsGone queue_id handle (entry ∷ entries) db h =
    delete_entries-stays-IsGone queue_id handle entries _
      (delete_message-stays-IsGone queue_id handle entry.receipt_handle db h)

delete_entries-IsGone :
    (queue_id : ℕ) (entries : List DeleteMessageBatchEntry) (db : Db)
    {entry : DeleteMessageBatchEntry}
    → Memᴰ entry entries
    → IsGone queue_id entry.receipt_handle (delete_entries queue_id entries db).1
unfolding delete_entries
delete_entries-IsGone queue_id [] db m = absurd (Memᴰ.not-nil m)
delete_entries-IsGone queue_id (first ∷ entries) db (Memᴰ.head e) = rw e (
    delete_entries-stays-IsGone queue_id first.receipt_handle entries _
      (delete_message-IsGone queue_id first.receipt_handle db))
delete_entries-IsGone queue_id (first ∷ entries) db (Memᴰ.tail m) =
    delete_entries-IsGone queue_id entries _ m

-- A batch deletion reports each id, as deleted or as failed, as often as the entries have it, and
-- afterwards no message of the queue holds one of the receipt handles.
pub delete_entries_complete :
    (queue_id : ℕ) (entries : List DeleteMessageBatchEntry) (db db' : Db) (response : BatchResponse)
    → delete_entries queue_id entries db ≡ (response, db')
    → ((key : String) → reports response key ≡ count (λ e. e.id) key entries)
      × ((entry : DeleteMessageBatchEntry)
          → Memᴰ entry entries
          → IsGone queue_id entry.receipt_handle db')
delete_entries_complete queue_id entries db db' response h = (
  λ key. rw (← ap (λ r. r.0) h) (delete_entries-reports queue_id entries db key),
  λ entry m. rw (← ap (λ r. r.1) h) (delete_entries-IsGone queue_id entries db m),
)
