-- ===== src/Sqlite/Sqs/Examples.antt =====
-- The store on one queue with two messages, of which each delivery takes one.
use mathlib.Core.List.{Memᴰ}
use hiraeth.Common.{
  ℕ, suc, ◌+◌, ◌≤◌, ◌<◌, String, true, [], ◌∷◌, none, some, ◌≡◌, ◌≢◌, refl, ◌↔◌, ◌⊎◌, arith, eqb,
  keep, length, ok, err, pos,
}
use hiraeth.Sqlite.Sqs.Counts.{counts_split, in_flight, receive_messages_complete}
use hiraeth.Sqlite.Sqs.Outcomes.{
  Holds, create_queue_found, delete_message_once, delete_queue_cascade,
}
use hiraeth.Sqlite.Sqs.Reach.{
  Reachable, create, empty_db, next, Reachable-IsValid, run, send, start,
}
use hiraeth.Sqlite.Sqs.Receive.Delivery.{
  IsClosed, receive_messages_atomic, receive_messages_oldest, receive_messages_sound,
}
use hiraeth.Sqlite.Sqs.Receive.Exclusive.{receive_messages_exclusive}
use hiraeth.Sqlite.Sqs.Receive.{
  Faults, idle, lease, no_faults, receive_messages, receive_on_connection,
}
use hiraeth.Sqlite.Sqs.Valid.{IsValid}
use hiraeth.Sqlite.Sqs.{
  Db, MessageRow, create_queue, delete_message, delete_queue, get_message_count,
  get_messages_delayed_count, get_queue, get_queue_by_id, get_visible_message_count, is_eligible,
  max_id, send_message,
}
use hiraeth.Store.Sqs.{SqsMessage, SqsQueue, default_queue, seconds}
use hiraeth.Store.{conflict, not_found, storage_failure}

abbrev queue : SqsQueue
queue = record default_queue { name = "q"; region = "us-east-1"; account_id = "000000000000" }

abbrev message : String → ℕ → SqsMessage
message id sent_at = record {
  message_id = id;
  queue_id = 1;
  body = "body";
  message_attributes = none;
  aws_trace_header = none;
  sent_at = sent_at;
  visible_at = sent_at;
  expires_at = 1000;
  receive_count = 0;
  receipt_handle = none;
  first_received_at = none;
  message_group_id = none;
  message_deduplication_id = none;
}

abbrev with_queue : Db
with_queue = run "unique" "foreign key" (create 5 queue) empty_db

abbrev two_messages : Db
two_messages =
    run "unique" "foreign key" (send (message "b" 20))
      (run "unique" "foreign key" (send (message "a" 10)) with_queue)

two_messages-Reachable : Reachable "unique" "foreign key" two_messages
two_messages-Reachable =
    next (send (message "b" 20)) (next (send (message "a" 10)) (next (create 5 queue) start))

Reachable-IsValid_example : IsValid two_messages
Reachable-IsValid_example =
    Reachable-IsValid "unique" "foreign key" two_messages two_messages-Reachable

abbrev handle : ℕ → String
handle row_id = "handle"

abbrev stored : SqsMessage → ℕ → MessageRow
stored m row_id = record { row_id = row_id; message = record m { message_attributes = some "{}" } }

abbrev row_a : MessageRow
row_a = stored (message "a" 10) 1

abbrev row_b : MessageRow
row_b = stored (message "b" 20) 2

abbrev leased_a : MessageRow
leased_a = lease 50 (60 + seconds 30) handle row_a

abbrev leased_b : MessageRow
leased_b = lease 70 (80 + seconds 30) handle row_b

abbrev first_delivery : Db
first_delivery = (receive_messages no_faults (seconds 100) 50 60 handle 1 (pos 1) 30 two_messages).1

abbrev second_delivery : Db
second_delivery =
    (receive_messages no_faults (seconds 100) 70 80 handle 1 (pos 1) 30 first_delivery).1

first :
    receive_messages no_faults (seconds 100) 50 60 handle 1 (pos 1) 30 two_messages
    ≡ (ok (leased_a.message ∷ []), first_delivery)
unfolding run create_queue send_message receive_messages
first = refl

second :
    receive_messages no_faults (seconds 100) 70 80 handle 1 (pos 1) 30 first_delivery
    ≡ (ok (leased_b.message ∷ []), second_delivery)
unfolding run create_queue send_message receive_messages
second = refl

two_messages-IsValid : IsValid two_messages
two_messages-IsValid = Reachable-IsValid "unique" "foreign key" two_messages two_messages-Reachable

lasts : 70 < 60 + seconds 30
lasts = omega arith

receive_messages_exclusive_example : leased_a.message.message_id ≢ leased_b.message.message_id
receive_messages_exclusive_example =
    receive_messages_exclusive no_faults no_faults (seconds 100) 50 60 70 80 handle handle 1 1
      (pos 1) (pos 1) 30 30 two_messages (leased_a.message ∷ []) (leased_b.message ∷ [])
      first_delivery second_delivery two_messages-IsValid first second lasts {m = leased_a.message}
      {m' = leased_b.message} (Memᴰ.head refl) (Memᴰ.head refl)

receive_messages_sound_example :
    (row : MessageRow) × Memᴰ row two_messages.messages
    × (is_eligible 50 1 row ≡ true)
    × (leased_a.message ≡ (lease 50 (60 + seconds 30) handle row).message)
receive_messages_sound_example =
    receive_messages_sound no_faults (seconds 100) 50 60 handle 1 (pos 1) 30 two_messages
      (leased_a.message ∷ []) first_delivery two_messages-IsValid first {m = leased_a.message}
      (Memᴰ.head refl)

row_a-stored : Memᴰ row_a two_messages.messages
unfolding run create_queue send_message
row_a-stored = Memᴰ.head refl

row_b-stored : Memᴰ row_b two_messages.messages
unfolding run create_queue send_message
row_b-stored = Memᴰ.tail (Memᴰ.head refl)

row_b-eligible : is_eligible 50 1 row_b ≡ true
row_b-eligible = refl

receive_messages_oldest_example :
    Memᴰ (lease 50 (60 + seconds 30) handle row_b).message (leased_a.message ∷ []) ⊎ (10 ≤ 20)
receive_messages_oldest_example =
    receive_messages_oldest no_faults (seconds 100) 50 60 handle 1 (pos 1) 30 two_messages
      (leased_a.message ∷ []) first_delivery row_b two_messages-IsValid first {m = leased_a.message}
      (Memᴰ.head refl) row_b-stored row_b-eligible

abbrev lost_commit : Faults
lost_commit = record no_faults { commit = some "disk full" }

-- an UPDATE that fails when it has deleted every message of its transaction
abbrev lost_update : Faults
lost_update = record no_faults {
  update = some (storage_failure "disk full");
  left_behind = λ db. record db { messages = [] };
}

fails :
    (receive_messages lost_commit (seconds 100) 50 60 handle 1 (pos 1) 30 two_messages).0
    ≡ err (storage_failure "failed to commit transaction: disk full")
unfolding receive_messages
fails = refl

update_fails :
    (receive_messages lost_update (seconds 100) 50 60 handle 1 (pos 1) 30 two_messages).0
    ≡ err (storage_failure "disk full")
unfolding receive_messages
update_fails = refl

receive_messages_atomic_example :
    ((receive_messages lost_update (seconds 100) 50 60 handle 1 (pos 1) 30 two_messages).1
      ≡ two_messages)
    × IsClosed lost_update
        (seconds 100)
        50
        60
        handle
        1
        (pos 1)
        30
        two_messages
        (receive_on_connection lost_update
          (seconds 100)
          50
          60
          handle
          1
          (pos 1)
          30
          (idle two_messages)).1
receive_messages_atomic_example =
    receive_messages_atomic lost_update (seconds 100) 50 60 handle 1 (pos 1) 30 two_messages
      (storage_failure "disk full") update_fails

both : receive_messages no_faults (seconds 100) 50 60 handle 1 (pos 2) 30 two_messages ≡ (
  ok (leased_a.message ∷ (lease 50 (60 + seconds 30) handle row_b).message ∷ []),
  (receive_messages no_faults (seconds 100) 50 60 handle 1 (pos 2) 30 two_messages).1,
)
unfolding run create_queue send_message receive_messages
both = refl

few : length (keep (is_eligible 50 1) two_messages.messages) ≤ 2
unfolding run create_queue send_message
few = omega arith

receive_messages_complete_example :
    Memᴰ
      (lease 50 (60 + seconds 30) handle row_b).message
      (leased_a.message ∷ (lease 50 (60 + seconds 30) handle row_b).message ∷ [])
receive_messages_complete_example =
    receive_messages_complete no_faults (seconds 100) 50 60 handle 1 2 30 two_messages _ _ both few
      row_b row_b-stored row_b-eligible

counted_visible : (get_visible_message_count 70 1 first_delivery).0 ≡ ok 1
unfolding get_visible_message_count run create_queue send_message receive_messages
counted_visible = refl

counted_delayed : (get_messages_delayed_count 70 1 first_delivery).0 ≡ ok 0
unfolding get_messages_delayed_count run create_queue send_message receive_messages
counted_delayed = refl

counted_all : (get_message_count 70 1 first_delivery).0 ≡ ok 2
unfolding get_message_count run create_queue send_message receive_messages
counted_all = refl

counts_split_example : 2 ≡ 1 + 0 + length (keep (in_flight 70 1) first_delivery.messages)
counts_split_example =
    counts_split 70 1 first_delivery 1 0 2 counted_visible counted_delayed counted_all

deleted :
    delete_message 1 "handle" first_delivery ≡ (ok tt, (delete_message 1 "handle" first_delivery).1)
unfolding delete_message run create_queue send_message receive_messages
deleted = refl

delete_message_once_example :
    ((row : MessageRow) × Memᴰ row first_delivery.messages × Holds 1 "handle" row)
    × ((row : MessageRow)
        → Memᴰ row (delete_message 1 "handle" first_delivery).1.messages
          ↔ (Memᴰ row first_delivery.messages × (Holds 1 "handle" row → ⊥)))
    × (delete_message 1 "handle" (delete_message 1 "handle" first_delivery).1 ≡ (
      err (not_found "receipt handle not found"),
      (delete_message 1 "handle" first_delivery).1,
    ))
delete_message_once_example =
    delete_message_once 1 "handle" first_delivery (delete_message 1 "handle" first_delivery).1
      deleted

abbrev without_queue : Db
without_queue = record { queues = []; messages = []; tags = [] }

queue_deleted : delete_queue 1 two_messages ≡ (ok tt, without_queue)
unfolding delete_queue run create_queue send_message
queue_deleted = refl

delete_queue_cascade_example :
    ((get_queue_by_id 1 without_queue).0 ≡ ok none)
    × ((row : MessageRow)
        → Memᴰ row without_queue.messages
          ↔ (Memᴰ row two_messages.messages × (row.message.queue_id ≢ 1)))
    × (keep (λ row. eqb row.queue_id 1) without_queue.tags ≡ [])
    × ((q : SqsQueue) → Memᴰ q without_queue.queues ↔ (Memᴰ q two_messages.queues × (q.id ≢ 1)))
delete_queue_cascade_example = delete_queue_cascade 1 two_messages without_queue queue_deleted

created : create_queue "unique" "foreign key" 5 queue empty_db ≡ (ok tt, with_queue)
unfolding create_queue run
created = refl

create_queue_found_example :
    ((get_queue "q" "us-east-1" "000000000000" with_queue).0
      ≡ ok (some (record queue { id = suc (max_id (λ q. q.id) empty_db.queues); created_at = 5 })))
    × ((later : ℕ)
        → create_queue "unique" "foreign key" later queue with_queue
          ≡ (err (conflict "unique"), with_queue))
create_queue_found_example =
    create_queue_found "unique" "foreign key" 5 queue empty_db with_queue created
