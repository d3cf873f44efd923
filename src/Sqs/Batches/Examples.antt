-- ===== src/Sqs/Batches/Examples.antt =====
-- A batch of two messages, of which the second asks for too long a delay.
use hiraeth.Common.{true, ℕ, String, List, [], ◌∷◌, none, some, ◌≡◌, refl, pos, if◌then◌else◌, eqb}
use hiraeth.Sqlite.Sqs.{Db}
use hiraeth.Sqs.Batches.Laws.{message_ids, reports, send_entries_complete}
use hiraeth.Sqs.Messages.Batch.{count}
use hiraeth.Sqs.Batches.{SendMessageBatchEntry, SendMessageBatchResponse, send_entries}
use hiraeth.Sqs.Examples.{decode_base64, md5, one_queue, parse_url, request, to_json}
use hiraeth.Store.Sqs.{SqsQueue, default_queue}

abbrev uuids : ℕ → String
uuids n = if eqb n 0 then "first" else "second"

abbrev entry : SendMessageBatchEntry
entry = record {
  id = "a";
  delay_seconds = none;
  message_attributes = none;
  message_system_attributes = none;
  message_body = "hello";
  message_deduplication_id = none;
  message_group_id = none;
}

abbrev entries : List SendMessageBatchEntry
entries = entry ∷ record entry { id = "b"; delay_seconds = some (pos 901) } ∷ []

abbrev queue : SqsQueue
queue = record default_queue { id = 1; name = "q" }

abbrev sent : SendMessageBatchResponse
sent = record {
  successful =
      record {
        id = "a";
        md5_of_message_attributes = none;
        md5_of_message_body = "0";
        md5_of_message_system_attributes = none;
        message_id = "first";
        sequence_number = none;
      }
      ∷ [];
  failed =
      record {
        id = "b";
        code = "InvalidParameterValue";
        message = "DelaySeconds must be between 0 and 900";
        sender_fault = true;
      }
      ∷ [];
}

abbrev after : Db
after = record one_queue {
  messages =
      record {
        row_id = 1;
        message = record {
          message_id = "first";
          queue_id = 1;
          body = "hello";
          message_attributes = some "{}";
          aws_trace_header = none;
          sent_at = 100;
          visible_at = 100;
          expires_at = 345600000000100;
          receive_count = 0;
          receipt_handle = none;
          first_received_at = none;
          message_group_id = none;
          message_deduplication_id = none;
        };
      }
      ∷ [];
}

ran :
    send_entries "u" "f" parse_url to_json decode_base64 md5 request queue uuids 0 entries one_queue
    ≡ (sent, after)
unfolding send_entries
ran = refl

send_entries_complete_example :
    ((key : String) → reports sent key ≡ count (λ e. e.id) key entries)
    × (message_ids after ≡ "first" ∷ [])
send_entries_complete_example =
    send_entries_complete "u" "f" parse_url to_json decode_base64 md5 request queue uuids 0 entries
      one_queue sent after ran
