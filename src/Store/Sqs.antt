-- ===== src/Store/Sqs.antt =====
-- hiraeth_store/src/sqs.rs: queues, messages and the update of a queue's attributes. Columns of
-- type i64 that only ever hold what a range check let through are natural numbers, as row ids are.
use hiraeth.Common.{ℕ, ◌*◌, String, Bool, false, Option, none}

-- `chrono::Duration::seconds`, in nanoseconds
abbrev pub seconds : ℕ → ℕ
seconds n = n * 1_000_000_000

pub record SqsQueue : Type 0 where
  pub id : ℕ
  pub name : String
  pub region : String
  pub account_id : String
  pub queue_type : String
  pub visibility_timeout_seconds : ℕ
  pub delay_seconds : ℕ
  pub maximum_message_size : ℕ
  pub message_retention_period_seconds : ℕ
  pub receive_message_wait_time_seconds : ℕ
  pub policy : String
  pub redrive_policy : String
  pub content_based_deduplication : Bool
  pub kms_master_key_id : Option String
  pub kms_data_key_reuse_period_seconds : ℕ
  pub deduplication_scope : String
  pub fifo_throughput_limit : String
  pub redrive_allow_policy : String
  pub sqs_managed_sse_enabled : Bool
  pub created_at : ℕ
  pub updated_at : ℕ

-- `SqsQueue::default()`
abbrev pub default_queue : SqsQueue
default_queue = record {
  id = 0;
  name = "";
  region = "";
  account_id = "";
  queue_type = "standard";
  visibility_timeout_seconds = 30;
  delay_seconds = 0;
  maximum_message_size = 1048576;
  message_retention_period_seconds = 345600;
  receive_message_wait_time_seconds = 0;
  policy = "{}";
  redrive_policy = "{}";
  content_based_deduplication = false;
  kms_master_key_id = none;
  kms_data_key_reuse_period_seconds = 300;
  deduplication_scope = "queue";
  fifo_throughput_limit = "perQueue";
  redrive_allow_policy = "{}";
  sqs_managed_sse_enabled = false;
  created_at = 0;
  updated_at = 0;
}

pub record SqsMessage : Type 0 where
  pub message_id : String
  pub queue_id : ℕ
  pub body : String
  pub message_attributes : Option String
  pub aws_trace_header : Option String
  pub sent_at : ℕ
  pub visible_at : ℕ
  pub expires_at : ℕ
  pub receive_count : ℕ
  pub receipt_handle : Option String
  pub first_received_at : Option ℕ
  pub message_group_id : Option String
  pub message_deduplication_id : Option String

pub record SqsQueueAttributeUpdate : Type 0 where
  pub visibility_timeout_seconds : Option ℕ
  pub delay_seconds : Option ℕ
  pub maximum_message_size : Option ℕ
  pub message_retention_period_seconds : Option ℕ
  pub receive_message_wait_time_seconds : Option ℕ
  pub policy : Option String
  pub redrive_policy : Option String
  pub content_based_deduplication : Option Bool
  pub kms_master_key_id : Option (Option String)
  pub kms_data_key_reuse_period_seconds : Option ℕ
  pub deduplication_scope : Option String
  pub fifo_throughput_limit : Option String
  pub redrive_allow_policy : Option String
  pub sqs_managed_sse_enabled : Option Bool
