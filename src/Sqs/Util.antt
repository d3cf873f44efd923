-- ===== src/Sqs/Util.antt =====
-- hiraeth_sqs/src/util.rs: queue urls, and the checks on batches, message attributes and bodies. The
-- url crate is `parse_url`, the host and the path segments of a url that has both. A map of attributes
-- comes in some order, each name once.
pub mod Laws
use hiraeth.Common.{
  ℕ, suc, ◌+◌, String, Char, code, Bool, true, false, not, ◌&&◌, ◌||◌, List, [], ◌∷◌, Option, none,
  some, ◌==◌, ◌⊕◌, eqb, leb, ltb, any, find, length, if◌then◌else◌, ℤ, pos, negsuc, in_range,
  to_nat, is_alphanumeric, all_chars, starts_with, ends_with, strip_prefix, split, Result, ok, err,
  ok_or, map_err, reject, ◌>>=◌, ◌>>◌, byte_length, contains, eq_ignore_ascii_case, decimal,
  is_empty,
}
use text.Mathlib.Text.{get?}
use hiraeth.Core.Request.{Map}
use hiraeth.Sqlite.Sqs.{Db, get_queue}
use hiraeth.Sqs.Error.{
  SqsError, bad_request, batch_entry_ids_not_distinct, empty_batch_request, internal,
  queue_not_found, too_many_entries_in_batch_request,
}
use hiraeth.Store.Sqs.{SqsQueue}

pub record QueueId : Type 0 where
  pub name : String
  pub region : String
  pub account_id : String

pub record MessageAttributeValue : Type 0 where
  pub data_type : String
  pub string_value : Option String
  pub binary_value : Option String

abbrev first_or : String → Option (List String) → String
first_or fallback none = fallback
first_or fallback (some []) = fallback
first_or fallback (some (x ∷ _)) = x

abbrev split_host : Option String → Option (List String)
unfolding split
split_host none = none
split_host (some remainder) = some (split b'.' remainder)

unfoldable pub queue_id_of : String → Option (String × List String) → Option QueueId
unfolding strip_prefix split
queue_id_of default_region (some (host, account_id ∷ name ∷ [])) = some (record {
  name = name;
  region = first_or default_region (split_host (strip_prefix "sqs." host));
  account_id = account_id;
})
queue_id_of default_region _ = none

module _ (parse_url : String → Option (String × List String)) where
  unfoldable pub parse_queue_url : String → String → Option QueueId
  unfolding queue_id_of
  parse_queue_url queue_url default_region = queue_id_of default_region (parse_url queue_url)

  unfoldable pub load_queue_from_url : String → Db → String → Result SqsQueue SqsError
  unfolding parse_queue_url get_queue
  load_queue_from_url region db queue_url = do
    queue_id ← ok_or (bad_request "Invalid queue url") (parse_queue_url queue_url region)
    found ← map_err internal (get_queue queue_id.name queue_id.region queue_id.account_id db).0
    ok_or queue_not_found found

unfoldable pub queue_url : String → String → String → String
queue_url host account_id queue_name = "http://" ⊕ host ⊕ "/" ⊕ account_id ⊕ "/" ⊕ queue_name

-- the loop over the entry ids, with the ids seen before
unfoldable pub check_distinct : List String → List String → Result Unit SqsError
check_distinct seen [] = ok tt
check_distinct seen (entry_id ∷ entry_ids) =
    let rest = check_distinct (entry_id ∷ seen) entry_ids in
    if any (λ s. s == entry_id) seen then err batch_entry_ids_not_distinct else rest

unfoldable pub validate_batch_request : List String → Result Unit SqsError
unfolding check_distinct
validate_batch_request entry_ids = do
  check_distinct [] entry_ids
  reject (is_empty entry_ids) empty_batch_request
  reject (ltb 10 (length entry_ids)) too_many_entries_in_batch_request

abbrev is_entry_char : Char → Bool
is_entry_char ch = is_alphanumeric (code ch) || eqb (code ch) b'-' || eqb (code ch) b'_'

unfoldable pub validate_batch_entry_id : String → Result Unit SqsError
unfolding byte_length all_chars
validate_batch_entry_id entry_id = do
  reject (entry_id == "" || ltb 80 (byte_length entry_id))
      (bad_request "Batch entry Id must be between 1 and 80 characters")
  reject (not (all_chars is_entry_char entry_id)) (
      bad_request
        "Batch entry Id may only contain alphanumeric characters, hyphens, and underscores")

-- The first four bytes of a name, where they end a character, read "aws." in some case.
unfoldable pub is_reserved : String → Bool
unfolding eq_ignore_ascii_case
is_reserved name = elim (get? name 0 4) [
  | some prefix ↦ eq_ignore_ascii_case prefix "aws."
  | none ↦ false
]

unfoldable pub validate_message_attribute_name : String → Result Unit SqsError
unfolding byte_length all_chars starts_with ends_with contains
validate_message_attribute_name name = do
  reject (name == "" || ltb 256 (byte_length name))
      (bad_request "Message attribute names must be between 1 and 256 characters")
  reject (starts_with "." name || ends_with "." name || contains ".." name) (
      bad_request
        "Message attribute names may not start or end with a period or contain consecutive periods")
  reject (is_reserved name)
      (bad_request "Message attribute names cannot start with the reserved AWS. prefix")
  reject (not (all_chars (λ ch. is_entry_char ch || eqb (code ch) b'.') name)) (
      bad_request
        "Message attribute names may only contain alphanumeric characters, hyphens, underscores, and periods")

abbrev is_none : Option String → Bool
is_none none = true
is_none (some _) = false

unfoldable pub validate_message_attribute_value :
    String → MessageAttributeValue → Result Unit SqsError
unfolding byte_length starts_with
validate_message_attribute_value name value =
    if value.data_type == "" || ltb 256 (byte_length value.data_type)
    then err (
        bad_request
          ("Message attribute '" ⊕ name ⊕ "' DataType must be between 1 and 256 characters"))
    else if starts_with "Binary" value.data_type
    then reject (is_none value.binary_value)
        (bad_request ("Binary message attribute '" ⊕ name ⊕ "' is missing BinaryValue"))
    else if starts_with "String" value.data_type || starts_with "Number" value.data_type
    then reject (is_none value.string_value)
        (bad_request ("String/Number message attribute '" ⊕ name ⊕ "' is missing StringValue"))
    else err (
        bad_request
          ("Message attribute '" ⊕ name ⊕ "' DataType must start with String, Number, or Binary"))

unfoldable pub check_attributes : Map MessageAttributeValue → Result Unit SqsError
unfolding validate_message_attribute_name validate_message_attribute_value
check_attributes [] = ok tt
check_attributes ((name, value) ∷ rest) = do
  validate_message_attribute_name name
  validate_message_attribute_value name value
  check_attributes rest

unfoldable pub validate_message_attributes : Map MessageAttributeValue → Result Unit SqsError
unfolding validate_message_attribute_name validate_message_attribute_value
validate_message_attributes message_attributes = do
  reject (ltb 10 (length message_attributes))
      (bad_request "A message can contain at most 10 message attributes")
  check_attributes message_attributes

unfoldable pub validate_message_system_attributes : Map MessageAttributeValue → Result Unit SqsError
unfolding validate_message_attribute_value
validate_message_system_attributes [] = ok tt
validate_message_system_attributes ((name, value) ∷ rest) = do
  reject (not (name == "AWSTraceHeader"))
      (bad_request ("Unsupported message system attribute: " ⊕ name))
  reject (not (value.data_type == "String")) (bad_request "AWSTraceHeader must use DataType=String")
  validate_message_attribute_value name value
  validate_message_system_attributes rest

abbrev trace_header : Option (String × MessageAttributeValue) → Result (Option String) SqsError
trace_header none = ok none
trace_header (some (_, value)) = do
  reject (not (value.data_type == "String")) (bad_request "AWSTraceHeader must use DataType=String")
  header ← ok_or (bad_request "AWSTraceHeader is missing StringValue") value.string_value
  ok (some header)

unfoldable pub extract_aws_trace_header :
    Option (Map MessageAttributeValue) → Result (Option String) SqsError
extract_aws_trace_header none = ok none
extract_aws_trace_header (some attributes) =
    trace_header (find (λ entry. entry.0 == "AWSTraceHeader") attributes)

abbrev or_queue_default : Option ℤ → ℕ → ℤ
or_queue_default none queue_value = pos queue_value
or_queue_default (some value) queue_value = value

unfoldable pub resolve_delay_seconds : Option ℤ → ℕ → Result ℕ SqsError
resolve_delay_seconds requested_delay_seconds queue_delay_seconds =
    let delay_seconds = or_queue_default requested_delay_seconds queue_delay_seconds in
    if in_range 0 900 delay_seconds
    then ok (to_nat delay_seconds)
    else err (bad_request "DelaySeconds must be between 0 and 900")

abbrev pub is_valid_sqs_message_character : Char → Bool
is_valid_sqs_message_character ch =
    let c = code ch in
    eqb c 0x9
    || eqb c 0xA
    || eqb c 0xD
    || (leb 0x20 c && leb c 0xD7FF)
    || (leb 0xE000 c && leb c 0xFFFD)
    || (leb 0x10000 c && leb c 0x10FFFF)

unfoldable pub validate_message_body : String → ℕ → Result Unit SqsError
unfolding byte_length all_chars decimal
validate_message_body message_body maximum_message_size = do
  reject (message_body == "") (bad_request "MessageBody must contain at least one character")
  reject (ltb maximum_message_size (byte_length message_body)) (
      bad_request (
        "MessageBody exceeds the queue MaximumMessageSize of "
        ⊕ decimal maximum_message_size
        ⊕ " bytes"))
  reject (not (all_chars is_valid_sqs_message_character message_body))
      (bad_request "MessageBody contains characters that are not allowed by SQS")

unfoldable pub get_queue_arn : SqsQueue → String
get_queue_arn queue = "arn:aws:sqs:" ⊕ queue.region ⊕ ":" ⊕ queue.account_id ⊕ ":" ⊕ queue.name
