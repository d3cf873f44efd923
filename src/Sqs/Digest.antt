-- ===== src/Sqs/Digest.antt =====
-- hiraeth_sqs/src/util.rs: the stored form of message attributes and their digest. serde_json's writer
-- is `to_json`, the base64 crate `decode_base64`, and the md5 crate, with its hexadecimal text, `md5`.
use hiraeth.Common.{
  text_ltb, order_by, as_bytes, ℕ, ◌/◌, ◌%◌, String, List, [], ◌∷◌, ◌++◌, ◌⊕◌, length,
  if◌then◌else◌, starts_with, Result, ok, map_err, ok_or, ◌>>=◌,
}
use hiraeth.Core.Request.{Map}
use hiraeth.Sqs.Error.{SqsError, bad_request, internal_error}
use hiraeth.Sqs.Util.{MessageAttributeValue}

-- the length as u32, from its high byte on, and the bytes
unfoldable pub length_prefixed_bytes : List ℕ → List ℕ
length_prefixed_bytes bytes =
    let n = length bytes % 4294967296 in
    (n / 16777216) ∷ ((n / 65536) % 256) ∷ ((n / 256) % 256) ∷ (n % 256) ∷ bytes

-- by name, as a `BTreeMap` and `sort_by_key` order them
unfoldable pub in_name_order : Map MessageAttributeValue → Map MessageAttributeValue
unfolding order_by text_ltb
in_name_order attributes = order_by (λ a b. text_ltb a.0 b.0) attributes

unfoldable pub serialize_message_attributes :
    (Map MessageAttributeValue → Result String String)
    → Map MessageAttributeValue
    → Result String SqsError
unfolding in_name_order
serialize_message_attributes to_json attributes =
    map_err (λ e. internal_error ("failed to serialize message attributes: " ⊕ e))
      (to_json (in_name_order attributes))

module _ (decode_base64 : String → Result (List ℕ) String) where
  -- what follows the name and the type of an attribute: a tag and the value
  unfoldable pub value_bytes : String → MessageAttributeValue → Result (List ℕ) SqsError
  unfolding starts_with as_bytes length_prefixed_bytes
  value_bytes name value =
      let binary = do
        binary_value ←
            ok_or (bad_request ("Binary message attribute '" ⊕ name ⊕ "' is missing BinaryValue"))
              value.binary_value
        decoded ←
            map_err
              (λ e.
                bad_request ("Binary message attribute '" ⊕ name ⊕ "' is not valid base64: " ⊕ e))
              (decode_base64 binary_value)
        ok (2 ∷ length_prefixed_bytes decoded)
      in let text = do
        string_value ←
            ok_or
              (bad_request
                ("String/Number message attribute '" ⊕ name ⊕ "' is missing StringValue"))
              value.string_value
        ok (1 ∷ length_prefixed_bytes (as_bytes string_value))
        in if starts_with "Binary" value.data_type then binary else text

  unfoldable pub attribute_bytes : Map MessageAttributeValue → Result (List ℕ) SqsError
  unfolding value_bytes as_bytes length_prefixed_bytes
  attribute_bytes [] = ok []
  attribute_bytes ((name, value) ∷ rest) = do
    bytes ← value_bytes name value
    later ← attribute_bytes rest
    ok (
        length_prefixed_bytes (as_bytes name)
        ++ length_prefixed_bytes (as_bytes value.data_type)
        ++ bytes
        ++ later)

  unfoldable pub calculate_message_attributes_md5 :
      (List ℕ → String) → Map MessageAttributeValue → Result String SqsError
  unfolding attribute_bytes in_name_order
  calculate_message_attributes_md5 md5 attributes = do
    buffer ← attribute_bytes (in_name_order attributes)
    ok (md5 buffer)
