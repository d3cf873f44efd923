-- ===== src/Sns/Support.antt =====
-- hiraeth_sns/src/actions/action_support.rs: the checks of ARNs and payloads.
use hiraeth.Common.{
  String, not, ◌&&◌, List, [], ◌∷◌, Option, none, some, ◌==◌, any, if◌then◌else◌, Result, ok, err,
  ◌>>◌, reject, split, ◌⊕◌,
}
use hiraeth.Sns.Error.{SnsError, bad_request}
use hiraeth.Sqs.Util.{QueueId}

abbrev pub sqs_endpoint : List String → Option QueueId
sqs_endpoint (arn ∷ partition ∷ service ∷ region ∷ account_id ∷ name ∷ []) =
    if arn == "arn" && partition == "aws" && service == "sqs"
    then some (record { name = name; region = region; account_id = account_id })
    else none
sqs_endpoint _ = none

unfoldable pub parse_sqs_endpoint_arn : String → Option QueueId
unfolding split
parse_sqs_endpoint_arn endpoint = sqs_endpoint (split 58 endpoint)

pub record TopicId : Type 0 where
  pub region : String
  pub account_id : String
  pub name : String

abbrev pub sns_topic : List String → Option TopicId
sns_topic (arn ∷ partition ∷ service ∷ region ∷ account_id ∷ name ∷ []) =
    if arn == "arn"
      && partition == "aws"
      && service == "sns"
      && not (region == "")
      && not (account_id == "")
      && not (name == "")
    then some (record { region = region; account_id = account_id; name = name })
    else none
sns_topic _ = none

unfoldable pub parse_sns_topic_arn : String → Option TopicId
unfolding split
parse_sns_topic_arn arn = sns_topic (split 58 arn)

abbrev pub topic_id_found : String → Option TopicId → Result Unit SnsError
topic_id_found field_name (some _) = ok tt
topic_id_found field_name none = err (bad_request ("Invalid " ⊕ field_name ⊕ " format"))

unfoldable pub validate_topic_arn : String → String → Result Unit SnsError
unfolding parse_sns_topic_arn
validate_topic_arn arn field_name =
    reject (arn == "") (bad_request (field_name ⊕ " is required"))
    >> topic_id_found field_name (parse_sns_topic_arn arn)

abbrev pub validate_raw_message_delivery : String → Result Unit SnsError
validate_raw_message_delivery value =
    if any (λ v. value == v) ("true" ∷ "false" ∷ "True" ∷ "False" ∷ "TRUE" ∷ "FALSE" ∷ [])
    then ok tt
    else err (bad_request "RawMessageDelivery must be true or false")
