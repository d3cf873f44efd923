-- ===== src/Sqs/Dispatch/Examples.antt =====
-- The target of a request, and the check of one that purges a queue.
use hiraeth.Common.{
  ℕ, String, List, [], ◌∷◌, Option, none, some, ◌≡◌, ◌↔◌, ◌⊕◌, refl, Result, ok, err,
}
use hiraeth.Auth.Policy.{Policy}
use hiraeth.Core.Request.{ResolvedRequest}
use hiraeth.Iam.Authorize.{AuthorizationCheck}
use hiraeth.Sqlite.Sqs.{Db}
use hiraeth.Sqs.Dispatch.Access.{Concerns, IsAbout, resolve_authorization-IsAbout}
use hiraeth.Sqs.Dispatch.Laws.{IsListed, target_to_operation_name_iff}
use hiraeth.Sqs.Dispatch.{registered_names, resolve_authorization, target_to_operation_name}
use hiraeth.Store.Sqs.{SqsQueue, default_queue}

target_to_operation_name_iff_example :
    (target_to_operation_name "AmazonSQS.SendMessage" ≡ ok "SendMessage") ↔ (
      (◌≡◌ {A = String} "AmazonSQS.SendMessage" ("AmazonSQS." ⊕ "SendMessage"))
      × IsListed "SendMessage" registered_names)
target_to_operation_name_iff_example =
    target_to_operation_name_iff "AmazonSQS.SendMessage" "SendMessage"

abbrev request : ResolvedRequest
request = record {
  request_id = "1";
  request = record {
    host = "localhost";
    method = "POST";
    path = "/";
    query = none;
    headers = ("x-amz-target", "AmazonSQS.PurgeQueue") ∷ [];
    body = [];
  };
  service = "sqs";
  region = "us-east-1";
  auth_context = record {
    access_key = "AKIA";
    principal = record {
      id = 1;
      account_id = "000000000000";
      kind = "user";
      name = "u";
      path = "/";
      user_id = "U";
      created_at = 0;
    };
  };
  date = 0;
}

abbrev parse_url : String → Option (String × List String)
parse_url url = some ("localhost", "000000000000" ∷ "q" ∷ [])

abbrev parse_get_queue_url : List ℕ → Result (String × Option String) String
parse_get_queue_url body = err "?"

abbrev queue_url_field : List ℕ → Result (Option String) String
queue_url_field body = ok (some "http://localhost/000000000000/q")

abbrev parse_policy : String → Option Policy
parse_policy text = none

abbrev stored : SqsQueue
stored = record default_queue {
  id = 1;
  name = "q";
  region = "us-east-1";
  account_id = "000000000000";
}

abbrev one_queue : Db
one_queue = record { queues = stored ∷ []; messages = []; tags = [] }

abbrev purge_check : AuthorizationCheck
purge_check = record {
  action = "sqs:PurgeQueue";
  resource = "arn:aws:sqs:us-east-1:000000000000:q";
  resource_policy = some (record { version = "2012-10-17"; statement = [] });
}

resolved :
    resolve_authorization parse_url parse_get_queue_url queue_url_field parse_policy
      "sqs:PurgeQueue" request one_queue
    ≡ ok purge_check
unfolding resolve_authorization
resolved = refl

resolve_authorization-IsAbout_example :
    (◌≡◌ {A = String} "sqs:PurgeQueue" "sqs:PurgeQueue")
    × ((relevant : Option SqsQueue) × Concerns parse_url parse_get_queue_url queue_url_field
          parse_policy request one_queue "sqs:PurgeQueue" relevant
        × IsAbout parse_url parse_get_queue_url queue_url_field parse_policy request one_queue
            purge_check relevant)
resolve_authorization-IsAbout_example =
    resolve_authorization-IsAbout parse_url parse_get_queue_url queue_url_field parse_policy request
      one_queue "sqs:PurgeQueue" purge_check resolved
