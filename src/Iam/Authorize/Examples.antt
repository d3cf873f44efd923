-- ===== src/Iam/Authorize/Examples.antt =====
-- The authorizer on a store with one inline policy.
use hiraeth.Auth.Eval.{evaluate_identity_policy}
use hiraeth.Auth.Policy.{Policy}
use hiraeth.Common.{
  String, Bool, ◌||◌, [], ◌∷◌, none, ◌==◌, ◌≡◌, refl, ◌↔◌, if◌then◌else◌, Result, ok, err,
}
use hiraeth.Core.Request.{ResolvedRequest}
use hiraeth.Iam.Authorize.Enforce.{IsPermitted, authorize_enforce_iff}
use hiraeth.Iam.Authorize.{AuthorizationCheck, IamStore, allow, authorize, enforce}

abbrev wild : String → String → Bool
wild pattern value = pattern == "*" || pattern == value

abbrev allow_all : Policy
allow_all = record {
  version = "2012-10-17";
  statement =
      record { effect = "Allow"; action = "*" ∷ []; resource = "*" ∷ []; principal = [] } ∷ [];
}

-- a reader that knows one document
abbrev parse_policy : String → Result Policy String
parse_policy document = if document == "allow-all" then ok allow_all else err "unknown document"

abbrev store : IamStore
store = record {
  get_inline_policies_for_principal =
      λ id. ok (record { policy_name = "all"; policy_document = "allow-all" } ∷ []);
  get_managed_policies_attached_to_principal = λ id. ok [];
}

abbrev request : ResolvedRequest
request = record {
  request_id = "1";
  request = record {
    host = "localhost";
    method = "POST";
    path = "/";
    query = none;
    headers = [];
    body = [];
  };
  service = "sqs";
  region = "us-east-1";
  auth_context = record {
    access_key = "AKIA";
    principal = record {
      id = 1;
      account_id = "000000000000";
      kind = "user";
      name = "alice";
      path = "/";
      user_id = "AIDA";
      created_at = 0;
    };
  };
  date = 100;
}

abbrev check : AuthorizationCheck
check = record { action = "sqs:SendMessage"; resource = "q"; resource_policy = none }

enforced : authorize wild parse_policy store enforce request check ≡ allow
unfolding authorize evaluate_identity_policy
enforced = refl

authorize_enforce_iff_example :
    (authorize wild parse_policy store enforce request check ≡ allow)
    ↔ IsPermitted wild parse_policy store request check
authorize_enforce_iff_example = authorize_enforce_iff wild parse_policy store request check
