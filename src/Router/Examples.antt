-- ===== src/Router/Examples.antt =====
-- A router with one service, which counts the requests it handles.
use hiraeth.Common.{ℕ, suc, [], none, ◌==◌, ◌≡◌, ◌⊎◌, refl, ok}
use hiraeth.Core.Protocol.{empty_response}
use hiraeth.Core.Request.{ResolvedRequest}
use hiraeth.Iam.Authorize.{allow, unauthorized_response}
use hiraeth.Router.Laws.{IsAdmitted, route_guarded}
use hiraeth.Router.{Authorizer, Service, ServiceRouter, new_router, register_service, route}

abbrev counting : Service ℕ
counting = record {
  can_handle = λ request. request.service == "sqs";
  handle_request = λ request n. (ok empty_response, suc n);
  resolve_authorization = λ request n.
      ok (record { action = "sqs:ListQueues"; resource = "*"; resource_policy = none });
  validate_request = λ request n. ok tt;
}

abbrev allowing : Authorizer ℕ
allowing = record {
  authorize = λ request check n. allow;
  unauthorized_response = unauthorized_response;
}

abbrev router : ServiceRouter ℕ
router = register_service counting (new_router allowing)

abbrev request : ResolvedRequest
request = record {
  request_id = "1";
  request = record {
    host = "localhost";
    method = "POST";
    path = "/";
    query = none;
    headers = [];
    body = [];
  };
  service = "sqs";
  region = "us-east-1";
  auth_context = record {
    access_key = "AKIA";
    principal = record {
      id = 1;
      account_id = "000000000000";
      kind = "user";
      name = "alice";
      path = "/";
      user_id = "AIDA";
      created_at = 0;
    };
  };
  date = 100;
}

counted : route router request 4 ≡ (ok empty_response, 5)
unfolding route
counted = refl

route_guarded_example :
    ((service : Service ℕ) × IsAdmitted router request 4 service
      × (route router request 4 ≡ service.handle_request request 4))
    ⊎ ((route router request 4).1 ≡ 4)
route_guarded_example = route_guarded router request 4
