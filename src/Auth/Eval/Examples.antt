-- ===== src/Auth/Eval/Examples.antt =====
-- Policies at work, with patterns that are plain text or "*".
use hiraeth.Auth.Eval.Outcome.{
  IdentityApplies, ResourceApplies, StatesFor, evaluate_identity_policy_iff,
  evaluate_resource_policy_iff,
}
use hiraeth.Auth.Eval.{
  allowed, denied, evaluate_identity_policy, evaluate_resource_policy, principal_matches_pattern,
}
use hiraeth.Auth.Policy.{Policy}
use hiraeth.Auth.Principal.{PolicyPrincipal, account, user}
use hiraeth.Common.{String, Bool, ◌||◌, [], ◌∷◌, ◌==◌, ◌≡◌, refl, ◌↔◌}

abbrev simple_wild : String → String → Bool
simple_wild pattern value = pattern == "*" || pattern == value

abbrev alice : PolicyPrincipal
alice = user "000000000000" "alice"

abbrev open_to_account : Policy
open_to_account = record {
  version = "2012-10-17";
  statement =
      record {
        effect = "Allow";
        action = "sqs:SendMessage" ∷ [];
        resource = "*" ∷ [];
        principal = account "000000000000" ∷ [];
      }
      ∷ record {
        effect = "Deny";
        action = "*" ∷ [];
        resource = "*" ∷ [];
        principal = user "000000000000" "bob" ∷ [];
      }
      ∷ [];
}

resource_test :
    evaluate_resource_policy simple_wild alice "arn:aws:sqs:us-east-1:000000000000:q"
      "sqs:SendMessage" open_to_account
    ≡ allowed
unfolding evaluate_resource_policy principal_matches_pattern
resource_test = refl

abbrev own_policy : Policy
own_policy = record {
  version = "2012-10-17";
  statement =
      record {
        effect = "Deny";
        action = "sqs:PurgeQueue" ∷ [];
        resource = "*" ∷ [];
        principal = [];
      }
      ∷ [];
}

evaluate_resource_policy_iff_example :
    ((evaluate_resource_policy simple_wild alice "q" "sqs:SendMessage" open_to_account ≡ denied)
      ↔ StatesFor (ResourceApplies simple_wild alice "q" "sqs:SendMessage") "Deny" open_to_account)
    × ((evaluate_resource_policy simple_wild alice "q" "sqs:SendMessage" open_to_account ≡ allowed)
        ↔ (StatesFor
              (ResourceApplies simple_wild alice "q" "sqs:SendMessage")
              "Allow"
              open_to_account
            × ¬ StatesFor
                (ResourceApplies simple_wild alice "q" "sqs:SendMessage")
                "Deny"
                open_to_account))
evaluate_resource_policy_iff_example =
    evaluate_resource_policy_iff simple_wild alice "q" "sqs:SendMessage" open_to_account

evaluate_identity_policy_iff_example :
    ((evaluate_identity_policy simple_wild "q" "sqs:PurgeQueue" own_policy ≡ denied)
      ↔ StatesFor (IdentityApplies simple_wild "q" "sqs:PurgeQueue") "Deny" own_policy)
    × ((evaluate_identity_policy simple_wild "q" "sqs:PurgeQueue" own_policy ≡ allowed) ↔ (
        StatesFor (IdentityApplies simple_wild "q" "sqs:PurgeQueue") "Allow" own_policy
        × ¬ StatesFor (IdentityApplies simple_wild "q" "sqs:PurgeQueue") "Deny" own_policy))
evaluate_identity_policy_iff_example =
    evaluate_identity_policy_iff simple_wild "q" "sqs:PurgeQueue" own_policy
