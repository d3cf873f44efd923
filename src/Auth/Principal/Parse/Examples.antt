-- ===== src/Auth/Principal/Parse/Examples.antt =====
-- Principals read from the text of a policy.
use hiraeth.Auth.Principal.Parse.Laws.{
  IsPrintable, parse_principal-account, parse_principal-render, render,
}
use hiraeth.Auth.Principal.Parse.{is_account_id_pattern, parse_principal}
use hiraeth.Auth.Principal.{PolicyPrincipal, account, assumed_role}
use hiraeth.Auth.Eval.{principal_account_id}
use hiraeth.Common.{all_chars, true, some, ◌≡◌, refl, ok}

abbrev assumed : PolicyPrincipal
assumed = assumed_role "000000000000" "admin" "session"

assumed-IsPrintable : IsPrintable assumed
unfolding is_account_id_pattern all_chars
assumed-IsPrintable = (refl, refl)

parse_principal-render_example : parse_principal (render assumed) ≡ ok assumed
parse_principal-render_example = parse_principal-render assumed assumed-IsPrintable

parsed : parse_principal "0000*" ≡ ok (account "0000*")
unfolding parse_principal is_account_id_pattern all_chars
parsed = refl

of_account : principal_account_id (account "0000*") ≡ some "0000*"
unfolding principal_account_id
of_account = refl

parse_principal-account_example : is_account_id_pattern "0000*" ≡ true
parse_principal-account_example =
    parse_principal-account "0000*" (account "0000*") "0000*" parsed of_account
