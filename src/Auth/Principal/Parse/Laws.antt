-- ===== src/Auth/Principal/Parse/Laws.antt =====
-- Parsing a principal: what a parsed principal is, and that a principal's ARN parses back
-- (hiraeth_core/src/auth/principal.rs).
use text.Mathlib.TextLemmas.{cons-append}
use hiraeth.Auth.Eval.{principal_account_id}
use hiraeth.Auth.Principal.{PolicyPrincipal, any, account, user, role, assumed_role, service}
use hiraeth.Auth.Principal.Parse.{
  PrincipalWire, any_wire, map_wire, is_account_id_pattern, parse_iam_principal,
  parse_sts_principal, parse_arn_parts, parse_principal, wire_values, parse_aws, non_empty,
  deserialize_principals,
}
use hiraeth.Common.{
  Char, code, String, ◌◂◌, true, false, not, ◌||◌, List, [], ◌∷◌, ◌++◌, map, none, some, eq_iff,
  ◌⊕◌, eqb, is_digit, all_chars, split_at_most, lacks, all_chars_mono, all_chars-append,
  split_at_most-append, split_once-append, strip_prefix, strip_prefix-append, Result, ok, err,
  ◌>>=◌, ◌≡◌, ◌≢◌, refl, ap, arith,
}

non_empty-ne-nil : (found ps : List PolicyPrincipal) → non_empty found ≡ ok ps → ps ≢ []
non_empty-ne-nil [] ps h = cc
non_empty-ne-nil (p ∷ found) ps h = cc

bind-ne-nil :
    (aws : Result (List PolicyPrincipal) String) (services ps : List PolicyPrincipal)
    → (aws >>= λ found. non_empty (found ++ services)) ≡ ok ps
    → ps ≢ []
bind-ne-nil (ok found) services ps h = non_empty-ne-nil (found ++ services) ps h
bind-ne-nil (err e) services ps h = cc

-- A list of principals that was read is never empty.
pub deserialize_principals-ne-nil :
    (wire : PrincipalWire) (principals : List PolicyPrincipal)
    → deserialize_principals wire ≡ ok principals
    → principals ≢ []
unfolding deserialize_principals
deserialize_principals-ne-nil (any_wire value) ps h = ground arith
deserialize_principals-ne-nil (map_wire wire) ps h =
    bind-ne-nil (parse_aws (wire_values wire.aws)) (map service (wire_values wire.service)) ps h

parse_iam-account :
    (a resource : String) (p : PolicyPrincipal) (found : String)
    → parse_iam_principal a resource ≡ ok p
    → principal_account_id p ≡ some found
    → found ≡ a
unfolding parse_iam_principal principal_account_id
parse_iam-account a resource p found h k = ground arith

parse_sts-account :
    (a resource : String) (p : PolicyPrincipal) (found : String)
    → parse_sts_principal a resource ≡ ok p
    → principal_account_id p ≡ some found
    → found ≡ a
unfolding parse_sts_principal principal_account_id
parse_sts-account a resource p found h k = ground arith

parse_arn_parts-account :
    (value : String) (parts : List String) (p : PolicyPrincipal) (found : String)
    → parse_arn_parts value parts ≡ ok p
    → principal_account_id p ≡ some found
    → is_account_id_pattern found ≡ true
unfolding parse_arn_parts
parse_arn_parts-account value (arn ∷ x ∷ s ∷ y ∷ a ∷ r ∷ []) p found h k =
    ground (arith, parse_iam-account a r p found, parse_sts-account a r p found)
parse_arn_parts-account value _ p found h k = cc

-- The account of a parsed principal is an account id pattern: digits, "*" and "?", and not empty.
pub parse_principal-account :
    (value : String) (p : PolicyPrincipal) (found : String)
    → parse_principal value ≡ ok p
    → principal_account_id p ≡ some found
    → is_account_id_pattern found ≡ true
unfolding parse_principal principal_account_id
parse_principal-account value p found h k =
    ground (arith, parse_arn_parts-account value (split_at_most 5 b':' value) p found)

-- The ARN of a principal, `arn:aws:SERVICE::ACCOUNT:RESOURCE`, part by part.
abbrev pub arn_rest : String → String → String → String
arn_rest service_name account_id resource =
    ":" ◂ ("aws" ⊕ (":" ◂ (service_name ⊕ (":" ◂ ("" ⊕ (":" ◂ (account_id ⊕ (":" ◂ resource))))))))

abbrev pub arn : String → String → String → String
arn service_name account_id resource = "arn" ⊕ arn_rest service_name account_id resource

abbrev pub render : PolicyPrincipal → String
render any = "*"
render (account account_id) = account_id
render (user account_id user_name) = arn "iam" account_id ("user/" ⊕ user_name)
render (role account_id role_name) = arn "iam" account_id ("role/" ⊕ role_name)
render (assumed_role account_id role_name session_name) =
    arn "sts" account_id ("assumed-role/" ⊕ (role_name ⊕ ("/" ◂ session_name)))
render (service name) = name

-- An AWS principal that has an ARN or an account id of its own.
abbrev pub IsPrintable : PolicyPrincipal → Type 0
IsPrintable any = Unit
IsPrintable (account account_id) = (is_account_id_pattern account_id ≡ true) × (account_id ≢ "*")
IsPrintable (user account_id _) = is_account_id_pattern account_id ≡ true
IsPrintable (role account_id _) = is_account_id_pattern account_id ≡ true
IsPrintable (assumed_role account_id role_name _) =
    (is_account_id_pattern account_id ≡ true) × (lacks b'/' role_name ≡ true)
IsPrintable (service _) = ⊥

pattern_char :
    (c : Char)
    → (is_digit (code c) || eqb (code c) b'*' || eqb (code c) b'?') ≡ true
    → not (eqb (code c) b':') ≡ true
pattern_char c h = ground arith

is_account_id_pattern-lacks : (a : String) → is_account_id_pattern a ≡ true → lacks b':' a ≡ true
unfolding is_account_id_pattern
is_account_id_pattern-lacks a h = all_chars_mono _ _ a pattern_char (ground arith)

arn_prefix-pattern : (rest : String) → is_account_id_pattern ("arn" ⊕ rest) ≡ false
unfolding is_account_id_pattern
arn_prefix-pattern rest = rw all_chars-append (unfold all_chars in ground arith)

strip_arn : strip_prefix "arn" "*" ≡ none
unfolding strip_prefix
strip_arn = refl

arn_prefix-ne-star : (rest : String) → "arn" ⊕ rest ≢ "*"
arn_prefix-ne-star rest e =
    cc (strip_prefix-append "arn" rest, ap (strip_prefix "arn") e, strip_arn)

split-arn :
    (s a r : String)
    → lacks b':' s ≡ true
    → lacks b':' a ≡ true
    → split_at_most 5 b':' (arn s a r) ≡ "arn" ∷ "aws" ∷ s ∷ "" ∷ a ∷ r ∷ []
unfolding all_chars split_at_most
split-arn s a r h k = rw (
  split_at_most-append 4 ":" "arn" _ refl,
  split_at_most-append 3 ":" "aws" _ refl,
  split_at_most-append 2 ":" s _ h,
  split_at_most-append 1 ":" "" _ refl,
  split_at_most-append 0 ":" a r k,
)

parse_arn :
    (s a r : String)
    → lacks b':' s ≡ true
    → is_account_id_pattern a ≡ true
    → parse_principal (arn s a r)
      ≡ parse_arn_parts (arn s a r) ("arn" ∷ "aws" ∷ s ∷ "" ∷ a ∷ r ∷ [])
unfolding parse_principal
parse_arn s a r h k = ground (
  arith,
  eq_iff (arn s a r) "*",
  arn_prefix-ne-star (arn_rest s a r),
  arn_prefix-pattern (arn_rest s a r),
  split-arn s a r h (is_account_id_pattern-lacks a k),
)

lacks_services : (lacks b':' "iam" ≡ true) × (lacks b':' "sts" ≡ true)
unfolding all_chars
lacks_services = (refl, refl)

-- A text that begins with the prefix is not one that does not.
ne_of_prefix : (p s t : String) → strip_prefix p t ≡ none → p ⊕ s ≢ t
ne_of_prefix p s t h e = cc (strip_prefix-append p s, ap (strip_prefix p) e, h)

root_prefixes : (strip_prefix "user/" "root" ≡ none) × (strip_prefix "role/" "root" ≡ none)
unfolding strip_prefix
root_prefixes = (refl, refl)

user_role : (n : String) → strip_prefix "user/" ("role/" ⊕ n) ≡ none
unfolding strip_prefix
user_role n = rw cons-append refl

parse_user : (a n : String) → parse_iam_principal a ("user/" ⊕ n) ≡ ok (user a n)
unfolding parse_iam_principal
parse_user a n = ground (
  arith,
  eq_iff ("user/" ⊕ n) "root",
  ne_of_prefix "user/" n "root" root_prefixes.0,
  strip_prefix-append "user/" n,
)

parse_role : (a n : String) → parse_iam_principal a ("role/" ⊕ n) ≡ ok (role a n)
unfolding parse_iam_principal
parse_role a n = ground (
  arith,
  eq_iff ("role/" ⊕ n) "root",
  ne_of_prefix "role/" n "root" root_prefixes.1,
  user_role n,
  strip_prefix-append "role/" n,
)

parse_assumed_role :
    (a r s : String)
    → lacks b'/' r ≡ true
    → parse_sts_principal a ("assumed-role/" ⊕ (r ⊕ ("/" ◂ s))) ≡ ok (assumed_role a r s)
unfolding parse_sts_principal
parse_assumed_role a r s h =
    ground (arith, strip_prefix-append "assumed-role/" (r ⊕ ("/" ◂ s)), split_once-append "/" r s h)

-- The text of a principal, "*", an account id or the ARN of a user, a role or an assumed role, parses
-- back to it, if its account is an account id pattern, other than "*" where the text is the account
-- alone, and the role name of an assumed role has no "/". Nothing is said of services.
pub parse_principal-render :
    (p : PolicyPrincipal) → IsPrintable p → parse_principal (render p) ≡ ok p
unfolding parse_principal parse_arn_parts
parse_principal-render any h = refl
parse_principal-render (account a) h = ground (arith, eq_iff a "*")
parse_principal-render (user a n) h =
    rw (parse_arn "iam" a ("user/" ⊕ n) lacks_services.0 h) (ground (arith, parse_user a n))
parse_principal-render (role a n) h =
    rw (parse_arn "iam" a ("role/" ⊕ n) lacks_services.0 h) (ground (arith, parse_role a n))
parse_principal-render (assumed_role a r s) (h, k) =
    rw (parse_arn "sts" a ("assumed-role/" ⊕ (r ⊕ ("/" ◂ s))) lacks_services.1 h)
      (ground (arith, parse_assumed_role a r s k))
parse_principal-render (service name) h = absurd h
