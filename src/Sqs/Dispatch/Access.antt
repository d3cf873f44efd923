-- ===== src/Sqs/Dispatch/Access.antt =====
-- What `resolve_authorization` of hiraeth_sqs/src/auth.rs asks the authorizer.
use hiraeth.Common.{
  ◌≢◌, ◌⊎◌, ◌⊕◌, eq_iff, map_err-eq-ok, ap, ◌∙◌, ℕ, String, false, List, Option, none, some, ◌==◌,
  find, ◌≡◌, inl, inr, refl, Bool-cases, Result, ok, map_err, ok_or, ok_or-eq-ok, step, done,
  Yields,
}
use hiraeth.Auth.Policy.{Policy, default_policy}
use hiraeth.Core.Request.{ResolvedRequest}
use hiraeth.Iam.Authorize.{AuthorizationCheck}
use hiraeth.Sqlite.Sqs.{Db, get_queue, same_identity}
use hiraeth.Sqs.Attributes.{unwrap_or}
use hiraeth.Sqs.Dispatch.{
  get_queue_by_request, get_queue_from_request, get_queue_url_from_request,
  get_relevant_queue_for_action, policy_of, resolve_authorization, resource_of,
}
use hiraeth.Sqs.Error.{bad_request}
use hiraeth.Sqs.Util.{QueueId, get_queue_arn, load_queue_from_url, parse_queue_url}
use hiraeth.Store.Sqs.{SqsQueue}
use hiraeth.Sqs.Dispatch.Named.{IsNamed, find-IsNamed, find-no-IsNamed}

module _ (parse_url : String → Option (String × List String))
    (parse_get_queue_url : List ℕ → Result (String × Option String) String)
    (queue_url_field : List ℕ → Result (Option String) String)
    (parse_policy : String → Option Policy) (request : ResolvedRequest) (db : Db) where
  -- the account that a GetQueueUrl request names, or else the caller's
  abbrev pub owner_of : Option String → String
  owner_of none = request.auth_context.principal.account_id
  owner_of (some account_id) = account_id

  -- Which queue, if any, a request for an action is about.
  pub data Concerns (action : String) : Option SqsQueue → Type 0 where
    all_queues : (action ≡ "sqs:ListQueues") ⊎ (action ≡ "sqs:CreateQueue") → Concerns action none
    named_queue :
        (name : String) (owner : Option String) (queue : SqsQueue)
        → action ≡ "sqs:GetQueueUrl"
        → parse_get_queue_url request.request.body ≡ ok (name, owner)
        → IsNamed db name request.region (owner_of owner) queue
        → Concerns action (some queue)
    no_queue :
        (name : String) (owner : Option String)
        → action ≡ "sqs:GetQueueUrl"
        → parse_get_queue_url request.request.body ≡ ok (name, owner)
        → ((queue : SqsQueue) → IsNamed db name request.region (owner_of owner) queue → ⊥)
        → Concerns action none
    queue_of_url :
        (url : String) (id : QueueId) (queue : SqsQueue)
        → action ≢ "sqs:ListQueues"
        → action ≢ "sqs:CreateQueue"
        → action ≢ "sqs:GetQueueUrl"
        → queue_url_field request.request.body ≡ ok (some url)
        → parse_queue_url parse_url url request.region ≡ some id
        → IsNamed db id.name id.region id.account_id queue
        → Concerns action (some queue)

  owner-eq :
      (owner : Option String)
      → unwrap_or request.auth_context.principal.account_id owner ≡ owner_of owner
  owner-eq none = refl
  owner-eq (some account_id) = refl

  get_queue_by_request-Concerns :
      (action : String)
      → action ≡ "sqs:GetQueueUrl"
      → Yields (Concerns action) (
          get_queue_by_request parse_url parse_get_queue_url queue_url_field parse_policy request
            db)
  unfolding get_queue_by_request get_queue
  get_queue_by_request-Concerns action is =
      step (Concerns action)
        (map_err (λ e. bad_request e) (parse_get_queue_url request.request.body))
        (λ body parsed. λ o e.
          let found : find
                (λ q.
                  same_identity q body.0 request.region
                    (unwrap_or request.auth_context.principal.account_id body.1))
                db.queues
              ≡ o =
            cc e in
          outcome body (map_err-eq-ok _ _ parsed) o (rw (owner-eq body.1) at found))
    where
      outcome :
          (body : String × Option String)
          → parse_get_queue_url request.request.body ≡ ok body
          → (o : Option SqsQueue)
          → find (λ q. same_identity q body.0 request.region (owner_of body.1)) db.queues ≡ o
          → Concerns action o
      outcome body parsed none e =
          Concerns.no_queue body.0 body.1 is parsed (find-no-IsNamed db _ _ _ e)
      outcome body parsed (some queue) e =
          Concerns.named_queue body.0 body.1 queue is parsed (find-IsNamed db _ _ _ queue e)

  get_queue_url_from_request-field :
      Yields
        (λ url. queue_url_field request.request.body ≡ ok (some url))
        (get_queue_url_from_request parse_url parse_get_queue_url queue_url_field parse_policy
          request)
  unfolding get_queue_url_from_request
  get_queue_url_from_request-field =
      let P : String → Type 0 = λ url. queue_url_field request.request.body ≡ ok (some url) in
      step P
        (map_err (λ e. bad_request ("Invalid JSON body: " ⊕ e))
          (queue_url_field request.request.body))
        (λ field parsed. λ url e. map_err-eq-ok _ _ parsed ∙ ap (λ o. ok o) (ok_or-eq-ok _ field e))

  load_queue_from_url-IsNamed :
      (url : String)
      → Yields
          (λ queue.
            (id : QueueId) × (parse_queue_url parse_url url request.region ≡ some id)
            × IsNamed db id.name id.region id.account_id queue)
          (load_queue_from_url parse_url request.region db url)
  unfolding load_queue_from_url get_queue
  load_queue_from_url-IsNamed url =
      let P : SqsQueue → Type 0 = λ queue.
        (id : QueueId) × (parse_queue_url parse_url url request.region ≡ some id)
        × IsNamed db id.name id.region id.account_id queue in
      step P
        (ok_or (bad_request "Invalid queue url") (parse_queue_url parse_url url request.region))
        (λ id e.
          λ queue f. (id, ok_or-eq-ok _ _ e, find-IsNamed db _ _ _ queue (ok_or-eq-ok _ _ f)))

  get_queue_from_request-Concerns :
      (action : String)
      → action ≢ "sqs:ListQueues"
      → action ≢ "sqs:CreateQueue"
      → action ≢ "sqs:GetQueueUrl"
      → Yields
          (λ queue. Concerns action (some queue))
          (get_queue_from_request parse_url parse_get_queue_url queue_url_field parse_policy request
            db)
  unfolding get_queue_from_request
  get_queue_from_request-Concerns action not_list not_create not_get =
      let P : SqsQueue → Type 0 = λ queue. Concerns action (some queue) in
      step P
        (get_queue_url_from_request parse_url parse_get_queue_url queue_url_field parse_policy
          request)
        (λ url e. λ queue f.
          let (id, parsed, named) = load_queue_from_url-IsNamed url queue f in
          Concerns.queue_of_url url id queue not_list not_create not_get
            (get_queue_url_from_request-field url e) parsed named)

  not_equal : (a b : String) → (a == b) ≡ false → a ≢ b
  not_equal a b e same = cc (e, (eq_iff a b).1 same)

  get_relevant_queue_for_action-Concerns :
      (action : String)
      → Yields (Concerns action) (
          get_relevant_queue_for_action parse_url parse_get_queue_url queue_url_field parse_policy
            action request db)
  unfolding get_relevant_queue_for_action
  get_relevant_queue_for_action-Concerns action =
      let P = Concerns action in
      elim (Bool-cases (action == "sqs:ListQueues")) [
        | inl e ↦ rw e (done P none (Concerns.all_queues (inl ((eq_iff _ _).0 e))))
        | inr e ↦ elim (Bool-cases (action == "sqs:CreateQueue")) [
          | inl f ↦ rw (e, f) (done P none (Concerns.all_queues (inr ((eq_iff _ _).0 f))))
          | inr f ↦ elim (Bool-cases (action == "sqs:GetQueueUrl")) [
            | inl g ↦ rw (e, f, g) (get_queue_by_request-Concerns action ((eq_iff _ _).0 g))
            | inr g ↦
                rw (e, f, g)
                  (step P
                    (get_queue_from_request parse_url parse_get_queue_url queue_url_field
                      parse_policy request db)
                    (λ queue h. done P (some queue) (
                      get_queue_from_request-Concerns action (not_equal _ _ e) (not_equal _ _ f)
                        (not_equal _ _ g) queue h)))
          ]
        ]
      ]

  -- what the check names and which policy it carries
  abbrev pub IsAbout : AuthorizationCheck → Option SqsQueue → Type 0
  IsAbout check none =
      (check.resource
        ≡ "arn:aws:sqs:" ⊕ request.region ⊕ ":" ⊕ request.auth_context.principal.account_id ⊕ ":*")
      × (check.resource_policy ≡ none)
  IsAbout check (some queue) =
      (check.resource ≡ "arn:aws:sqs:" ⊕ queue.region ⊕ ":" ⊕ queue.account_id ⊕ ":" ⊕ queue.name)
      × (check.resource_policy ≡ some (unwrap_or default_policy (parse_policy queue.policy)))

  -- The check that a request needs is for the action it was asked for. For a listing or a creation it is
  -- about all queues of the caller's account and region, without a policy; for GetQueueUrl, about the
  -- stored queue with the name and the owner in the body, or as before when there is none; for any other
  -- action, about the stored queue that the QueueUrl in the body names. Of a queue it has the ARN and
  -- the policy, which is the empty one when it cannot be read.
  pub resolve_authorization-IsAbout :
      (action : String) (check : AuthorizationCheck)
      → resolve_authorization parse_url parse_get_queue_url queue_url_field parse_policy action
          request db
        ≡ ok check
      → (check.action ≡ action)
        × ((relevant : Option SqsQueue) × Concerns action relevant × IsAbout check relevant)
  unfolding resolve_authorization
  resolve_authorization-IsAbout action =
      let P : AuthorizationCheck → Type 0 = λ check.
        (check.action ≡ action)
        × ((relevant : Option SqsQueue) × Concerns action relevant × IsAbout check relevant) in
      step P
        (get_relevant_queue_for_action parse_url parse_get_queue_url queue_url_field parse_policy
          action request db)
        (λ o e. done P _ (refl, (o, get_relevant_queue_for_action-Concerns action o e, about o)))
    where
      about :
          (o : Option SqsQueue)
          → IsAbout
              (record {
                action = action;
                resource =
                    resource_of parse_url parse_get_queue_url queue_url_field parse_policy request
                      o;
                resource_policy =
                    policy_of parse_url parse_get_queue_url queue_url_field parse_policy o;
              })
              o
      about none = (refl, refl)
      about (some queue) = (unfold get_queue_arn in refl, refl)
