-- ===== src/Sqs/Dispatch/Named.antt =====
-- What `get_queue` of hiraeth_store_sqlx/src/sqs.rs finds for hiraeth_sqs/src/auth.rs.
use hiraeth.Common.{
  eq_iff, true, find-some, find-none, Some-any, arith, String, none, some, find, ◌≡◌,
}
use mathlib.Core.List.{Memᴰ}
use hiraeth.Sqlite.Sqs.{Db, same_identity}
use hiraeth.Store.Sqs.{SqsQueue}

-- A stored queue with this name in this region and account.
pub record IsNamed (db : Db) (name region account_id : String) (queue : SqsQueue) : Type 0 where
  pub stored : Memᴰ queue db.queues
  pub same_name : queue.name ≡ name
  pub same_region : queue.region ≡ region
  pub same_account : queue.account_id ≡ account_id

same_identity-parts :
    (q : SqsQueue) (name region account_id : String)
    → same_identity q name region account_id ≡ true
    → (q.name ≡ name) × (q.region ≡ region) × (q.account_id ≡ account_id)
same_identity-parts q name region account_id h =
    ((eq_iff _ _).0 (ground arith), (eq_iff _ _).0 (ground arith), (eq_iff _ _).0 (ground arith))

pub find-IsNamed :
    (db : Db) (name region account_id : String) (queue : SqsQueue)
    → find (λ q. same_identity q name region account_id) db.queues ≡ some queue
    → IsNamed db name region account_id queue
find-IsNamed db name region account_id queue e =
    let (m, t) = find-some _ db.queues queue e in
    let (n, r, a) = same_identity-parts queue name region account_id t in
    record { stored = m; same_name = n; same_region = r; same_account = a }

pub find-no-IsNamed :
    (db : Db) (name region account_id : String)
    → find (λ q. same_identity q name region account_id) db.queues ≡ none
    → (queue : SqsQueue) → IsNamed db name region account_id queue
    → ⊥
find-no-IsNamed db name region account_id e queue named =
    let missing = find-none (λ q. same_identity q name region account_id) db.queues e in
    let n = (eq_iff _ _).1 named.same_name in
    let r = (eq_iff _ _).1 named.same_region in
    let a = (eq_iff _ _).1 named.same_account in
    let same : same_identity queue name region account_id ≡ true = rw (n, r, a) in
    absurd (
      cc (
        missing,
        Some-any (λ q. same_identity q name region account_id) db.queues
            (queue, named.stored, same),
      ))
