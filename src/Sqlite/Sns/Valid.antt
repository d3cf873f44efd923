-- ===== src/Sqlite/Sns/Valid.antt =====
-- The invariant that the keys and the foreign key of the tables give
-- (hiraeth_store_sqlx/migrations), and that hiraeth_store_sqlx/src/sns.rs keeps it when it inserts.
use hiraeth.Common.{
  ℕ, suc, ◌≤◌, String, Bool, true, false, List, [], ◌∷◌, ◌++◌, map, ◌==◌, eqb, any, ◌≡◌, ◌≢◌, refl,
  ap, inl, inr, arith, Bool-cases, All, All-append, All-mem, mem-All, Distinct, Distinct-concat,
  any-false-All, any-append, eq_refl,
}
use hiraeth.Sqlite.Sns.{Db, create_subscription, create_topic, is_topic}
use hiraeth.Store.Sns.{SnsTopic, SnsSubscription}

abbrev pub identity : SnsTopic → String × String × String
identity t = (t.name, t.region, t.account_id)

abbrev pub has_topic : ℕ → List SnsTopic → Bool
has_topic id topics = any (λ t. eqb t.id id) topics

-- ids given out once, the unique columns, and every tag on a topic that exists
pub record IsValid (db : Db) : Type 0 where
  pub topic_ids : Distinct (λ t. t.id) db.topics
  pub topic_ids_given : All (λ t. t.id ≤ db.last_topic_id) db.topics
  pub identities : Distinct identity db.topics
  pub subscription_ids : Distinct (λ s. s.id) db.subscriptions
  pub subscription_ids_given : All (λ s. s.id ≤ db.last_subscription_id) db.subscriptions
  pub subscription_arns : Distinct (λ s. s.subscription_arn) db.subscriptions
  pub tagged : All (λ row. has_topic row.topic_id db.topics ≡ true) db.tags

eq_true : {s t : String} → s ≡ t → (s == t) ≡ true
eq_true {s} {t} e = rw e (eq_refl t)

module _ {A : Type 0} (id : A → ℕ) where
  fresh : (last : ℕ) (xs : List A) → All (λ x. id x ≤ last) xs → All (λ x. id x ≢ suc last) xs
  fresh last xs h =
      mem-All _ xs (λ x m e. let bound = All-mem (λ y. id y ≤ last) xs h m in omega arith)

  given_next :
      (last : ℕ) (xs : List A) (new : A)
      → id new ≡ suc last
      → All (λ x. id x ≤ last) xs
      → All (λ x. id x ≤ suc last) (xs ++ new ∷ [])
  given_next last xs new e h =
      All-append (λ x. id x ≤ suc last) xs (new ∷ [])
        (mem-All _ xs (λ x m. let bound = All-mem (λ y. id y ≤ last) xs h m in omega arith))
        (omega arith, tt)

  pub given_map :
      (last : ℕ) (f : A → A) (xs : List A)
      → ((x : A) → id (f x) ≡ id x)
      → All (λ x. id x ≤ last) xs
      → All (λ x. id x ≤ last) (map f xs)
  given_map last f [] same h = tt
  given_map last f (x ∷ xs) same (h, hs) =
      (let e = same x in omega arith, given_map last f xs same hs)

  pub any-map :
      (i : ℕ) (f : A → A) (xs : List A)
      → ((x : A) → id (f x) ≡ id x)
      → any (λ x. eqb (id x) i) (map f xs) ≡ any (λ x. eqb (id x) i) xs
  any-map i f [] same = refl
  any-map i f (x ∷ xs) same = rw (same x, any-map i f xs same)

module _ (unique_message : String) where
  pub create_topic-IsValid :
      (topic : SnsTopic) (db : Db) → IsValid db → IsValid (create_topic unique_message topic db).1
  unfolding create_topic
  create_topic-IsValid topic db v =
      elim (Bool-cases (any (is_topic topic.name topic.region topic.account_id) db.topics)) [
        | inl e ↦ rw e v
        | inr e ↦ rw e (record {
          topic_ids =
              Distinct-concat (λ t. t.id) db.topics _ v.topic_ids
                (fresh (λ t. t.id) db.last_topic_id db.topics v.topic_ids_given);
          topic_ids_given =
              given_next (λ t. t.id) db.last_topic_id db.topics _ refl v.topic_ids_given;
          identities = Distinct-concat identity db.topics _ v.identities (
              mem-All _ db.topics
                (λ t m same. differs t (All-mem _ db.topics (any-false-All _ db.topics e) m) same));
          subscription_ids = v.subscription_ids;
          subscription_ids_given = v.subscription_ids_given;
          subscription_arns = v.subscription_arns;
          tagged = mem-All _ db.tags (λ row m.
              any-append (λ t. eqb t.id row.topic_id) db.topics _ (All-mem _ db.tags v.tagged m));
        })
      ]
    where
      differs :
          (t : SnsTopic)
          → is_topic topic.name topic.region topic.account_id t ≡ false
          → identity t ≢ identity topic
      differs t h same = absurd (
          cc (
            h,
            eq_true (ap (λ i. i.0) same),
            eq_true (ap (λ i. i.1) same),
            eq_true (ap (λ i. i.2) same),
          ))

  pub create_subscription-IsValid :
      (subscription : SnsSubscription) (db : Db)
      → IsValid db
      → IsValid (create_subscription unique_message subscription db).1
  unfolding create_subscription
  create_subscription-IsValid subscription db v =
      elim (Bool-cases
        (any (λ s. s.subscription_arn == subscription.subscription_arn) db.subscriptions)) [
          | inl e ↦ rw e v
          | inr e ↦ rw e (record {
            topic_ids = v.topic_ids;
            topic_ids_given = v.topic_ids_given;
            identities = v.identities;
            subscription_ids =
                Distinct-concat (λ s. s.id) db.subscriptions _ v.subscription_ids
                  (fresh (λ s. s.id) db.last_subscription_id db.subscriptions
                    v.subscription_ids_given);
            subscription_ids_given =
                given_next (λ s. s.id) db.last_subscription_id db.subscriptions _ refl
                  v.subscription_ids_given;
            subscription_arns =
                Distinct-concat (λ s. s.subscription_arn) db.subscriptions _ v.subscription_arns
                  (mem-All _ db.subscriptions (λ s m same. absurd (
                    cc (
                      All-mem _ db.subscriptions (any-false-All _ db.subscriptions e) m,
                      eq_true same,
                    ))));
            tagged = v.tagged;
          })
        ]
