-- ===== src/Sqlite/Sns/Laws.antt =====
-- What deleting a topic and setting its attributes do (hiraeth_store_sqlx/src/sns.rs).
use hiraeth.Common.{
  ℕ, String, Bool, true, false, not, ◌&&◌, List, [], ◌∷◌, map, Option, none, some, ◌==◌, eqb, any,
  keep, ◌≡◌, refl, ap, ◌∙◌, inl, inr, arith, Bool-cases, ok, err, split, ◌⊕◌, All, mem-All,
  mem-keep, Some-any, map_option, find-some, find-none, find-keep-not, find-map, keep-keep-not,
  keep-All,
}
use mathlib.Core.List.{Memᴰ}
use hiraeth.Sqlite.Sns.Topics.{set_topic_attributes}
use hiraeth.Sqlite.Sns.Updated.{IsSetOn, after_update, after_update-IsSetOn}
use hiraeth.Sqlite.Sns.{
  Db, TagRow, delete_topic, delete_topic_rows, find_topic, get_topic, is_topic,
  list_subscriptions_by_topic, topic_parts,
}
use hiraeth.Store.Sns.{SnsTopic, SnsTopicAttributeUpdate}
use hiraeth.Store.{not_found}

-- `format!("arn:aws:sns:{region}:{account_id}:{topic_name}")`
abbrev pub topic_arn_of : String → String → String → String
topic_arn_of account_id region topic_name =
    "arn:aws:sns:" ⊕ region ⊕ ":" ⊕ account_id ⊕ ":" ⊕ topic_name

abbrev Parts : Type 0
Parts = Option (String × String × String)

-- no tag row is of the topic
abbrev pub NoTags : ℕ → List TagRow → Type 0
NoTags id = All (λ row. eqb row.topic_id id ≡ false)

delete_topic_rows-missing :
    (topic_arn : String) (parts : Parts) (db : Db)
    → find_topic parts db.topics ≡ none
    → delete_topic_rows topic_arn parts db ≡ (err (not_found "topic not found"), db)
delete_topic_rows-missing topic_arn none db h = refl
delete_topic_rows-missing topic_arn (some (region, account_id, name)) db h =
    let all_kept =
      keep-All
        (λ row.
          not (any (λ t. is_topic name region account_id t && eqb t.id row.topic_id) db.topics))
        db.tags (mem-All _ db.tags (λ row m. rw (untagged row))) in
    rw (absent, all_kept)
  where
    absent : any (is_topic name region account_id) db.topics ≡ false
    absent = find-none _ db.topics h

    none_of :
        (p q : SnsTopic → Bool) (ts : List SnsTopic)
        → any p ts ≡ false
        → any (λ t. p t && q t) ts ≡ false
    none_of p q [] e = refl
    none_of p q (t ∷ ts) e = elim (Bool-cases (p t)) [
      | inl k ↦ absurd (cc (rw k at e))
      | inr k ↦ rw k (none_of p q ts (rw k at e))
    ]

    untagged :
        (row : TagRow)
        → any (λ t. is_topic name region account_id t && eqb t.id row.topic_id) db.topics ≡ false
    untagged row = none_of _ (λ t. eqb t.id row.topic_id) db.topics absent

-- Deleting an ARN that names no topic is the error that says so, and leaves every row.
pub delete_topic-missing :
    (topic_arn : String) (db : Db)
    → (get_topic topic_arn db).0 ≡ ok none
    → delete_topic topic_arn db ≡ (err (not_found "topic not found"), db)
unfolding delete_topic get_topic
delete_topic-missing topic_arn db h =
    delete_topic_rows-missing topic_arn (topic_parts (split 58 topic_arn)) db (cc h)

delete_topic_rows-found :
    (topic_arn : String) (parts : Parts) (topic : SnsTopic) (db : Db)
    → find_topic parts db.topics ≡ some topic
    → ((delete_topic_rows topic_arn parts db).0 ≡ ok tt)
      × (find_topic parts (delete_topic_rows topic_arn parts db).1.topics ≡ none)
      × (keep (λ s. s.topic_arn == topic_arn) (delete_topic_rows topic_arn parts db).1.subscriptions
          ≡ [])
      × NoTags topic.id (delete_topic_rows topic_arn parts db).1.tags
delete_topic_rows-found topic_arn none topic db h = absurd (cc h)
delete_topic_rows-found topic_arn (some (region, account_id, name)) topic db h =
    let (there, named) = find-some _ db.topics topic h in
    rw (Some-any (is_topic name region account_id) db.topics (topic, there, named)) (
      refl,
      find-keep-not _ db.topics,
      keep-keep-not _ db.subscriptions,
      mem-All _ _ (λ row m. untagged there named row (mem-keep _ db.tags m).1),
    )
  where
    untagged :
        Memᴰ topic db.topics
        → is_topic name region account_id topic ≡ true
        → (row : TagRow)
        → not (any (λ t. is_topic name region account_id t && eqb t.id row.topic_id) db.topics)
          ≡ true
        → eqb row.topic_id topic.id ≡ false
    untagged there named row kept = elim (Bool-cases (eqb row.topic_id topic.id)) [
      | inr e ↦ e
      | inl e ↦
          let owned : eqb topic.id row.topic_id ≡ true = ground arith in
          let both : (is_topic name region account_id topic && eqb topic.id row.topic_id) ≡ true =
            rw (named, owned) in
          let owner : any (λ t. is_topic name region account_id t && eqb t.id row.topic_id)
                db.topics
              ≡ true =
            Some-any _ db.topics (topic, there, both) in
          absurd (cc (rw owner at kept))
    ]

-- Deleting an ARN that names a topic succeeds, and then the ARN names no topic, has no subscription,
-- and the topic has no tag.
pub delete_topic-found :
    (topic_arn : String) (topic : SnsTopic) (db : Db)
    → (get_topic topic_arn db).0 ≡ ok (some topic)
    → ((delete_topic topic_arn db).0 ≡ ok tt)
      × ((get_topic topic_arn (delete_topic topic_arn db).1).0 ≡ ok none)
      × ((list_subscriptions_by_topic topic_arn (delete_topic topic_arn db).1).0 ≡ ok [])
      × NoTags topic.id (delete_topic topic_arn db).1.tags
unfolding delete_topic get_topic list_subscriptions_by_topic
delete_topic-found topic_arn topic db h =
    let (a, b, c, d) =
      delete_topic_rows-found topic_arn (topic_parts (split 58 topic_arn)) topic db (cc h) in
    (a, ap ok b, ap ok c, d)

find_topic-map :
    (f : SnsTopic → SnsTopic) (parts : Parts) (topics : List SnsTopic)
    → ((name region account_id : String) (t : SnsTopic)
        → is_topic name region account_id (f t) ≡ is_topic name region account_id t)
    → find_topic parts (map f topics) ≡ map_option f (find_topic parts topics)
find_topic-map f none topics same = refl
find_topic-map f (some (region, account_id, name)) topics same =
    find-map _ f topics (same name region account_id)

set_topic_attributes-found :
    (account_id region topic_name : String) (update : SnsTopicAttributeUpdate) (topic : SnsTopic)
    (other : String) (found : Option SnsTopic) (db : Db)
    → (get_topic (topic_arn_of account_id region topic_name) db).0 ≡ ok (some topic)
    → (get_topic other db).0 ≡ ok found
    → ((set_topic_attributes account_id region topic_name update db).0 ≡ ok tt)
      × ((get_topic other (set_topic_attributes account_id region topic_name update db).1).0
          ≡ ok (map_option (after_update update topic) found))
unfolding get_topic set_topic_attributes
set_topic_attributes-found account_id region topic_name update topic other found db h k =
    let seen : find_topic (topic_parts (split 58 (topic_arn_of account_id region topic_name)))
          db.topics
        ≡ some topic =
      cc h in
    let before : find_topic (topic_parts (split 58 other)) db.topics ≡ found = cc k in
    rw seen (
      refl,
      ap ok (
          find_topic-map (after_update update topic) (topic_parts (split 58 other)) db.topics
            (λ name region account_id t. ground arith)
          ∙ ap (map_option (after_update update topic)) before),
    )

-- When the ARN made of an account, a region and a name names a topic, setting its attributes succeeds.
-- Any ARN then names nothing if it named nothing; if it named that topic, it names a topic with each
-- attribute that was given replaced and all else as before; if another, the same topic as before.
pub set_topic_attributes-get_topic :
    (account_id region topic_name : String) (update : SnsTopicAttributeUpdate) (topic : SnsTopic)
    (other : String) (found : Option SnsTopic) (db : Db)
    → (get_topic (topic_arn_of account_id region topic_name) db).0 ≡ ok (some topic)
    → (get_topic other db).0 ≡ ok found
    → ((set_topic_attributes account_id region topic_name update db).0 ≡ ok tt)
      × ((after : Option SnsTopic) × ((get_topic other
              (set_topic_attributes account_id region topic_name update db).1).0
            ≡ ok after)
          × IsSetOn update topic found after)
set_topic_attributes-get_topic account_id region topic_name update topic other found db h k =
    let (set, same) =
      set_topic_attributes-found account_id region topic_name update topic other found db h k in
    (
      set,
      (map_option (after_update update topic) found, same, after_update-IsSetOn update topic found),
    )
