-- ===== src/Sqlite/Sqs/Tags/Laws.antt =====
-- The tag operations of hiraeth_store_sqlx/src/sqs.rs on the rows, seen as operations on the maps.
use hiraeth.Common.{
  ℕ, String, Bool, true, false, not, ◌&&◌, List, [], ◌∷◌, some, ◌==◌, eqb, eq_iff, keep,
  if◌then◌else◌, ◌≡◌, refl, sym, ap, ◌∙◌, inl, inr, arith, Bool-cases, ok,
}
use mathlib.Core.Path.{fun_ext}
use hiraeth.Sqlite.Sqs.Admin.{has_tag, remove_tags, tag_queue, untag_queue, upsert_tag, upsert_tags}
use hiraeth.Sqlite.Sqs.{Db, TagRow, has_queue}
use mathlib.Core.List.{map}
use hiraeth.Common.{text_ltb, insert_ordered, order_by, text_ltb_irrefl}
use hiraeth.Core.Request.{get}
use hiraeth.Sqlite.Sqs.Admin.{list_queue_tags}
use hiraeth.Sqlite.Sqs.Tags.{
  TagCommand, tag, untag, insert, remove, insert_all, remove_all, replay, run_tags, tags_of,
}

and_right : (a b : Bool) → (a && b) ≡ true → b ≡ true
and_right a b h = ground arith

eqb_refl : (n : ℕ) → eqb n n ≡ true
eqb_refl n = ground arith

-- A row with one key has no other.
has_tag_other :
    (queue_id : ℕ) (key other : String) (row : TagRow)
    → has_tag queue_id key row ≡ true
    → (key == other) ≡ false
    → has_tag queue_id other row ≡ false
has_tag_other queue_id key other row h e = elim (Bool-cases (has_tag queue_id other row)) [
  | inr f ↦ f
  | inl f ↦
      let is_key : row.tag_key ≡ key = (eq_iff _ _).0 (and_right (eqb row.queue_id queue_id) _ h) in
      let is_other : row.tag_key ≡ other =
        (eq_iff _ _).0 (and_right (eqb row.queue_id queue_id) _ f) in
      absurd (cc ((eq_iff key other).1 (sym is_key ∙ is_other), e))
]

upsert_tag-tags_of :
    (queue_id : ℕ) (key value : String) (rows : List TagRow) (other : String)
    → tags_of queue_id (upsert_tag queue_id key value rows) other
      ≡ insert key value (tags_of queue_id rows) other
unfolding tags_of upsert_tag
upsert_tag-tags_of queue_id key value [] other = elim (Bool-cases (key == other)) [
  | inl e ↦ rw (e, eqb_refl queue_id)
  | inr e ↦ rw (e, eqb_refl queue_id)
]
upsert_tag-tags_of queue_id key value (row ∷ rows) other =
    elim (Bool-cases (has_tag queue_id key row)) [
      | inl h ↦ elim (Bool-cases (key == other)) [
        | inl e ↦
            let there : has_tag queue_id other row ≡ true = rw (← (eq_iff _ _).0 e) h in
            rw (h, there, e)
        | inr e ↦ rw (h, has_tag_other queue_id key other row h e, e)
      ]
      | inr h ↦ elim (Bool-cases (has_tag queue_id other row)) [
        | inl there ↦ elim (Bool-cases (key == other)) [
          | inl e ↦ absurd (cc (ap (λ k. has_tag queue_id k row) ((eq_iff _ _).0 e), there, h))
          | inr e ↦ rw (h, there, e)
        ]
        | inr gone ↦ rw (h, gone) (upsert_tag-tags_of queue_id key value rows other)
      ]
    ]

keep-tags_of :
    (queue_id : ℕ) (key : String) (rows : List TagRow) (other : String)
    → tags_of queue_id (keep (λ row. not (has_tag queue_id key row)) rows) other
      ≡ remove key (tags_of queue_id rows) other
unfolding tags_of
keep-tags_of queue_id key [] other = elim (Bool-cases (key == other)) [
  | inl e ↦ rw e
  | inr e ↦ rw e
]
keep-tags_of queue_id key (row ∷ rows) other = elim (Bool-cases (has_tag queue_id key row)) [
  | inl h ↦ elim (Bool-cases (key == other)) [
    | inl e ↦ rw (h, e) (rw e at (keep-tags_of queue_id key rows other))
    | inr e ↦
        rw (h, has_tag_other queue_id key other row h e, e)
          (rw e at (keep-tags_of queue_id key rows other))
  ]
  | inr h ↦ elim (Bool-cases (has_tag queue_id other row)) [
    | inl there ↦ elim (Bool-cases (key == other)) [
      | inl e ↦ absurd (cc (ap (λ k. has_tag queue_id k row) ((eq_iff _ _).0 e), there, h))
      | inr e ↦ rw (h, there, e)
    ]
    | inr gone ↦ rw (h, gone) (keep-tags_of queue_id key rows other)
  ]
]

upsert_tags-tags_of :
    (queue_id : ℕ) (pairs : List (String × String)) (rows : List TagRow)
    → tags_of queue_id (upsert_tags queue_id pairs rows) ≡ insert_all pairs (tags_of queue_id rows)
unfolding upsert_tags
upsert_tags-tags_of queue_id [] rows = refl
upsert_tags-tags_of queue_id ((key, value) ∷ pairs) rows =
    upsert_tags-tags_of queue_id pairs (upsert_tag queue_id key value rows)
    ∙ ap (insert_all pairs) (fun_ext (upsert_tag-tags_of queue_id key value rows))

remove_tags-tags_of :
    (queue_id : ℕ) (keys : List String) (rows : List TagRow)
    → tags_of queue_id (remove_tags queue_id keys rows) ≡ remove_all keys (tags_of queue_id rows)
unfolding remove_tags
remove_tags-tags_of queue_id [] rows = refl
remove_tags-tags_of queue_id (key ∷ keys) rows =
    remove_tags-tags_of queue_id keys (keep (λ row. not (has_tag queue_id key row)) rows)
    ∙ ap (remove_all keys) (fun_ext (keep-tags_of queue_id key rows))

tag_queue-ok :
    (queue_id : ℕ) (pairs : List (String × String)) (db : Db)
    → has_queue queue_id db.queues ≡ true
    → (tag_queue queue_id pairs db).1 ≡ record db { tags = upsert_tags queue_id pairs db.tags }
unfolding tag_queue
tag_queue-ok queue_id pairs db h = rw h

untag_queue-ok :
    (queue_id : ℕ) (keys : List String) (db : Db)
    → has_queue queue_id db.queues ≡ true
    → (untag_queue queue_id keys db).1 ≡ record db { tags = remove_tags queue_id keys db.tags }
unfolding untag_queue
untag_queue-ok queue_id keys db h = rw h

-- Whatever is tagged and untagged, in whatever order, the rows of an existing queue hold the map
-- that the same commands make of the map before.
pub run_tags-replay :
    (queue_id : ℕ) (commands : List TagCommand) (db : Db)
    → has_queue queue_id db.queues ≡ true
    → tags_of queue_id (run_tags queue_id commands db).tags
      ≡ replay commands (tags_of queue_id db.tags)
unfolding run_tags
run_tags-replay queue_id [] db h = refl
run_tags-replay queue_id (tag pairs ∷ commands) db h =
    ap (λ d. tags_of queue_id (run_tags queue_id commands d).tags)
      (tag_queue-ok queue_id pairs db h)
    ∙ run_tags-replay queue_id commands (record db { tags = upsert_tags queue_id pairs db.tags }) h
    ∙ ap (replay commands) (upsert_tags-tags_of queue_id pairs db.tags)
run_tags-replay queue_id (untag keys ∷ commands) db h =
    ap (λ d. tags_of queue_id (run_tags queue_id commands d).tags)
      (untag_queue-ok queue_id keys db h)
    ∙ run_tags-replay queue_id commands (record db { tags = remove_tags queue_id keys db.tags }) h
    ∙ ap (replay commands) (remove_tags-tags_of queue_id keys db.tags)

abbrev pair_of : TagRow → String × String
pair_of row = (row.tag_key, row.tag_value)

abbrev by_key : TagRow → TagRow → Bool
by_key a b = text_ltb a.tag_key b.tag_key

before_differs :
    (first other key : String)
    → text_ltb first other ≡ true
    → (first == key) ≡ true
    → (other == key) ≡ false
before_differs first other key h e = elim (Bool-cases (other == key)) [
  | inr f ↦ f
  | inl f ↦
      let same : first ≡ other = (eq_iff _ _).0 e ∙ sym ((eq_iff _ _).0 f) in
      absurd (cc (text_ltb_irrefl other, rw same at h))
]

insert_ordered-get :
    (row : TagRow) (rows : List TagRow) (key : String)
    → get key (map pair_of (insert_ordered by_key row rows))
      ≡ (if row.tag_key == key then some row.tag_value else get key (map pair_of rows))
unfolding insert_ordered get
insert_ordered-get row [] key = refl
insert_ordered-get row (first ∷ rows) key = elim (Bool-cases (text_ltb first.tag_key row.tag_key)) [
  | inr after ↦ rw after
  | inl before ↦ elim (Bool-cases (first.tag_key == key)) [
    | inl e ↦ rw (before, e, before_differs first.tag_key row.tag_key key before e)
    | inr e ↦ rw (before, e) (insert_ordered-get row rows key)
  ]
]

order_by-get :
    (rows : List TagRow) (key : String)
    → get key (map pair_of (order_by by_key rows)) ≡ get key (map pair_of rows)
unfolding order_by get
order_by-get [] key = refl
order_by-get (row ∷ rows) key =
    insert_ordered-get row (order_by by_key rows) key
    ∙ ap (λ o. if row.tag_key == key then some row.tag_value else o) (order_by-get rows key)

keep-get :
    (queue_id : ℕ) (rows : List TagRow) (key : String)
    → get key (map pair_of (keep (λ row. eqb row.queue_id queue_id) rows))
      ≡ tags_of queue_id rows key
unfolding get tags_of
keep-get queue_id [] key = refl
keep-get queue_id (row ∷ rows) key = elim (Bool-cases (eqb row.queue_id queue_id)) [
  | inr e ↦ rw e (keep-get queue_id rows key)
  | inl e ↦ elim (Bool-cases (row.tag_key == key)) [
    | inl f ↦ rw (e, f)
    | inr f ↦ rw (e, f) (keep-get queue_id rows key)
  ]
]

-- The listing of a queue's tags answers each key with what the map of the queue has under it.
pub list_queue_tags-tags_of :
    (queue_id : ℕ) (db : Db) (pairs : List (String × String)) (key : String)
    → (list_queue_tags queue_id db).0 ≡ ok pairs
    → get key pairs ≡ tags_of queue_id db.tags key
unfolding list_queue_tags
list_queue_tags-tags_of queue_id db pairs key h = elim (Bool-cases (has_queue queue_id db.queues)) [
  | inr e ↦ absurd (cc (rw e at h))
  | inl e ↦
      let listed : map pair_of (order_by by_key (keep (λ row. eqb row.queue_id queue_id) db.tags))
          ≡ pairs =
        cc (rw e at h) in
      rw (← listed) (
        order_by-get (keep (λ row. eqb row.queue_id queue_id) db.tags) key
        ∙ keep-get queue_id db.tags key)
]

-- Whatever is tagged and untagged, in whatever order, the listing of an existing queue's tags then
-- answers each key as the map that the same commands make of the tags before.
pub list_queue_tags-replay :
    (queue_id : ℕ) (commands : List TagCommand) (db : Db) (pairs : List (String × String))
    (key : String)
    → has_queue queue_id db.queues ≡ true
    → (list_queue_tags queue_id (run_tags queue_id commands db)).0 ≡ ok pairs
    → get key pairs ≡ replay commands (tags_of queue_id db.tags) key
list_queue_tags-replay queue_id commands db pairs key h listed =
    list_queue_tags-tags_of queue_id (run_tags queue_id commands db) pairs key listed
    ∙ ap (λ tags. tags key) (run_tags-replay queue_id commands db h)
