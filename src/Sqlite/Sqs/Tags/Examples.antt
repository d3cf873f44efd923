-- ===== src/Sqlite/Sqs/Tags/Examples.antt =====
-- Tagging a queue, tagging it again and untagging it.
use hiraeth.Common.{[], ◌∷◌, List, ◌≡◌, refl, ok}
use hiraeth.Core.Request.{get}
use hiraeth.Sqlite.Sqs.Admin.{list_queue_tags, tag_queue, untag_queue}
use hiraeth.Sqlite.Sqs.Tags.Laws.{list_queue_tags-replay}
use hiraeth.Sqlite.Sqs.Tags.{TagCommand, replay, run_tags, tag, tags_of, untag}
use hiraeth.Sqlite.Sqs.{Db}
use hiraeth.Store.Sqs.{default_queue}

abbrev one_queue : Db
one_queue = record {
  queues = record default_queue { id = 1; name = "q" } ∷ [];
  messages = [];
  tags = [];
}

abbrev commands : List TagCommand
commands =
    tag (("team", "a") ∷ ("env", "dev") ∷ [])
    ∷ tag (("env", "prod") ∷ [])
    ∷ untag ("team" ∷ [])
    ∷ []

listed : (list_queue_tags 1 (run_tags 1 commands one_queue)).0 ≡ ok (("env", "prod") ∷ [])
unfolding list_queue_tags run_tags tag_queue untag_queue
listed = refl

list_queue_tags-replay_example :
    get "env" (("env", "prod") ∷ []) ≡ replay commands (tags_of 1 []) "env"
list_queue_tags-replay_example =
    list_queue_tags-replay 1 commands one_queue (("env", "prod") ∷ []) "env" refl listed
