-- ===== src/Lib.antt =====
-- A model of Hiraeth, a local emulator of AWS services, and what its code guarantees.
--
-- A request is authenticated by its signature (hiraeth_auth) and goes through the router
-- (hiraeth_router): the first service that can handle it resolves
-- what the request needs to be allowed, the authorizer (hiraeth_iam) decides on it with the caller's
-- policies and the resource's (hiraeth_core/src/auth), and the service validates and handles it. The
-- queue service (hiraeth_sqs) keeps queues and messages in a store (hiraeth_store), which is three
-- tables of a SQLite database (hiraeth_store_sqlx). The notification service (hiraeth_sns) keeps
-- topics and subscriptions in a store of its own and delivers what is published to the queues.
--
-- Where the parts are modelled:
--   Common     shared names, tests, lists, texts, results, keys
--   Core       hiraeth_core/src/request.rs, protocol.rs, lib.rs, action.rs: requests, responses,
--              errors, actions and their registry
--   Auth       hiraeth_core/src/auth: Principal/Parse reads principals, Eval evaluates policies
--   SigV4      hiraeth_auth/src: Params reads the authorization header, Encode and Canonical build the
--              canonical request, Verify checks the signature, Authenticate adds the context
--   Iam        hiraeth_iam/src/authorize.rs: `authorize` in each mode
--   Router     hiraeth_router/src: `route` over a list of services that share a state
--   Store      hiraeth_store/src: StoreError, and the records of queues, messages, topics and
--              subscriptions
--   Sqlite     hiraeth_store_sqlx/src/sqs.rs: one function from tables to tables for each operation;
--              Receive has the transaction of `receive_messages`, Admin listing, attributes and tags,
--              Tags the maps that tags stand for, Reach the sequences of operations. Sqlite/Sns is
--              hiraeth_store_sqlx/src/sns.rs: topics, subscriptions and tags, in the same way
--   Sqs        hiraeth_sqs/src: Error, Util (the checks of util.rs), Digest (the stored form and the
--              md5 of message attributes in util.rs), Attributes
--              (actions/queue_attribute_support.rs), Create (actions/create_queue.rs,
--              set_queue_attributes.rs, tag_queue.rs and their supports), Queues (the other handlers on
--              queues), Messages (sending, deleting and changing visibility), Batches
--              (actions/send_message_batch.rs, change_message_visibility_batch.rs and operations.rs),
--              Receive (actions/receive_message.rs with its long poll), Dispatch (auth.rs, lib.rs and
--              the names in actions/mod.rs)
--   Sns        hiraeth_sns/src: Error, Support (the ARNs of actions/action_support.rs), Publish
--              (actions/publish.rs), Subscriptions (actions/subscribe.rs, unsubscribe.rs and
--              delete_topic.rs); Enqueue and Delivery follow a message into the queues
--
-- State and conventions. A store operation is a function from the tables to a result and the tables
-- after it; a handler takes the tables, the request, its clock and the uuid that it draws. A service
-- of the router acts on a state of any type. Numbers are natural numbers: row ids, times (nanoseconds
-- since 1970) and columns that hold what a range check let through; a number of a request is an
-- integer, as it may be negative. Maps are lists of entries in the order of iteration. Every loop is
-- a recursion on a list or a text, but for two: the writing of a number in decimal stops after 20
-- digits, more than a 64-bit number has, and the long poll of a receive request takes one of its fuel
-- for each attempt. The poll takes the readings of the clock, which may run either way, and what other
-- requests do to the tables while it sleeps, by the number of the attempt. Where the clock does not run
-- backwards and no sleep ends early, attempts are 100 milliseconds apart until the deadline, which is 20
-- seconds away at most, so 201 are enough. `receive_messages` is a transaction on a connection: what is
-- committed, which is what every other connection reads, and the tables as the transaction has them.
-- A connection is idle when it is taken; what a connection that was left in a transaction does to
-- whoever takes it next is not modelled.
--
-- Parameters. The wildmatch crate (`wild`), serde_json (`parse_policy`, `json_error`, `policy_error`,
-- `to_json`), the url crate (`parse_url`), base64 (`decode_base64`), md5 (`md5`), sha2
-- (`sha256`), hmac (`hmac`), hex (`hex`), chrono's reading and writing of dates (`parse_date`,
-- `rfc3339`), the writer of an object (`json_object`), the random receipt handles of SQLite, its clock,
-- its LIKE and its error messages are arguments of the definitions that use them.
--
-- Not modelled: tracing and logging, which no result depends on; reading and writing JSON; failures
-- of the database outside `receive_messages`; overflow of times beyond what chrono can name outside
-- `receive_messages`; the actions that hiraeth_sqs/src/actions/mod.rs registers, as entries of the
-- registry, of which only the names are modelled; the other actions of the notification service, the
-- token service, the records of the identity service, the web interface and the start-up code.
pub mod Common
pub mod Core
pub mod Store
pub mod Sqlite
pub mod Sqs
pub mod Sns
pub mod Auth
pub mod SigV4
pub mod Iam
pub mod Router
