-- ===== src/Sqs.antt =====
-- hiraeth_sqs: the queue service.
pub mod Error
pub mod Util
pub mod Digest
pub mod Attributes
pub mod Create
pub mod Messages
pub mod Receive
pub mod Queues
pub mod Batches
pub mod Dispatch
mod Examples
