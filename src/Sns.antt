-- ===== src/Sns.antt =====
-- hiraeth_sns: the notification service.
pub mod Error
pub mod Support
pub mod Subscriptions
pub mod Publish
pub mod Enqueue
pub mod Delivery
mod Examples
