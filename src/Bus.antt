-- ===== src/Bus.antt =====
-- src/core/message_bus.cpp and message_bus.h: the message bus.
pub mod State
pub mod Send
pub mod Publish
pub mod Receive
pub mod Request
pub mod Tick
pub mod Members
pub mod Quiet
pub mod Keeps
pub mod Branches
pub mod RequestOnce
pub mod Delivered
pub mod PublishOnce
pub mod Deadlines
mod Examples
pub mod Choice
pub mod Wire
