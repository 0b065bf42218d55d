-- ===== src/Discovery.antt =====
-- src/discovery: the registry of peers, the announcements, and the agent that joins them.
pub mod Registry
pub mod Timeouts
pub mod Reader
pub mod Announce
pub mod ReadSafety
pub mod Agent
mod Examples
