-- ===== src/Agent.antt =====
-- lib/agent.c, the agent that ConnMan asks for passphrases and other input.
pub mod State
pub mod Input
pub mod Methods
pub mod Replies
pub mod Run
pub mod Requests
pub mod Refs
pub mod Answers
