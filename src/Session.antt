-- ===== src/Session.antt =====
-- The session of the agent with its controller, agent/internal/agent/agent.go.
pub mod Loop
pub mod Replies
pub mod Progress
