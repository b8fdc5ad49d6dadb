-- ===== src/Protocol.antt =====
-- The wire protocol, agent/internal/protocol/protocol.go: messages and their decoding (Messages),
-- the allowlist of actions (Actions), the validation of commands (Commands), and what is proved of
-- these.
pub mod Actions
pub mod Messages
pub mod Commands
pub mod Allowlist
pub mod Envelopes
pub mod Accepted
