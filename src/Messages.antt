-- ===== src/Messages.antt =====
-- common/services/message-parser.service.ts and common/types/message.type.ts: the registry of
-- message types, and what a message's type and body say of it.
pub mod Types
pub mod Registry
pub mod Names
pub mod Parser
pub mod Involved
pub mod Listing
mod Tests
