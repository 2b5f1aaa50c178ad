-- ===== src/TeamMode.antt =====
-- Team Mode: messages, the transcript that stores them, inboxes as views of it, and routing.
pub mod Member
pub mod Members
pub mod Message
pub mod Lines
pub mod Transcript
pub mod Inbox
pub mod Mentions
pub mod Threading
pub mod Routing
pub mod MemberService
pub mod Rooms
pub mod Pending
