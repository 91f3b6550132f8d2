-- ===== src/Tests.antt =====
-- Runs at concrete inputs: each theorem with hypotheses is applied where they hold.
mod Network
mod Controller
mod Client
mod Settings
mod Connections
mod Programs
mod Joining
mod Campaign
mod Cooperation
mod Answers
mod Conversation
mod Memory
