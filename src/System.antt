-- ===== src/System.antt =====
-- The whole program: its tasks and its handlers as steps on one machine.
pub mod Invariant
pub mod Ledger
pub mod Replies
pub mod Answers
pub mod Pages
pub mod Handlers
pub mod Commands
pub mod Changes
pub mod Updates
pub mod Rounds
pub mod Steps
pub mod Serving
pub mod Start
pub mod Loaded
pub mod Ready
pub mod Program
