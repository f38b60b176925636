-- ===== src/StateMachine.antt =====
-- pkg/plugins/statemachine/statemachine.go
pub mod Calls
pub mod Handlers
pub mod Rollout
pub mod Table
pub mod Machine
pub mod Replies
pub mod Discipline
pub mod Drain
pub mod Health
pub mod Outcome
pub mod Monitor
pub mod Interleaving
pub mod Late
pub mod Start
pub mod Liveness
pub mod Alone
pub mod Completion
