-- ===== src/Controller.antt =====
-- controllers/nacos_controller.go: the reconciler.
mod Reconciler
pub mod Outcomes
pub mod Handled
mod Ended
pub mod Phases
pub mod Settled
pub mod Rest
pub mod Achieved
pub mod Reached
pub mod Watch
pub mod Woken
unfoldable pub use Reconciler.*
