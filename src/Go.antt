-- ===== src/Go.antt =====
-- Go code with a state and panics, and the operator's checks that panic (pkg/errors).
mod Base
mod Ensure
pub mod Inversion
pub use Base.*
unfoldable pub use Ensure.*
