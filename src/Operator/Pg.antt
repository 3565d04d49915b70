-- ===== src/Operator/Pg.antt =====
-- PGClient.go: the Postgres database behind Nacos, reached directly.
mod Dsn
mod Connection
mod Initialize
mod Rotation
unfoldable pub use Dsn.*
unfoldable pub use Connection.*
unfoldable pub use Initialize.*
unfoldable pub use Rotation.*
