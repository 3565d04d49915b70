-- ===== src/Operator/Deployed.antt =====
-- What MakeEnsure leaves in the API server as a whole.
pub mod Kept
pub mod Others
pub mod Defs
pub mod Ended
pub mod Assembled
pub mod Cluster
