-- ===== src/Types/Opaque.antt =====
-- A Kubernetes value that the operator only copies from one object to another: the code reads
-- nothing of it, so it is kept as a token.
use nacos_operator.Prelude.{String}

pub record Blob : Type 0 where
  pub token : String
