-- ===== src/Identity/Card.antt =====
-- internal/identity/signed.go: the Signature Agent Card.
use robotsyes.Base.{Bytes, List}

pub record Jwk : Type 0 where
  pub kty : Bytes
  pub crv : Bytes
  pub kid : Bytes
  pub x : Bytes
  pub use_for : Bytes

pub record Card : Type 0 where
  pub client_name : Bytes
  pub keys : List Jwk
