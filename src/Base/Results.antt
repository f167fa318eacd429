-- ===== src/Base/Results.antt =====
-- Errors as values: Rust's `Result`, and the errors of crates/rekindle-protocol/src/error.rs.
use Prim.Native.String.{String}
use mathlib.Core.Path.{◌≡◌}
use native.Mathlib.Omega.{arith}

pub data Result (E A : Type 0) : Type 0 where
  failed : E → Result E A
  done : A → Result E A

pub data ProtocolError : Type 0 where
  node_startup attach_failed dht_error routing_error send_failed receive_failed :
      String → ProtocolError
  serialization deserialization network verification peer_not_found : String → ProtocolError
  crypto_error internal : String → ProtocolError
  node_not_initialized : ProtocolError

-- `map_err`
abbrev pub map_err : {E F A : Type 0} → (E → F) → Result E A → Result F A
map_err f (failed e) = failed (f e)
map_err f (done a) = done a

pub map_err-done :
    {E F A : Type 0} (f : E → F) (r : Result E A) (a : A) → map_err f r ≡ done a → r ≡ done a
map_err-done f (failed why) a e = ground arith
map_err-done f (done b) a e = ground arith
