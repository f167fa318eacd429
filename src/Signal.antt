-- ===== src/Signal.antt =====
-- Sessions between two peers: crates/rekindle-crypto/src/signal, and the errors of
-- crates/rekindle-crypto/src/error.rs. The cryptographic libraries are parameters. Bytes are numbers.
pub mod Stores
pub mod Ratchet
pub mod Session
pub mod Tests
use rekindle.Base.{ℕ, ◌+◌, ◌≤◌, ◌==◌, leb, if◌then◌else◌, String, List, length, ◌≡◌}
use rekindle.Base.Bytes.{take, drop}
use rekindle.Base.Results.{Result, failed, done, map_err}
use rekindle.Base.Actions.{Act}

pub data CryptoError : Type 0 where
  key_generation signing_error verification_error encryption_error : String → CryptoError
  decryption_error invalid_key session_error pre_key_error storage_error : String → CryptoError

-- A function of the code ends with an error, or the thread panics.
pub data Failure : Type 0 where
  error : CryptoError → Failure
  panics : Failure

-- X25519, HKDF-SHA256 without salt (for a key, a label and a length), Ed25519 and AES-256-GCM (for a
-- key, a nonce and a text).
pub record Primitives : Type 0 where
  pub x25519_public : List ℕ → List ℕ
  pub diffie_hellman : List ℕ → List ℕ → List ℕ
  pub hkdf : List ℕ → String → ℕ → Result String (List ℕ)
  pub sign : List ℕ → List ℕ → List ℕ
  pub encrypt : List ℕ → List ℕ → List ℕ → Result String (List ℕ)
  pub decrypt : List ℕ → List ℕ → List ℕ → Result String (List ℕ)

-- What is relied on: both sides of an exchange compute the same secret, public keys have 32 bytes,
-- HKDF gives up to 96 bytes, and AES-GCM encrypts with keys of 32 bytes and decrypts what it encrypted.
pub record IsSound (C : Primitives) : Type 0 where
  pub diffie_hellman-comm :
      (a b : List ℕ)
      → C.diffie_hellman a (C.x25519_public b) ≡ C.diffie_hellman b (C.x25519_public a)
  pub length-x25519_public : (a : List ℕ) → length (C.x25519_public a) ≡ 32
  pub hkdf-done :
      (key : List ℕ) (label : String) (n : ℕ)
      → n ≤ 96
      → (out : List ℕ) × (C.hkdf key label n ≡ done out) × (length out ≡ n)
  pub encrypt-done :
      (key nonce text : List ℕ)
      → length key ≡ 32
      → (out : List ℕ) × (C.encrypt key nonce text ≡ done out)
  pub decrypt-encrypt :
      (key nonce text out : List ℕ)
      → C.encrypt key nonce text ≡ done out
      → C.decrypt key nonce out ≡ done text

-- `data[pos..pos + n]`, with `pos += n`: the state is what follows in the bytes.
abbrev pub cut : ℕ → Act Failure (List ℕ) (List ℕ)
cut n bytes =
    if leb n (length bytes) then (drop n bytes, done (take n bytes)) else (bytes, failed panics)

-- `<[u8; 32]>::try_from`
abbrev pub array32 : String → List ℕ → Result Failure (List ℕ)
array32 what bytes =
    if length bytes == 32 then done bytes else failed (error (CryptoError.invalid_key what))
