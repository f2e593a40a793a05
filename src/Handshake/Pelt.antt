-- ===== src/Handshake/Pelt.antt =====
-- Identities and signatures: crates/werewolf-core/src/pelt.rs, and `binary`, `verify`, `sign` and
-- `public_matches` of crates/werewolfd/src/handshake.rs.
use werewolfproxy.Shared.{ℕ, ◌+◌, ◌*◌, ◌/◌, Bool, Option, ◌++◌, length, take, ◌==◌}
use werewolfproxy.Shared.Bytes.{Bytes, bytes_eq}
use werewolfproxy.Shared.Results.{Result, ok, ◌>>=◌, ◌>>◌, ensure}
use werewolfproxy.Handshake.Codes.{
  Str, Failure, rejected, require, or_rejected, hexish, fingerprint_prefix,
}

-- What the crates base64 (`STANDARD`), ed25519-dalek and blake3 compute: `decode`, `encode`,
-- `VerifyingKey::from_bytes(..).is_ok()`, `verify` of a key, a message and a signature, `sign` of a
-- secret key and a message, `finalize` of the bytes hashed.
pub record Primitives : Type 0 where
  pub b64_decode : Str → Option Bytes
  pub b64_encode : Bytes → Str
  pub is_point : Bytes → Bool
  pub verifies : Bytes → Bytes → Bytes → Bool
  pub signature_of : Bytes → Bytes → Bytes
  pub blake3 : Bytes → Bytes

-- `PeltIdentity`
pub record PeltIdentity : Type 0 where
  pub public_key_b64 : Str
  pub secret_key_b64 : Str
  pub fingerprint : Str

module _ (lib : Primitives) where
  open lib use {b64_decode, b64_encode, is_point, verifies, signature_of, blake3}

  -- `try_into` an array of `n` bytes
  abbrev pub sized : ℕ → Bytes → Result Failure (Unit {0})
  sized n bs = ensure (length bs == n) rejected

  -- `sign_message`, its error strings being one error
  unfoldable pub sign_message : PeltIdentity → Bytes → Result Failure Str
  sign_message identity message = do
    secret ← or_rejected (b64_decode identity.secret_key_b64)
    sized 32 secret
    ok (b64_encode (signature_of secret message))

  -- `verify_message`
  unfoldable pub verify_message : Str → Bytes → Str → Result Failure (Unit {0})
  verify_message public_key_b64 message signature_b64 = do
    public ← or_rejected (b64_decode public_key_b64)
    sized 32 public
    ensure (is_point public) rejected
    signature ← or_rejected (b64_decode signature_b64)
    sized 64 signature
    ensure (verifies public message signature) rejected

  -- `fingerprint_from_public_key_b64`
  unfoldable pub fingerprint_from_public_key_b64 : Str → Result Failure Str
  fingerprint_from_public_key_b64 public_key_b64 = do
    public ← or_rejected (b64_decode public_key_b64)
    ok (fingerprint_prefix ++ hexish (take 8 (blake3 public)))

  -- `binary::<N>`
  unfoldable pub binary : ℕ → Str → Result Failure Bytes
  unfolding require
  binary n text = do
    require (length text == (n + 2) / 3 * 4)
    value ← or_rejected (b64_decode text)
    sized n value
    require (bytes_eq (b64_encode value) text)
    ok value

  -- `verify`
  unfoldable pub verify : Str → Bytes → Str → Result Failure (Unit {0})
  unfolding binary verify_message
  verify public message signature = do
    key ← binary 32 public
    sig ← binary 64 signature
    verify_message public message signature

  -- `sign`
  unfoldable pub sign : PeltIdentity → Bytes → Result Failure Str
  unfolding sign_message
  sign identity message = sign_message identity message

  -- `public_matches`
  unfoldable pub public_matches : Str → Str → Result Failure Bytes
  unfolding binary fingerprint_from_public_key_b64 require
  public_matches public fp = do
    bytes ← binary 32 public
    printed ← fingerprint_from_public_key_b64 public
    require (bytes_eq printed fp)
    ok bytes
