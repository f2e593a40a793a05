-- ===== src/Governance/Types.antt =====
-- The data types and constants of crates/werewolf-core/src/governance.rs, and the primitives that
-- it takes from the crates ed25519-dalek and blake3.
use werewolfproxy.Shared.{ℕ, ◌*◌, Bool, Option, List}
use werewolfproxy.Shared.Bytes.{Bytes}

abbrev pub version : ℕ
version = 1

abbrev pub max_statement_len : ℕ
max_statement_len = 16 * 1024

abbrev pub key_count : ℕ
key_count = 10

abbrev pub threshold_required : ℕ
threshold_required = 7

abbrev pub max_revoked_per_statement : ℕ
max_revoked_per_statement = 64

abbrev pub max_roster : ℕ
max_roster = 1024

abbrev pub max_admitted_per_statement : ℕ
max_admitted_per_statement = 64

abbrev pub Key : Type 0
Key = Bytes

abbrev pub Hash : Type 0
Hash = Bytes

pub data Body : Type 0 where
  genesis : ℕ → List Key → Body
  rotation : List (ℕ × Key) → Body
  revocation : List Key → Body
  admission : List Key → Body
  activation : Body
  death : Body

pub record Core : Type 0 where
  pub network_id : Bytes
  pub sequence : ℕ
  pub previous : Hash
  pub body : Body

pub record Statement : Type 0 where
  pub core : Core
  pub signatures : List (ℕ × Bytes)

pub data GovError : Type 0 where
  too_large malformed unknown_version unknown_kind body_rule signatures wrong_network : GovError
  no_genesis genesis_mismatch out_of_order previous_mismatch fork forked terminal : GovError

-- How a call can end without a value: an `Err`, or a panic of an index or an `expect`.
pub data Failure : Type 0 where
  refused : GovError → Failure
  panicked : Failure

pub record Head : Type 0 where
  pub network_id : Bytes
  pub sequence : ℕ
  pub hash : Hash
  pub threshold : ℕ
  pub key_epochs : List (ℕ × List Key)
  pub revoked : List Key
  pub applied : List Hash
  pub forked : Bool
  pub roster : List Key
  pub activated_at : Option ℕ
  pub dead_at : Option ℕ

pub data Outcome : Type 0 where
  applied : Head → Outcome
  already_applied : Outcome
  fork : Head → Outcome

-- The third-party primitives: `VerifyingKey::from_bytes(..).is_ok()`, `is_weak`, `verify_strict`
-- (key, message, signature) and the BLAKE3 hash of a byte string.
pub record Crypto : Type 0 where
  pub is_point : Key → Bool
  pub is_weak : Key → Bool
  pub verify_strict : Key → Bytes → Bytes → Bool
  pub blake3 : Bytes → Hash
