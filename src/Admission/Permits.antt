-- ===== src/Admission/Permits.antt =====
-- `Admission` and its permits (crates/werewolfd/src/admission.rs). A semaphore is its number of
-- available permits, a counter map is a function from keys, a mutex is never poisoned. An operation
-- that fails leaves the state as it was: what it acquired before is returned when it fails.
use werewolfproxy.Shared.{
  ℕ, zero, suc, ◌+◌, Bool, true, false, Option, none, some, ltb, if◌then◌else◌,
}
use werewolfproxy.Shared.Bytes.{Bytes, bytes_eq}
use werewolfproxy.Shared.Results.{Result, ok, err, ◌>>=◌, ◌>>◌}
use werewolfproxy.Handshake.Codes.{Str, Failure, rejected, panicked, require, fingerprint}

abbrev pub global_handshakes : ℕ
global_handshakes = 256

abbrev pub peer_handshakes : ℕ
peer_handshakes = 16

abbrev pub quic_contexts : ℕ
quic_contexts = 128

abbrev pub global_target_work : ℕ
global_target_work = 64

abbrev pub peer_target_work : ℕ
peer_target_work = 8

-- `HashMap<[u8; 8], usize>`
abbrev pub Counters : Type 0
Counters = Bytes → Option ℕ

-- `peers.get(&key).copied().unwrap_or(0)`
abbrev pub count_at : Option ℕ → ℕ
count_at none = 0
count_at (some n) = n

-- `HashMap::insert`, and `remove` for `none`
unfoldable pub put : Bytes → Option ℕ → Counters → Counters
put key value counters = λ k. if bytes_eq k key then value else counters k

pub record Admission : Type 0 where
  pub global : ℕ
  pub contexts : ℕ
  pub target_work : ℕ
  pub peers : Counters
  pub target_peers : Counters
  pub peer_limit : ℕ

-- `Admission::default`
unfoldable pub default : Admission
default = record {
  global = global_handshakes;
  contexts = quic_contexts;
  target_work = global_target_work;
  peers = λ key. none;
  target_peers = λ key. none;
  peer_limit = peer_handshakes;
}

-- `HandshakePermit`
pub record HandshakePermit : Type 0 where
  pub peer : Option Bytes

-- `TargetWorkPermit`
pub record TargetWorkPermit : Type 0 where
  pub peer : Bytes

-- `try_acquire_owned`: the permits left
unfoldable pub try_acquire : ℕ → Result Failure ℕ
try_acquire zero = err rejected
try_acquire (suc n) = ok n

-- `Admission::handshake`
unfoldable pub handshake : Admission → Result Failure (Admission × HandshakePermit)
unfolding try_acquire
handshake a = do
  left ← try_acquire a.global
  ok (record a { global = left }, record { peer = none })

-- `Admission::quic_context`
unfoldable pub quic_context : Admission → Result Failure Admission
unfolding try_acquire
quic_context a = do left ← try_acquire a.contexts; ok (record a { contexts = left })

-- the drop of a permit of `quic_context`
unfoldable pub drop_context : Admission → Admission
drop_context a = record a { contexts = a.contexts + 1 }

-- `Admission::target_work`
unfoldable pub peer_work : Admission → Bytes → Result Failure (Admission × TargetWorkPermit)
unfolding try_acquire require put
peer_work a peer = do
  left ← try_acquire a.target_work
  require (ltb (count_at (a.target_peers peer)) peer_target_work)
  ok (
    record a {
      target_work = left;
      target_peers = put peer (some (count_at (a.target_peers peer) + 1)) a.target_peers;
    },
    record { peer = peer },
  )

abbrev pub is_none {ℓ} : {A : Type ℓ} → Option A → Bool
is_none none = true
is_none (some a) = false

-- `HandshakePermit::authenticated`
unfoldable pub authenticated :
    HandshakePermit → Str → Admission → Result Failure (Admission × HandshakePermit)
unfolding require put
authenticated permit text a = do
  require (is_none permit.peer)
  key ← fingerprint text
  require (ltb (count_at (a.peers key)) a.peer_limit)
  ok (
    record a { peers = put key (some (count_at (a.peers key) + 1)) a.peers },
    record { peer = some key },
  )

-- whether a permit is authenticated as a peer
unfoldable pub is_peer : Bytes → Option Bytes → Bool
is_peer key none = false
is_peer key (some k) = bytes_eq key k

-- `HandshakePermit::target_work`
unfoldable pub permit_work :
    HandshakePermit → Str → Admission → Result Failure (Admission × TargetWorkPermit)
unfolding require peer_work is_peer
permit_work permit text a = do
  peer ← fingerprint text
  require (is_peer peer permit.peer)
  peer_work a peer

-- `*count -= 1` on a counter, and its removal at 0; the subtraction from 0 panics
unfoldable pub decrement : ℕ → Result Failure (Option ℕ)
decrement zero = err panicked
decrement (suc zero) = ok none
decrement (suc (suc n)) = ok (some (suc n))

-- the release of a peer in the counters, a missing entry left alone
unfoldable pub release : Bytes → Counters → Result Failure Counters
unfolding put decrement
release key counters = elim (counters key) [
  | none ↦ ok counters
  | some n ↦ do left ← decrement n; ok (put key left counters)
]

-- the drop of a `HandshakePermit`: its own `drop`, then the drop of its semaphore permit
unfoldable pub drop_handshake : HandshakePermit → Admission → Result Failure Admission
unfolding release
drop_handshake permit a = elim permit.peer [
  | none ↦ ok (record a { global = a.global + 1 })
  | some key ↦ do
    counters ← release key a.peers
    ok (record a { peers = counters; global = a.global + 1 })
]

-- the drop of a `TargetWorkPermit`
unfoldable pub drop_work : TargetWorkPermit → Admission → Result Failure Admission
unfolding release
drop_work permit a = do
  counters ← release permit.peer a.target_peers
  ok (record a { target_peers = counters; target_work = a.target_work + 1 })
