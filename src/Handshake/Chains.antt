-- ===== src/Handshake/Chains.antt =====
-- The statements that a governance RPC hands on (crates/werewolfd/src/handshake/rpc.rs:
-- `accepted_governance`).
use werewolfproxy.Shared.{ℕ, ◌≡◌, refl, true, Option, none, some, List, [], ◌∷◌, map, All, arith}
use werewolfproxy.Shared.Bytes.{Bytes, bytes_eq, bytes_eq_sound}
use werewolfproxy.Shared.Results.{ok, >>=-eq-ok, ensure-bind-eq-ok, ok-injective}
use werewolfproxy.Governance.Types.{Crypto, Hash, Statement}
use werewolfproxy.Governance.Encoding.{encode, decode, hash}
use werewolfproxy.Governance.Canonical.{encode-decode}
use werewolfproxy.Handshake.Codes.{require}
use werewolfproxy.Handshake.Canonical.{AreBytes}
use werewolfproxy.Handshake.Rpc.{
  RpcRequest, decode_statement, decode_all, next_to, check_chain, accepted_governance,
}

-- Each statement names the hash of the one before, the first one `head`, and the sequences are
-- consecutive.
abbrev pub IsChain : Crypto → Hash → Option ℕ → List Statement → Type 0
IsChain crypto previous sequence [] = Unit
IsChain crypto previous sequence (s ∷ ss) =
    (s.core.previous ≡ previous)
    × (next_to sequence s.core.sequence ≡ true)
    × IsChain crypto (hash crypto s.core) (some s.core.sequence) ss

check_chain-IsChain :
    (crypto : Crypto) (previous : Hash) (sequence : Option ℕ) (ss : List Statement)
    → check_chain crypto previous sequence ss ≡ ok tt
    → IsChain crypto previous sequence ss
unfolding check_chain require
check_chain-IsChain crypto previous sequence [] h = tt
check_chain-IsChain crypto previous sequence (s ∷ ss) h =
    let (same, h1) = ensure-bind-eq-ok (bytes_eq s.core.previous previous) _ _ h in
    let (next, h2) = ensure-bind-eq-ok (next_to sequence s.core.sequence) _ _ h1 in
    (
      bytes_eq_sound s.core.previous previous same,
      next,
      check_chain-IsChain crypto (hash crypto s.core) (some s.core.sequence) ss h2,
    )

decode_statement-eq-ok :
    (bs : Bytes) (s : Statement) → decode_statement bs ≡ ok s → decode bs ≡ ok s
unfolding decode_statement
decode_statement-eq-ok bs s h = ground arith

decode_all-encode :
    (raw : List Bytes) (ss : List Statement)
    → All AreBytes raw
    → decode_all raw ≡ ok ss
    → map encode ss ≡ raw
unfolding decode_all
decode_all-encode [] ss small h = rw (← (ok-injective h)) refl
decode_all-encode (bs ∷ rest) ss small h =
    let (s, e, h1) = >>=-eq-ok (decode_statement bs) _ h in
    let (more, f, h2) = >>=-eq-ok (decode_all rest) _ h1 in
    let one = encode-decode bs s small.0 (decode_statement-eq-ok bs s e) in
    let others = decode_all-encode rest more small.1 f in rw (← (ok-injective h2)) (cc)

-- The statements that a governance result is accepted with are all of its records, read back
-- without a change, and form a chain from the requested head: the first names it, each next one
-- names the one before, and the sequences are consecutive.
pub accepted_governance-IsChain :
    (crypto : Crypto) (raw : List Bytes) (head : Hash) (k : ℕ) (ss : List Statement)
    → All AreBytes raw
    → accepted_governance crypto raw (RpcRequest.governance head k) ≡ ok ss
    → IsChain crypto head none ss × (map encode ss ≡ raw)
unfolding accepted_governance
accepted_governance-IsChain crypto raw head k ss small h =
    let (read, e, h1) = >>=-eq-ok (decode_all raw) _ h in
    let (u, f, h2) = >>=-eq-ok (check_chain crypto head none read) _ h1 in
    rw (← (ok-injective h2))
      (check_chain-IsChain crypto head none read f, decode_all-encode raw read small e)
