-- ===== src/Handshake/Rpc/Statements.antt =====
-- `accepted_governance` of crates/werewolfd/src/handshake/rpc.rs: the statements of a result.
use werewolfproxy.Shared.{
  ℕ, ◌+◌, ◌^◌, Bool, true, ◌&&◌, List, [], ◌∷◌, Option, none, some, ltb, ◌==◌,
}
use werewolfproxy.Shared.Bytes.{Bytes, bytes_eq}
use werewolfproxy.Shared.Results.{Result, ok, err, ◌>>=◌, ◌>>◌}
use werewolfproxy.Governance.Types.{Crypto, Hash, Statement}
use werewolfproxy.Governance.Encoding.{decode, hash}
use werewolfproxy.Handshake.Codes.{Failure, rejected, require}
use werewolfproxy.Handshake.Rpc.Request.{RpcRequest}

-- `Statement::decode(bytes).map_err(|_| rejected())`
unfoldable pub decode_statement : Bytes → Result Failure Statement
decode_statement bs = elim (decode bs) [ ok s ↦ ok s | err e ↦ err rejected ]

-- the collection of decoded statements in `accepted_governance`
unfoldable pub decode_all : List Bytes → Result Failure (List Statement)
unfolding decode_statement
decode_all [] = ok []
decode_all (bs ∷ rest) = do s ← decode_statement bs; ss ← decode_all rest; ok (s ∷ ss)

-- the test of a sequence against the one before, `checked_add` failing at the end of `u64`
abbrev pub next_to : Option ℕ → ℕ → Bool
next_to none n = true
next_to (some last) n = ltb (last + 1) (2 ^ 64) && n == last + 1

-- the loop of `accepted_governance`
unfoldable pub check_chain : Crypto → Hash → Option ℕ → List Statement → Result Failure (Unit {0})
unfolding require
check_chain crypto previous sequence [] = ok tt
check_chain crypto previous sequence (s ∷ ss) = do
  require (bytes_eq s.core.previous previous)
  require (next_to sequence s.core.sequence)
  check_chain crypto (hash crypto s.core) (some s.core.sequence) ss

unfoldable pub accepted_chain : Crypto → List Bytes → Hash → Result Failure (List Statement)
accepted_chain crypto raw head = do
  statements ← decode_all raw
  check_chain crypto head none statements
  ok statements

-- `accepted_governance`
unfoldable pub accepted_governance :
    Crypto → List Bytes → RpcRequest → Result Failure (List Statement)
unfolding accepted_chain
accepted_governance crypto raw RpcRequest.ping = err rejected
accepted_governance crypto raw (RpcRequest.find_node target k) = err rejected
accepted_governance crypto raw RpcRequest.services = err rejected
accepted_governance crypto raw (RpcRequest.governance head k) = accepted_chain crypto raw head
