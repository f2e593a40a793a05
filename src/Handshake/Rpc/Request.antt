-- ===== src/Handshake/Rpc/Request.antt =====
-- `RpcRequest` of crates/werewolfd/src/handshake/rpc.rs: its fields on the wire and their reader.
use werewolfproxy.Shared.{ℕ, ◌&&◌, [], leb, ◌==◌, if◌then◌else◌}
use werewolfproxy.Shared.Ascii.{ascii}
use werewolfproxy.Shared.Bytes.{Bytes, bytes_eq}
use werewolfproxy.Shared.Results.{Result, ok, err, ◌>>=◌, ◌>>◌}
use werewolfproxy.Overlay.NodeId.{NodeId, to_hex}
use werewolfproxy.Overlay.Routing.{max_k}
use werewolfproxy.Naming.Published.{max_published}
use werewolfproxy.Governance.Types.{Hash}
use werewolfproxy.Handshake.Codes.{Str, Failure, rejected, require, hex, unhex, str_is_empty}

abbrev pub max_governance_k : ℕ
max_governance_k = 4

pub data RpcRequest : Type 0 where
  ping : RpcRequest
  find_node : NodeId → ℕ → RpcRequest
  services : RpcRequest
  governance : Hash → ℕ → RpcRequest

-- `RpcRequest::fields`
unfoldable pub fields : RpcRequest → Str × Str × ℕ
fields RpcRequest.ping = (ascii "ping", [], 0)
fields (RpcRequest.find_node target k) = (ascii "find_node", to_hex target, k)
fields RpcRequest.services = (ascii "services", [], 0)
fields (RpcRequest.governance head k) = (ascii "governance", hex head, k)

unfoldable pub parse_find_node : Str → ℕ → Result Failure RpcRequest
unfolding require
parse_find_node target k = do
  require (leb 1 k && leb k max_k)
  id ← unhex 32 target
  ok (RpcRequest.find_node id k)

unfoldable pub parse_governance : Str → ℕ → Result Failure RpcRequest
unfolding require
parse_governance target k = do
  require (leb 1 k && leb k max_governance_k)
  head ← unhex 32 target
  ok (RpcRequest.governance head k)

unfoldable pub parse_bare : RpcRequest → Str → ℕ → Result Failure RpcRequest
unfolding require
parse_bare request target k = do require (str_is_empty target && k == 0); ok request

-- `RpcRequest::parse`
unfoldable pub parse : Str → Str → ℕ → Result Failure RpcRequest
unfolding parse_find_node parse_governance parse_bare require
parse op target k =
    if bytes_eq op (ascii "ping")
    then parse_bare RpcRequest.ping target k
    else if bytes_eq op (ascii "find_node")
    then parse_find_node target k
    else if bytes_eq op (ascii "services")
    then parse_bare RpcRequest.services target k
    else if bytes_eq op (ascii "governance")
    then parse_governance target k
    else err rejected

-- `max_records`
unfoldable pub max_records : RpcRequest → ℕ
max_records RpcRequest.ping = 1
max_records (RpcRequest.find_node target k) = k
max_records RpcRequest.services = max_published
max_records (RpcRequest.governance head k) = k

-- `target_bytes`
unfoldable pub target_bytes : RpcRequest → Bytes
target_bytes RpcRequest.ping = []
target_bytes (RpcRequest.find_node target k) = target
target_bytes RpcRequest.services = []
target_bytes (RpcRequest.governance head k) = head

-- `RpcRequest::k`
unfoldable pub count_of : RpcRequest → ℕ
unfolding fields
count_of request = (fields request).2
