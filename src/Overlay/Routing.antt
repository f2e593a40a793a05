-- ===== src/Overlay/Routing.antt =====
-- crates/werewolf-core/src/routing.rs, lookup.rs, message.rs, find_node.rs and peer_store.rs: the
-- table of 256 buckets, the peers nearest to an id, and the answer to a FindNode request.
pub mod Table
pub mod Nearest
use werewolfproxy.Shared.{
  ℕ, zero, suc, ◌+◌, min, Bool, true, false, Option, none, some, List, [], ◌∷◌, ◌++◌, length,
  get_elem?, set, take, if◌then◌else◌,
}
use werewolfproxy.Shared.Bytes.{Bytes, bytes_eq, bytes_lt}
use werewolfproxy.Overlay.NodeId.{NodeId, xor_distance, bucket_index}
use werewolfproxy.Overlay.Bucket.{Peer, Bucket, InsertOutcome}
use werewolfproxy.Overlay.Bucket

pub record RoutingTable (F : Type 0) : Type 0 where
  pub local_id : NodeId
  pub buckets : List (Bucket F)

-- `vec![KBucket::new(); n]`
unfoldable pub empty_buckets : {F : Type 0} → ℕ → List (Bucket F)
empty_buckets zero = []
empty_buckets (suc n) = record { peers = [] } ∷ empty_buckets n

-- `RoutingTable::new`
unfoldable pub new : {F : Type 0} → NodeId → RoutingTable F
unfolding empty_buckets
new local_id = record { local_id = local_id; buckets = empty_buckets 256 }

module _ {F : Type 0} where
  insert_into :
      RoutingTable F → ℕ → Peer F → Option (Bucket F) → Option (RoutingTable F × InsertOutcome F)
  insert_into t idx peer none = none
  insert_into t idx peer (some b) =
      let r = Bucket.insert b peer in some (record t { buckets = set t.buckets idx r.0 }, r.1)

  -- `add_peer`; `none` is the panic of an index out of range.
  unfoldable pub add_peer : RoutingTable F → Peer F → Option (RoutingTable F × InsertOutcome F)
  unfolding insert_into
  add_peer t peer =
      let idx = bucket_index t.local_id peer.id in
      if bytes_eq peer.id t.local_id
      then some (t, InsertOutcome.local_node)
      else insert_into t idx peer (get_elem? t.buckets idx)

  remove_from :
      RoutingTable F → ℕ → NodeId → Option (Bucket F) → Option (RoutingTable F × Option (Peer F))
  remove_from t idx id none = none
  remove_from t idx id (some b) =
      let r = Bucket.remove b id in some (record t { buckets = set t.buckets idx r.0 }, r.1)

  -- `remove_peer`
  unfoldable pub remove_peer : RoutingTable F → NodeId → Option (RoutingTable F × Option (Peer F))
  unfolding remove_from
  remove_peer t id =
      let idx = bucket_index t.local_id id in
      if bytes_eq id t.local_id
      then some (t, none)
      else remove_from t idx id (get_elem? t.buckets idx)

  -- `flat_map(|bucket| bucket.peers().iter().cloned())`
  unfoldable pub peers_of : List (Bucket F) → List (Peer F)
  peers_of [] = []
  peers_of (b ∷ bs) = b.peers ++ peers_of bs

  -- `all_peers`
  unfoldable pub all_peers : RoutingTable F → List (Peer F)
  unfolding peers_of
  all_peers t = peers_of t.buckets

  -- One step of a stable sort by the distance to the target.
  unfoldable pub insert_by_distance : NodeId → Peer F → List (Peer F) → List (Peer F)
  insert_by_distance target p [] = p ∷ []
  insert_by_distance target p (q ∷ qs) =
      let rest = q ∷ insert_by_distance target p qs in
      if bytes_lt (xor_distance target q.id) (xor_distance target p.id) then rest else p ∷ q ∷ qs

  -- `sort_by_key(|peer| target.xor_distance(&peer.id))`
  unfoldable pub sort_by_distance : NodeId → List (Peer F) → List (Peer F)
  sort_by_distance target [] = []
  sort_by_distance target (p ∷ ps) = insert_by_distance target p (sort_by_distance target ps)

  -- `nearest`
  unfoldable pub nearest : RoutingTable F → NodeId → ℕ → List (Peer F)
  nearest t target limit = take limit (sort_by_distance target (all_peers t))

-- `MAX_K`
abbrev pub max_k : ℕ
max_k = 20

pub record LookupResult (F : Type 0) : Type 0 where
  pub target : NodeId
  requested : ℕ
  returned : ℕ
  pub peers : List (Peer F)

pub data Message (F : Type 0) : Type 0 where
  ping : NodeId → Message F
  pong : NodeId → Message F
  find_node : NodeId → NodeId → ℕ → Message F
  find_node_result : NodeId → NodeId → List (Peer F) → Message F

pub record PeerStore (F : Type 0) : Type 0 where
  pub local_id : NodeId
  pub peers : List (Peer F)

module _ {F : Type 0} where
  unfoldable pub lookup : RoutingTable F → NodeId → ℕ → LookupResult F
  lookup t target k =
      let peers = nearest t target (min k max_k) in
      record { target = target; requested = k; returned = length peers; peers = peers }

  -- `handle_find_node`
  unfoldable pub handle_find_node : NodeId → RoutingTable F → Message F → Option (Message F)
  unfolding lookup
  handle_find_node local_id t (Message.find_node sender target k) =
      some (Message.find_node_result local_id target (lookup t target k).peers)
  handle_find_node local_id t (Message.ping sender) = none
  handle_find_node local_id t (Message.pong sender) = none
  handle_find_node local_id t (Message.find_node_result sender target peers) = none

  -- the loop of `into_routing_table`
  unfoldable pub add_all : RoutingTable F → List (Peer F) → Option (RoutingTable F)
  add_all t [] = some t
  add_all t (p ∷ ps) = elim (add_peer t p) [ none ↦ none | some r ↦ add_all r.0 ps ]

  -- `into_routing_table`
  unfoldable pub into_routing_table : PeerStore F → Option (RoutingTable F)
  into_routing_table store = add_all (new store.local_id) store.peers

  -- `from_routing_table`
  unfoldable pub from_routing_table : RoutingTable F → PeerStore F
  from_routing_table t = record { local_id = t.local_id; peers = all_peers t }
