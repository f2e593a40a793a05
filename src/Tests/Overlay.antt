-- ===== src/Tests/Overlay.antt =====
-- Runs of the Kademlia overlay (crates/werewolf-core/src/nodeid.rs, kbucket.rs, routing.rs) on peers
-- whose floating-point fields are natural numbers.
use mathlib.Core.List.{Perm}
use werewolfproxy.Shared.{
  ℕ, zero, suc, ◌≡◌, refl, true, none, List, [], ◌∷◌, length, arith, ◌<◌, min, take, drop, All, ◌↔◌,
}
use werewolfproxy.Shared.Bytes.{bytes_lt, Bytes, bytes_eq}
use werewolfproxy.Shared.Results.{ok, err}
use werewolfproxy.Tests.SmallBytes.{all_small-All}
use werewolfproxy.Overlay.NodeId.{xor_distance, NodeId, HexError, hex_digit, to_hex, from_hex}
use werewolfproxy.Overlay.HexText.{lowercase, from_hex_iff}
use werewolfproxy.Overlay.Bucket.{position, Peer, Bucket, InsertOutcome, has, insert}
use werewolfproxy.Overlay.Bucket.Laws.{IsBucket}
use werewolfproxy.Overlay.Routing.{
  insert_by_distance, sort_by_distance, RoutingTable, PeerStore, new, nearest, all_peers,
}
use werewolfproxy.Overlay.Routing.Table.{Added, new-IsTable, add_peer-Added}
use werewolfproxy.Overlay.Routing.Nearest.{NoneCloser, Ascending, nearest_lem}

abbrev zeros : ℕ → Bytes
zeros zero = []
zeros (suc n) = 0 ∷ zeros n

abbrev node : ℕ → NodeId
node n = n ∷ zeros 31

abbrev peer : ℕ → Peer ℕ
peer n = record {
  id = node n;
  name = b'p' ∷ [];
  address = b'a' ∷ [];
  healthy = true;
  reputation = 1;
  availability_pct = 100;
  latency_ms = none;
}

abbrev two_peers : Bucket ℕ
two_peers = record { peers = peer 128 ∷ peer 129 ∷ [] }

two_peers-IsBucket : IsBucket two_peers
unfolding has bytes_eq
two_peers-IsBucket = record { fits = omega arith; distinct = (refl, (refl, tt)) }

insert_refreshes :
    insert two_peers (peer 128)
    ≡ (record { peers = peer 129 ∷ peer 128 ∷ [] }, InsertOutcome.refreshed)
unfolding insert position bytes_eq
insert_refreshes = refl

abbrev empty_table : RoutingTable ℕ
empty_table = new (node 0)

add_peer-Added_example : Added empty_table (peer 128)
add_peer-Added_example = add_peer-Added empty_table (peer 128) (new-IsTable (node 0) refl)

abbrev store : PeerStore ℕ
store = record { local_id = node 0; peers = peer 1 ∷ peer 2 ∷ peer 0 ∷ peer 1 ∷ [] }

abbrev small_table : RoutingTable ℕ
small_table = record {
  local_id = node 0;
  buckets = two_peers ∷ record { peers = peer 64 ∷ [] } ∷ [];
}

nearest_run : nearest small_table (node 129) 2 ≡ peer 129 ∷ peer 128 ∷ []
unfolding nearest sort_by_distance all_peers insert_by_distance bytes_lt xor_distance
nearest_run = refl

nearest_lem_example :
    (sorted : List (Peer ℕ)) × Perm sorted (all_peers small_table)
    × (nearest small_table (node 129) 2 ≡ take 2 sorted)
    × (length (nearest small_table (node 129) 2) ≡ min 2 (length sorted))
    × Ascending (node 129) (nearest small_table (node 129) 2)
    × All
        (λ (p : Peer ℕ). NoneCloser (node 129) p (drop 2 sorted))
        (nearest small_table (node 129) 2)
nearest_lem_example = nearest_lem small_table (node 129) 2

node-bytes : All (λ (b : ℕ). b < 256) (node 171)
node-bytes = all_small-All (node 171) refl

abbrev zero_digits : ℕ → Bytes
zero_digits zero = []
zero_digits (suc n) = b'0' ∷ zero_digits n

-- the text of `node 171` with one letter in either case
abbrev mixed_text : Bytes
mixed_text = b'a' ∷ b'B' ∷ zero_digits 62

from_hex_iff_example :
    ((from_hex mixed_text ≡ ok (node 171)) ↔ (
      (to_hex (node 171) ≡ lowercase mixed_text)
      × (length (node 171) ≡ 32)
      × All (λ (b : ℕ). b < 256) (node 171)))
    × ((from_hex mixed_text ≡ err HexError.bad_length) ↔ ¬ (length mixed_text ≡ 64))
    × ¬ (from_hex mixed_text ≡ err HexError.bad_byte)
from_hex_iff_example = from_hex_iff mixed_text (node 171)

mixed_prints : to_hex (node 171) ≡ lowercase mixed_text
unfolding to_hex hex_digit
mixed_prints = refl

mixed_read : from_hex mixed_text ≡ ok (node 171)
mixed_read = (from_hex_iff mixed_text (node 171)).0.1 (mixed_prints, refl, node-bytes)
