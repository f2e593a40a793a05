-- ===== src/Overlay/Bucket.antt =====
-- crates/werewolf-core/src/peer.rs and kbucket.rs: peers, and a bucket of them ordered from least to
-- most recently seen. Floating-point values are an abstract type, of which the buckets read nothing.
pub mod Laws
pub mod Replace
use werewolfproxy.Shared.{
  ℕ, zero, suc, ◌+◌, ◌-◌, ◌≤◌, ◌<◌, ◌≡◌, refl, sym, ◌∙◌, ap, Bool, true, false, not, ◌&&◌, ◌||◌,
  Option, none, some, List, [], ◌∷◌, ◌++◌, length, get_elem?, remove_at, ltb, leb, ◌==◌,
  if◌then◌else◌, arith, length-append,
}
use werewolfproxy.Shared.Bytes.{Bytes, bytes_eq, bytes_eq_sound, bytes_eq_refl}
use werewolfproxy.Overlay.NodeId.{NodeId}

-- `Peer`, over the type `F` of `f64`
pub record Peer (F : Type 0) : Type 0 where
  pub id : NodeId
  pub name : Bytes
  pub address : Bytes
  pub healthy : Bool
  pub reputation : F
  pub availability_pct : F
  pub latency_ms : Option F

-- Kademlia bucket capacity.
abbrev pub k_capacity : ℕ
k_capacity = 20

pub data InsertOutcome (F : Type 0) : Type 0 where
  inserted : InsertOutcome F
  refreshed : InsertOutcome F
  full : Peer F → InsertOutcome F
  local_node : InsertOutcome F

pub record Bucket (F : Type 0) : Type 0 where
  pub peers : List (Peer F)

module _ {F : Type 0} where
  -- `.iter().position(|p| p.id == id)`
  unfoldable pub position : NodeId → List (Peer F) → Option ℕ
  position id [] = none
  position id (p ∷ ps) =
      if bytes_eq p.id id
      then some 0
      else (elim (position id ps) [ none ↦ none | some i ↦ some (suc i) ])

  -- `contains`
  unfoldable pub has : NodeId → List (Peer F) → Bool
  has id [] = false
  has id (p ∷ ps) = bytes_eq p.id id || has id ps

  -- the part of `insert` behind the search; an empty bucket that is full cannot be
  unfoldable pub insert_new : Bucket F → Peer F → Bucket F × InsertOutcome F
  insert_new b peer =
      if leb k_capacity (length b.peers)
      then (
        b,
        elim b.peers [ [] ↦ InsertOutcome.inserted | oldest ∷ rest ↦ InsertOutcome.full oldest ],
      )
      else (record { peers = b.peers ++ peer ∷ [] }, InsertOutcome.inserted)

  -- `KBucket::insert`
  unfoldable pub insert : Bucket F → Peer F → Bucket F × InsertOutcome F
  insert b peer = elim (position peer.id b.peers) [
    | some pos ↦ (record { peers = remove_at pos b.peers ++ peer ∷ [] }, InsertOutcome.refreshed)
    | none ↦ insert_new b peer
  ]

  -- `KBucket::remove`: the bucket, and the peer that was taken out
  unfoldable pub remove : Bucket F → NodeId → Bucket F × Option (Peer F)
  remove b id = elim (position id b.peers) [
    | none ↦ (b, none)
    | some pos ↦ (record { peers = remove_at pos b.peers }, get_elem? b.peers pos)
  ]

  -- `KBucket::replace`
  unfoldable pub replace : Bucket F → NodeId → Peer F → Bucket F × Bool
  replace b stale peer = elim (remove b stale).1 [
    | none ↦ (b, false)
    | some old ↦ ((insert (remove b stale).0 peer).0, true)
  ]
