-- ===== src/Overlay/Bucket/Replace.antt =====
-- What `KBucket::replace` (crates/werewolf-core/src/kbucket.rs) does.
use werewolfproxy.Shared.{
  ℕ, zero, suc, ◌≡◌, refl, sym, ap, true, false, none, some, List, [], ◌∷◌, length, get_elem?, leb,
  arith, Option-cases, Bool-cases, inl, inr,
}
use werewolfproxy.Shared.Bytes.{bytes_eq, bytes_eq_refl}
use werewolfproxy.Overlay.NodeId.{NodeId}
use werewolfproxy.Overlay.Bucket.{Peer, Bucket, k_capacity, position, has, insert, remove, replace}
use werewolfproxy.Overlay.Bucket.Laws.{
  IsBucket, position-has, position-none, length-without, insert-IsBucket, remove-without,
  remove-IsBucket, has-remove, has-insert,
}

module _ {F : Type 0} where
  position-get_elem? :
      (id : NodeId) (ps : List (Peer F)) (pos : ℕ)
      → position id ps ≡ some pos
      → (p : Peer F) × (get_elem? ps pos ≡ some p)
  unfolding position
  position-get_elem? id [] pos h = cc
  position-get_elem? id (p ∷ ps) zero h = (p, refl)
  position-get_elem? id (p ∷ ps) (suc pos) h = position-get_elem? id ps pos (ground arith)

  remove_present :
      (b : Bucket F) (id : NodeId)
      → has id b.peers ≡ true
      → (p : Peer F) × ((remove b id).1 ≡ some p)
  unfolding remove
  remove_present b id h = elim (Option-cases (position id b.peers)) [
    | inl absent ↦ cc (h, position-none id b.peers absent)
    | inr (pos, at) ↦
        let (p, found) = position-get_elem? id b.peers pos at in (p, rw (at, remove) found)
  ]

  remove_missing : (b : Bucket F) (id : NodeId) → has id b.peers ≡ false → (remove b id).1 ≡ none
  unfolding remove
  remove_missing b id h = elim (Option-cases (position id b.peers)) [
    | inl absent ↦ rw (absent, remove) refl
    | inr (pos, at) ↦ cc (h, position-has id b.peers pos at)
  ]

  replace_present :
      (b : Bucket F) (stale : NodeId) (p : Peer F)
      → has stale b.peers ≡ true
      → replace b stale p ≡ ((insert (remove b stale).0 p).0, true)
  unfolding replace
  replace_present b stale p h = let (old, e) = remove_present b stale h in rw (e, replace) refl

  replace_missing :
      (b : Bucket F) (stale : NodeId) (p : Peer F)
      → has stale b.peers ≡ false
      → replace b stale p ≡ (b, false)
  unfolding replace
  replace_missing b stale p h = rw (remove_missing b stale h, replace) refl

  room_after_remove :
      (b : Bucket F) (id : NodeId)
      → IsBucket b
      → has id b.peers ≡ true
      → leb k_capacity (length (remove b id).0.peers) ≡ false
  room_after_remove b id v h =
      ground (arith, ap length (remove-without b id), length-without id b.peers h, v.fits)

-- On a bucket of at most twenty peers with different ids, `replace` keeps it so. It refuses without
-- any change when the stale peer is gone; otherwise the new bucket holds the new peer, and the stale
-- one no more, unless that is the new one.
pub replace_lem :
    {F : Type 0} (b : Bucket F) (stale : NodeId) (p : Peer F)
    → IsBucket b
    → IsBucket (replace b stale p).0
      × ((replace b stale p).1 ≡ has stale b.peers)
      × (has stale b.peers ≡ false → (replace b stale p).0 ≡ b)
      × (has stale b.peers ≡ true → has p.id (replace b stale p).0.peers ≡ true)
      × (has stale b.peers ≡ true
          → bytes_eq p.id stale ≡ false
          → has stale (replace b stale p).0.peers ≡ false)
replace_lem b stale p v = elim (Bool-cases (has stale b.peers)) [
  | inl here ↦ rw (replace_present b stale p here) (
    insert-IsBucket (remove b stale).0 p (remove-IsBucket b stale v),
    sym here,
    λ gone. cc,
    λ _.
        rw (has-insert (remove b stale).0 p p.id (remove-IsBucket b stale v))
          (ground (arith, room_after_remove b stale v here, bytes_eq_refl p.id)),
    λ _ other.
        rw (has-insert (remove b stale).0 p stale (remove-IsBucket b stale v))
          (ground (arith, has-remove b stale stale v, bytes_eq_refl stale)),
  )
  | inr gone ↦ rw (replace_missing b stale p gone) (v, sym gone, λ _. refl, λ here. cc, λ here. cc)
]
