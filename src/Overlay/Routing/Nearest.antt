-- ===== src/Overlay/Routing/Nearest.antt =====
-- `nearest` (crates/werewolf-core/src/routing.rs) returns the closest peers, closest first, and
-- `handle_find_node` (find_node.rs) at most twenty of them.
use Prim.Native.Nat.{min}
use mathlib.Core.List.Perm
use mathlib.Core.List.{Perm}
use werewolfproxy.Shared.{
  ℕ, zero, suc, ◌≤◌, ◌≡◌, refl, sym, subst, Bool, true, false, some, List, [], ◌∷◌, length, take,
  drop, All, arith, Bool-cases, inl, inr, length-take,
}
use werewolfproxy.Shared.Bytes.{
  bytes_lt, bytes_lt_irrefl, bytes_lt_trans, bytes_lt_total, bytes_eq_sound,
}
use werewolfproxy.Overlay.NodeId.{NodeId, xor_distance}
use werewolfproxy.Overlay.Bucket.{Peer}
use werewolfproxy.Overlay.Routing.{
  RoutingTable, Message, all_peers, insert_by_distance, sort_by_distance, nearest, max_k,
  handle_find_node,
}

module _ {F : Type 0} (target : NodeId) where
  abbrev pub closer : Peer F → Peer F → Bool
  closer p q = bytes_lt (xor_distance target p.id) (xor_distance target q.id)

  -- No peer of the list is closer to the target than `p`.
  abbrev pub NoneCloser : Peer F → List (Peer F) → Type 0
  NoneCloser p qs = All (λ (q : Peer F). closer q p ≡ false) qs

  -- Closest first.
  abbrev pub Ascending : List (Peer F) → Type 0
  Ascending [] = Unit
  Ascending (p ∷ ps) = NoneCloser p ps × Ascending ps

  closer_asym : (p q : Peer F) → closer p q ≡ true → closer q p ≡ false
  closer_asym p q h = ground (
    arith,
    bytes_lt_irrefl (xor_distance target p.id),
    bytes_lt_trans (xor_distance target p.id) (xor_distance target q.id) (xor_distance target p.id),
  )

  not_closer_trans : (p q r : Peer F) → closer q p ≡ false → closer r q ≡ false → closer r p ≡ false
  not_closer_trans p q r h k = ground (
    arith,
    bytes_lt_total (xor_distance target q.id) (xor_distance target p.id),
    bytes_eq_sound (xor_distance target q.id) (xor_distance target p.id),
    bytes_lt_trans (xor_distance target r.id) (xor_distance target p.id) (xor_distance target q.id),
  )

  NoneCloser-trans :
      (p q : Peer F) (rs : List (Peer F)) → closer q p ≡ false → NoneCloser q rs → NoneCloser p rs
  NoneCloser-trans p q [] h k = tt
  NoneCloser-trans p q (r ∷ rs) h k = (not_closer_trans p q r h k.0, NoneCloser-trans p q rs h k.1)

  insert_first :
      (p q : Peer F) (qs : List (Peer F))
      → closer q p ≡ false
      → insert_by_distance target p (q ∷ qs) ≡ p ∷ q ∷ qs
  unfolding insert_by_distance
  insert_first p q qs h = rw (h, insert_by_distance) refl

  insert_later :
      (p q : Peer F) (qs : List (Peer F))
      → closer q p ≡ true
      → insert_by_distance target p (q ∷ qs) ≡ q ∷ insert_by_distance target p qs
  unfolding insert_by_distance
  insert_later p q qs h = rw (h, insert_by_distance) refl

  NoneCloser-insert :
      (r p : Peer F) (qs : List (Peer F))
      → closer p r ≡ false
      → NoneCloser r qs
      → NoneCloser r (insert_by_distance target p qs)
  NoneCloser-insert r p [] h k = unfold insert_by_distance in (h, tt)
  NoneCloser-insert r p (q ∷ qs) h k = elim (Bool-cases (closer q p)) [
    | inl first ↦
        subst (NoneCloser r) (sym (insert_later p q qs first)) (k.0, NoneCloser-insert r p qs h k.1)
    | inr later ↦ subst (NoneCloser r) (sym (insert_first p q qs later)) (h, k)
  ]

  Ascending-insert :
      (p : Peer F) (qs : List (Peer F)) → Ascending qs → Ascending (insert_by_distance target p qs)
  Ascending-insert p [] h = unfold insert_by_distance in (tt, tt)
  Ascending-insert p (q ∷ qs) h = elim (Bool-cases (closer q p)) [
    | inl first ↦
        subst Ascending (sym (insert_later p q qs first))
          (NoneCloser-insert q p qs (closer_asym q p first) h.0, Ascending-insert p qs h.1)
    | inr later ↦
        subst Ascending (sym (insert_first p q qs later))
          ((later, NoneCloser-trans p q qs later h.0), h)
  ]

  Ascending-sort : (ps : List (Peer F)) → Ascending (sort_by_distance target ps)
  unfolding sort_by_distance
  Ascending-sort [] = tt
  Ascending-sort (p ∷ ps) = Ascending-insert p (sort_by_distance target ps) (Ascending-sort ps)

  perm-insert : (p : Peer F) (qs : List (Peer F)) → Perm (insert_by_distance target p qs) (p ∷ qs)
  perm-insert p [] = unfold insert_by_distance in Perm.refl (p ∷ [])
  perm-insert p (q ∷ qs) = elim (Bool-cases (closer q p)) [
    | inl first ↦
        subst (λ (l : List (Peer F)). Perm l (p ∷ q ∷ qs)) (sym (insert_later p q qs first))
          (Perm.trans (Perm.cons q (perm-insert p qs)) (Perm.swap p q qs))
    | inr later ↦
        subst (λ (l : List (Peer F)). Perm l (p ∷ q ∷ qs)) (sym (insert_first p q qs later))
          (Perm.refl (p ∷ q ∷ qs))
  ]

  perm-sort : (ps : List (Peer F)) → Perm (sort_by_distance target ps) ps
  unfolding sort_by_distance
  perm-sort [] = Perm.refl []
  perm-sort (p ∷ ps) =
      Perm.trans (perm-insert p (sort_by_distance target ps)) (Perm.cons p (perm-sort ps))

  All-take : (P : Peer F → Type 0) (n : ℕ) (ps : List (Peer F)) → All P ps → All P (take n ps)
  All-take P zero ps h = tt
  All-take P (suc n) [] h = tt
  All-take P (suc n) (p ∷ ps) h = (h.0, All-take P n ps h.1)

  All-drop : (P : Peer F → Type 0) (n : ℕ) (ps : List (Peer F)) → All P ps → All P (drop n ps)
  All-drop P zero ps h = h
  All-drop P (suc n) [] h = tt
  All-drop P (suc n) (p ∷ ps) h = All-drop P n ps h.1

  Ascending-take : (n : ℕ) (ps : List (Peer F)) → Ascending ps → Ascending (take n ps)
  Ascending-take zero ps h = tt
  Ascending-take (suc n) [] h = tt
  Ascending-take (suc n) (p ∷ ps) h =
      (All-take (λ (q : Peer F). closer q p ≡ false) n ps h.0, Ascending-take n ps h.1)

  -- what is left out is no closer than what is taken
  taken-closest :
      (n : ℕ) (ps : List (Peer F))
      → Ascending ps
      → All (λ (p : Peer F). NoneCloser p (drop n ps)) (take n ps)
  taken-closest zero ps h = tt
  taken-closest (suc n) [] h = tt
  taken-closest (suc n) (p ∷ ps) h =
      (All-drop (λ (q : Peer F). closer q p ≡ false) n ps h.0, taken-closest n ps h.1)

-- `nearest` returns the first `limit` peers of a reordering of the table's peers, or all if there
-- are fewer. They stand closest first, and no peer that is left out is closer to the target than
-- one that is returned.
pub nearest_lem :
    {F : Type 0} (t : RoutingTable F) (target : NodeId) (limit : ℕ)
    → (sorted : List (Peer F)) × Perm sorted (all_peers t)
      × (nearest t target limit ≡ take limit sorted)
      × (length (nearest t target limit) ≡ min limit (length sorted))
      × Ascending target (nearest t target limit)
      × All (λ (p : Peer F). NoneCloser target p (drop limit sorted)) (nearest t target limit)
unfolding nearest
nearest_lem t target limit =
    let sorted = sort_by_distance target (all_peers t) in
    let ascending = Ascending-sort target (all_peers t) in
    (
      sorted,
      perm-sort target (all_peers t),
      refl,
      length-take limit sorted,
      Ascending-take target limit sorted ascending,
      taken-closest target limit sorted ascending,
    )

-- A FindNode request is answered in the name of the local node, about the same target, with at
-- most twenty and at most the requested number of peers, however many were asked for.
handle_find_node_lem :
    {F : Type 0} (local_id sender target : NodeId) (t : RoutingTable F) (k : ℕ)
    → (peers : List (Peer F)) × (handle_find_node local_id t (Message.find_node sender target k)
        ≡ some (Message.find_node_result local_id target peers))
      × (length peers ≤ 20)
      × (length peers ≤ k)
      × Ascending target peers
unfolding handle_find_node nearest
handle_find_node_lem local_id sender target t k =
    let sorted = sort_by_distance target (all_peers t) in
    (
      nearest t target (min k max_k),
      refl,
      omega (arith, length-take (min k max_k) sorted),
      omega (arith, length-take (min k max_k) sorted),
      Ascending-take target (min k max_k) sorted (Ascending-sort target (all_peers t)),
    )
