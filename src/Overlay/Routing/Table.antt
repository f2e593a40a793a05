-- ===== src/Overlay/Routing/Table.antt =====
-- The routing table keeps every peer in the bucket of its distance
-- (crates/werewolf-core/src/routing.rs).
use werewolfproxy.Shared.{
  ℕ, zero, suc, ◌<◌, ◌≡◌, refl, sym, ◌∙◌, ap, subst, true, false, some, List, [], ◌∷◌, length,
  get_elem?, set, All, arith, All-append, length-set, get_elem?-lt, Bool-cases, inl, inr, leb,
  get_elem?-set-cases, get_elem?_total,
}
use werewolfproxy.Shared.Bytes.{bytes_eq}
use werewolfproxy.Overlay.NodeId.{NodeId, bucket_index, bucket_index-lt}
use werewolfproxy.Overlay.Bucket
use werewolfproxy.Overlay.Bucket.{Peer, Bucket, InsertOutcome, has, insert_new, k_capacity}
use werewolfproxy.Overlay.Bucket.Laws.{
  IsBucket, without, insert-IsBucket, insert_known, insert_unknown,
}
use werewolfproxy.Overlay.Routing.{
  RoutingTable, PeerStore, new, empty_buckets, add_peer, add_all, into_routing_table,
}

module _ {F : Type 0} where
  -- the peer belongs into bucket `i`, and is not the local node
  abbrev pub Belongs : NodeId → ℕ → Peer F → Type 0
  Belongs local_id i p = (bucket_index local_id p.id ≡ i) × (bytes_eq p.id local_id ≡ false)

  pub record IsTable (t : RoutingTable F) : Type 0 where
    pub id_len : length t.local_id ≡ 32
    pub count : length t.buckets ≡ 256
    pub valid : (i : ℕ) (b : Bucket F) → get_elem? t.buckets i ≡ some b → IsBucket b
    pub placed :
        (i : ℕ) (b : Bucket F) → get_elem? t.buckets i ≡ some b → All (Belongs t.local_id i) b.peers

  without_same :
      (id : NodeId) (p : Peer F) (ps : List (Peer F))
      → bytes_eq p.id id ≡ true
      → without id (p ∷ ps) ≡ ps
  unfolding without
  without_same id p ps e = rw (e, without) refl

  without_other :
      (id : NodeId) (p : Peer F) (ps : List (Peer F))
      → bytes_eq p.id id ≡ false
      → without id (p ∷ ps) ≡ p ∷ without id ps
  unfolding without
  without_other id p ps e = rw (e, without) refl

  All-without :
      (P : Peer F → Type 0) (id : NodeId) (ps : List (Peer F)) → All P ps → All P (without id ps)
  All-without P id [] h = unfold without in tt
  All-without P id (p ∷ ps) h = elim (Bool-cases (bytes_eq p.id id)) [
    | inl e ↦ subst (All P) (sym (without_same id p ps e)) h.1
    | inr e ↦ subst (All P) (sym (without_other id p ps e)) (h.0, All-without P id ps h.1)
  ]

  All-insert_new :
      (P : Peer F → Type 0) (b : Bucket F) (p : Peer F)
      → All P b.peers
      → P p
      → All P (insert_new b p).0.peers
  unfolding insert_new
  All-insert_new P b p h hp = elim (Bool-cases (leb k_capacity (length b.peers))) [
    | inl e ↦ rw e h
    | inr e ↦ rw e (All-append P b.peers (p ∷ []) h (hp, tt))
  ]

  All-insert :
      (P : Peer F → Type 0) (b : Bucket F) (p : Peer F)
      → All P b.peers
      → P p
      → All P (Bucket.insert b p).0.peers
  All-insert P b p h hp = elim (Bool-cases (has p.id b.peers)) [
    | inl known ↦
        rw (insert_known b p known)
          (All-append P (without p.id b.peers) (p ∷ []) (All-without P p.id b.peers h) (hp, tt))
    | inr unknown ↦ rw (insert_unknown b p unknown) (All-insert_new P b p h hp)
  ]

  -- Writing one bucket that keeps the rules keeps the table's.
  set-IsTable :
      (t : RoutingTable F) (i : ℕ) (b : Bucket F)
      → IsTable t
      → i < length t.buckets
      → IsBucket b
      → All (Belongs t.local_id i) b.peers
      → IsTable (record t { buckets = set t.buckets i b })
  set-IsTable t i b v lt bv bp = record {
    id_len = v.id_len;
    count = length-set t.buckets i b ∙ v.count;
    valid = λ j c at. elim (get_elem?-set-cases t.buckets i j b c at) [
      | inl e ↦ subst IsBucket e.1 bv
      | inr e ↦ v.valid j c e
    ];
    placed = λ j c at. elim (get_elem?-set-cases t.buckets i j b c at) [
      | inl e ↦
          subst (λ (n : ℕ). All (Belongs t.local_id n) c.peers) e.0
            (subst (λ (x : Bucket F). All (Belongs t.local_id i) x.peers) e.1 bp)
      | inr e ↦ v.placed j c e
    ];
  }

  -- The bucket that an id falls into is there.
  bucket_there :
      (t : RoutingTable F) (id : NodeId)
      → IsTable t
      → (b : Bucket F) × (get_elem? t.buckets (bucket_index t.local_id id) ≡ some b)
  bucket_there t id v =
      get_elem?_total t.buckets (bucket_index t.local_id id)
        (rw v.count (bucket_index-lt t.local_id id v.id_len))

  -- What `add_peer` comes to on a table that keeps the rules: it never indexes out of range.
  pub record Added (t : RoutingTable F) (p : Peer F) : Type 0 where
    pub table : RoutingTable F
    pub outcome : InsertOutcome F
    pub result : add_peer t p ≡ some (table, outcome)
    pub valid : IsTable table
    pub same_id : table.local_id ≡ t.local_id

  add_local :
      (t : RoutingTable F) (p : Peer F)
      → bytes_eq p.id t.local_id ≡ true
      → add_peer t p ≡ some (t, InsertOutcome.local_node)
  unfolding add_peer
  add_local t p e = rw e refl

  add_other :
      (t : RoutingTable F) (p : Peer F) (b : Bucket F)
      → bytes_eq p.id t.local_id ≡ false
      → get_elem? t.buckets (bucket_index t.local_id p.id) ≡ some b
      → add_peer t p
        ≡ some (
          record t { buckets = set t.buckets (bucket_index t.local_id p.id) (Bucket.insert b p).0 },
          (Bucket.insert b p).1,
        )
  unfolding add_peer
  add_other t p b e at = rw e (rw at refl)

-- `add_peer` on a table that keeps the rules always returns, and the new table keeps them: 256
-- buckets, at most twenty peers with different ids in each, every peer in the bucket of its
-- distance to the local id, and the local node in none.
pub add_peer-Added : {F : Type 0} (t : RoutingTable F) (p : Peer F) → IsTable t → Added t p
add_peer-Added t p v = elim (Bool-cases (bytes_eq p.id t.local_id)) [
  | inl own ↦ record {
    table = t;
    outcome = InsertOutcome.local_node;
    result = add_local t p own;
    valid = v;
    same_id = refl;
  }
  | inr other ↦
      let i = bucket_index t.local_id p.id in
      let (b, at) = bucket_there t p.id v in
      record {
        table = record t { buckets = set t.buckets i (Bucket.insert b p).0 };
        outcome = (Bucket.insert b p).1;
        result = add_other t p b other at;
        valid =
            set-IsTable t i (Bucket.insert b p).0 v (get_elem?-lt t.buckets i b at)
              (insert-IsBucket b p (v.valid i b at))
              (All-insert (Belongs t.local_id i) b p (v.placed i b at) (refl, other));
        same_id = refl;
      }
]

length-empty_buckets : (F : Type 0) (n : ℕ) → length (empty_buckets {F = F} n) ≡ n
unfolding empty_buckets
length-empty_buckets F zero = refl
length-empty_buckets F (suc n) = ap suc (length-empty_buckets F n)

module _ {F : Type 0} where
  get_elem?-empty_buckets :
      (n i : ℕ) (b : Bucket F) → get_elem? (empty_buckets n) i ≡ some b → b ≡ record { peers = [] }
  unfolding empty_buckets
  get_elem?-empty_buckets zero i b h = cc
  get_elem?-empty_buckets (suc n) zero b h = cc
  get_elem?-empty_buckets (suc n) (suc i) b h = get_elem?-empty_buckets n i b h

  pub new-IsTable : (id : NodeId) → length id ≡ 32 → IsTable (new {F = F} id)
  unfolding new
  new-IsTable id len = record {
    id_len = len;
    count = length-empty_buckets F 256;
    valid = λ i b at.
        subst IsBucket (sym (get_elem?-empty_buckets 256 i b at))
          (record { fits = omega arith; distinct = tt });
    placed = λ i b at.
        subst (λ (c : Bucket F). All (Belongs id i) c.peers)
          (sym (get_elem?-empty_buckets 256 i b at)) tt;
  }

  add_all-cons :
      (t u : RoutingTable F) (p : Peer F) (ps : List (Peer F)) (o : InsertOutcome F)
      → add_peer t p ≡ some (u, o)
      → add_all t (p ∷ ps) ≡ add_all u ps
  unfolding add_all
  add_all-cons t u p ps o e = rw (e, add_all) refl

  add_all-IsTable :
      (t : RoutingTable F) (ps : List (Peer F))
      → IsTable t
      → (u : RoutingTable F) × (add_all t ps ≡ some u) × IsTable u
  add_all-IsTable t [] v = (t, unfold add_all in refl, v)
  add_all-IsTable t (p ∷ ps) v =
      let a = add_peer-Added t p v in
      let (u, e, w) = add_all-IsTable a.table ps a.valid in
      (u, add_all-cons t a.table p ps a.outcome a.result ∙ e, w)

-- A peer store whose local id has 32 bytes loads, whatever its peers, into a table that keeps the
-- rules.
into_routing_table-IsTable :
    {F : Type 0} (store : PeerStore F)
    → length store.local_id ≡ 32
    → (t : RoutingTable F) × (into_routing_table store ≡ some t) × IsTable t
unfolding into_routing_table
into_routing_table-IsTable store len =
    add_all-IsTable (new store.local_id) store.peers (new-IsTable store.local_id len)
