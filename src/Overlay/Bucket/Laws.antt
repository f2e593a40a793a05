-- ===== src/Overlay/Bucket/Laws.antt =====
-- What `KBucket::insert` and `remove` (crates/werewolf-core/src/kbucket.rs) do.
use werewolfproxy.Shared.{
  ℕ, zero, suc, ◌+◌, ◌≤◌, ◌≡◌, refl, sym, ap, true, false, not, ◌&&◌, ◌||◌, none, some, List, [],
  ◌∷◌, ◌++◌, length, remove_at, leb, arith, length-append, Option-cases, Bool-cases, inl, inr,
}
use werewolfproxy.Shared.Bytes.{bytes_eq, bytes_eq_sound, bytes_eq_refl}
use werewolfproxy.Overlay.NodeId.{NodeId}
use werewolfproxy.Overlay.Bucket.{
  Peer, Bucket, InsertOutcome, k_capacity, position, has, insert_new, insert, remove,
}

module _ {F : Type 0} where
  -- No two peers of the list have the same id.
  abbrev pub Distinct : List (Peer F) → Type 0
  Distinct [] = Unit
  Distinct (p ∷ ps) = (has p.id ps ≡ false) × Distinct ps

  -- A bucket holds at most twenty peers, with different ids.
  pub record IsBucket (b : Bucket F) : Type 0 where
    pub fits : length b.peers ≤ 20
    pub distinct : Distinct b.peers

  -- the list without the first peer that has the id
  unfoldable pub without : NodeId → List (Peer F) → List (Peer F)
  without id [] = []
  without id (p ∷ ps) =
      let rest = without id ps in elim (bytes_eq p.id id) [ true ↦ ps | false ↦ p ∷ rest ]

  position-without :
      (id : NodeId) (ps : List (Peer F)) (pos : ℕ)
      → position id ps ≡ some pos
      → remove_at pos ps ≡ without id ps
  unfolding position without
  position-without id [] pos h = cc
  position-without id (p ∷ ps) zero h = ground arith
  position-without id (p ∷ ps) (suc pos) h = ground (arith, position-without id ps pos)

  pub position-has :
      (id : NodeId) (ps : List (Peer F)) (pos : ℕ) → position id ps ≡ some pos → has id ps ≡ true
  unfolding position has
  position-has id [] pos h = cc
  position-has id (p ∷ ps) zero h = ground arith
  position-has id (p ∷ ps) (suc pos) h = ground (arith, position-has id ps pos)

  pub position-none : (id : NodeId) (ps : List (Peer F)) → position id ps ≡ none → has id ps ≡ false
  unfolding position has
  position-none id [] h = refl
  position-none id (p ∷ ps) h = ground (arith, position-none id ps)

  has-without :
      (id j : NodeId) (ps : List (Peer F))
      → Distinct ps
      → has j (without id ps) ≡ (not (bytes_eq id j) && has j ps)
  unfolding without has
  has-without id j [] d = ground arith
  has-without id j (p ∷ ps) d = ground (
    arith,
    has-without id j ps d.1,
    bytes_eq_sound p.id id,
    bytes_eq_sound p.id j,
    bytes_eq_sound id j,
    bytes_eq_refl id,
    d.0,
  )

  Distinct-without : (id : NodeId) (ps : List (Peer F)) → Distinct ps → Distinct (without id ps)
  unfolding without has
  Distinct-without id [] d = tt
  Distinct-without id (p ∷ ps) d =
      ground (arith, has-without id p.id ps d.1, Distinct-without id ps d.1)

  pub length-without :
      (id : NodeId) (ps : List (Peer F)) → has id ps ≡ true → length (without id ps) + 1 ≡ length ps
  unfolding without has
  length-without id [] h = cc
  length-without id (p ∷ ps) h = ground (arith, length-without id ps)

  has-append :
      (j : NodeId) (p : Peer F) (ps : List (Peer F))
      → has j (ps ++ p ∷ []) ≡ (has j ps || bytes_eq p.id j)
  unfolding has
  has-append j p [] = ground arith
  has-append j p (q ∷ ps) = ground (arith, has-append j p ps)

  Distinct-append :
      (p : Peer F) (ps : List (Peer F))
      → Distinct ps
      → has p.id ps ≡ false
      → Distinct (ps ++ p ∷ [])
  unfolding has
  Distinct-append p [] d h = (refl, tt)
  Distinct-append p (q ∷ ps) d h = (
    ground (arith, has-append q.id p ps, bytes_eq_sound p.id q.id, bytes_eq_refl q.id, d.0),
    Distinct-append p ps d.1 (ground arith),
  )

  -- A known peer moves to the most recent end, with its new data.
  pub insert_known :
      (b : Bucket F) (p : Peer F)
      → has p.id b.peers ≡ true
      → insert b p ≡ (record { peers = without p.id b.peers ++ p ∷ [] }, InsertOutcome.refreshed)
  unfolding insert
  insert_known b p known = elim (Option-cases (position p.id b.peers)) [
    | inl absent ↦ cc (known, position-none p.id b.peers absent)
    | inr (pos, at) ↦ rw (at, insert) (rw (position-without p.id b.peers pos at) refl)
  ]

  pub insert_unknown :
      (b : Bucket F) (p : Peer F) → has p.id b.peers ≡ false → insert b p ≡ insert_new b p
  unfolding insert
  insert_unknown b p unknown = elim (Option-cases (position p.id b.peers)) [
    | inl absent ↦ rw (absent, insert) refl
    | inr (pos, at) ↦ cc (unknown, position-has p.id b.peers pos at)
  ]

  insert_known-IsBucket :
      (b : Bucket F) (p : Peer F) → IsBucket b → has p.id b.peers ≡ true → IsBucket (insert b p).0
  insert_known-IsBucket b p v known = rw (insert_known b p known) (record {
    fits = omega (
      arith,
      length-append (without p.id b.peers) (p ∷ []),
      length-without p.id b.peers known,
      v.fits,
    );
    distinct =
        Distinct-append p (without p.id b.peers) (Distinct-without p.id b.peers v.distinct)
          (ground (arith, has-without p.id p.id b.peers v.distinct, bytes_eq_refl p.id));
  })

  insert_new-IsBucket :
      (b : Bucket F) (p : Peer F)
      → IsBucket b
      → has p.id b.peers ≡ false
      → IsBucket (insert_new b p).0
  unfolding insert_new
  insert_new-IsBucket b p v unknown = elim (Bool-cases (leb k_capacity (length b.peers))) [
    | inl is_full ↦ rw is_full v
    | inr room ↦ rw room (record {
      fits = ground (arith, length-append b.peers (p ∷ []));
      distinct = Distinct-append p b.peers v.distinct unknown;
    })
  ]

  -- Insertion keeps a bucket within twenty peers with different ids.
  pub insert-IsBucket : (b : Bucket F) (p : Peer F) → IsBucket b → IsBucket (insert b p).0
  insert-IsBucket b p v = elim (Bool-cases (has p.id b.peers)) [
    | inl known ↦ insert_known-IsBucket b p v known
    | inr unknown ↦ rw (insert_unknown b p unknown) (insert_new-IsBucket b p v unknown)
  ]

  without_absent : (id : NodeId) (ps : List (Peer F)) → has id ps ≡ false → without id ps ≡ ps
  unfolding without has
  without_absent id [] h = refl
  without_absent id (p ∷ ps) h = ground (arith, without_absent id ps)

  length-without-le : (id : NodeId) (ps : List (Peer F)) → length (without id ps) ≤ length ps
  unfolding without
  length-without-le id [] = omega arith
  length-without-le id (p ∷ ps) = ground (arith, length-without-le id ps)

  -- `remove` takes out the peer with the id, if there is one.
  pub remove-without : (b : Bucket F) (id : NodeId) → (remove b id).0.peers ≡ without id b.peers
  unfolding remove
  remove-without b id = elim (Option-cases (position id b.peers)) [
    | inl absent ↦
        rw (absent, remove) (sym (without_absent id b.peers (position-none id b.peers absent)))
    | inr (pos, at) ↦ rw (at, remove) (position-without id b.peers pos at)
  ]

  pub remove-IsBucket : (b : Bucket F) (id : NodeId) → IsBucket b → IsBucket (remove b id).0
  remove-IsBucket b id v = record {
    fits = omega (arith, ap length (remove-without b id), length-without-le id b.peers, v.fits);
    distinct = rw (remove-without b id) (Distinct-without id b.peers v.distinct);
  }

  -- After `remove` no peer has the id, and the others are still there.
  pub has-remove :
      (b : Bucket F) (id j : NodeId)
      → IsBucket b
      → has j (remove b id).0.peers ≡ (not (bytes_eq id j) && has j b.peers)
  has-remove b id j v = rw (remove-without b id) (has-without id j b.peers v.distinct)

  -- After an insertion into a bucket of at most twenty peers with different ids, an id is in it if
  -- it was before, or is the new peer's and there was room.
  pub has-insert :
      (b : Bucket F) (p : Peer F) (j : NodeId)
      → IsBucket b
      → has j (insert b p).0.peers
        ≡ (has j b.peers || (bytes_eq p.id j && not (leb k_capacity (length b.peers))))
  has-insert b p j v = elim (Bool-cases (has p.id b.peers)) [
    | inl known ↦ rw (insert_known b p known) (
        ground (
          arith,
          has-append j p (without p.id b.peers),
          has-without p.id j b.peers v.distinct,
          bytes_eq_sound p.id j,
        ))
    | inr unknown ↦
        rw (insert_unknown b p unknown)
          (unfold insert_new in ground (arith, has-append j p b.peers, bytes_eq_sound p.id j))
  ]
