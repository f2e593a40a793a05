-- ===== src/Governance/Authority.antt =====
-- Who can change the chain: what an accepted statement's signatures are
-- (`check_signatures` and `apply` of crates/werewolf-core/src/governance.rs).
use werewolfproxy.Shared.{
  ℕ, ◌+◌, ◌≤◌, ◌≡◌, refl, ◌↔◌, subst, true, false, ◌&&◌, Option, none, some, List, [], ◌∷◌, length,
  get_elem?, leb, ltb, arith, All, &&-true, leb→le, le→leb, get_elem?-lt,
}
use werewolfproxy.Shared.Bytes.{Bytes, bytes_eq}
use werewolfproxy.Shared.Results.{ok, >>=-eq-ok, ensure-bind-eq-ok}
use werewolfproxy.Governance.Types.{Crypto, Key, Hash, Head, Statement, Outcome}
use werewolfproxy.Governance.Encoding.{signing_input, hash}
use werewolfproxy.Governance.Rules.{
  above, index_or_panic, valid_signature, verify_entries, check_signatures,
}
use werewolfproxy.Governance.Chain.{apply, keys, keys_before}
use werewolfproxy.Governance.WellFormed.{IsWellFormed}
use werewolfproxy.Governance.Steps.{apply_next-Extension, apply_next-Conflict}

-- The key indices increase strictly, from above `last`: no index stands twice.
abbrev pub Ordered : Option ℕ → List (ℕ × Bytes) → Type 0
Ordered last [] = Unit
Ordered last ((i, sig) ∷ sigs) = (above last i ≡ true) × Ordered (some i) sigs

-- Every entry is a valid signature of the key at its index, a strong one.
abbrev pub SignedBy : Crypto → Bytes → List Key → ℕ × Bytes → Type 0
SignedBy crypto input ks entry =
    (k : Key) × (get_elem? ks entry.0 ≡ some k) × (valid_signature crypto input k entry.1 ≡ true)

-- At least `threshold` signatures over `core`, of different keys of `ks`.
pub record Authorised (crypto : Crypto) (s : Statement) (ks : List Key) (threshold : ℕ)
    : Type 0 where
  enough : threshold ≤ length s.signatures
  not_more : length s.signatures ≤ length ks
  ordered : Ordered none s.signatures
  pub valid : All (SignedBy crypto (signing_input s.core) ks) s.signatures

module _ (crypto : Crypto) (input : Bytes) (ks : List Key) where
  verify_entries_sound :
      (last : Option ℕ) (sigs : List (ℕ × Bytes)) (u : Unit {0})
      → verify_entries crypto input ks last sigs ≡ ok u
      → Ordered last sigs × All (SignedBy crypto input ks) sigs
  unfolding verify_entries
  verify_entries_sound last [] u h = (tt, tt)
  verify_entries_sound last ((i, sig) ∷ sigs) u h =
      let (in_order, h1) = ensure-bind-eq-ok (above last i && ltb i (length ks)) _ _ h in
      let (k, e, h2) = >>=-eq-ok (index_or_panic (get_elem? ks i)) _ h1 in
      let (good, h3) = ensure-bind-eq-ok (valid_signature crypto input k sig) _ _ h2 in
      let (rest_order, rest) = verify_entries_sound (some i) sigs u h3 in
      (
        ((&&-true (above last i) (ltb i (length ks)) in_order).0, rest_order),
        ((k, index-some (get_elem? ks i) k e, good), rest),
      )
    where
      index-some : (o : Option Key) (k : Key) → index_or_panic o ≡ ok k → o ≡ some k
      index-some none k p = cc
      index-some (some x) k p = cc

  verify_entries_complete :
      (last : Option ℕ) (sigs : List (ℕ × Bytes))
      → Ordered last sigs
      → All (SignedBy crypto input ks) sigs
      → verify_entries crypto input ks last sigs ≡ ok tt
  unfolding verify_entries
  verify_entries_complete last [] o v = refl
  verify_entries_complete last ((i, sig) ∷ sigs) (o, os) ((k, at, good), vs) =
      ground (arith, get_elem?-lt ks i k at, verify_entries_complete (some i) sigs os vs)

module _ (crypto : Crypto) (s : Statement) (ks : List Key) (threshold : ℕ) where
  check_signatures-Authorised :
      check_signatures crypto s ks threshold ≡ ok tt → Authorised crypto s ks threshold
  unfolding check_signatures
  check_signatures-Authorised h =
      let (sizes, h1) =
        ensure-bind-eq-ok
          (leb threshold (length s.signatures) && leb (length s.signatures) (length ks)) _ _ h in
      let (low, high) =
        &&-true (leb threshold (length s.signatures)) (leb (length s.signatures) (length ks))
          sizes in
      let (ordered, valid) =
        verify_entries_sound crypto (signing_input s.core) ks none s.signatures tt h1 in
      record {
        enough = leb→le threshold (length s.signatures) low;
        not_more = leb→le (length s.signatures) (length ks) high;
        ordered = ordered;
        valid = valid;
      }

  Authorised-check_signatures :
      Authorised crypto s ks threshold → check_signatures crypto s ks threshold ≡ ok tt
  unfolding check_signatures
  Authorised-check_signatures a =
      rw
        (
          le→leb threshold (length s.signatures) a.enough,
          le→leb (length s.signatures) (length ks) a.not_more,
        )
        (verify_entries_complete crypto (signing_input s.core) ks none s.signatures a.ordered
          a.valid)

-- `check_signatures` accepts exactly the statements with at least `threshold` signatures, and at most
-- one for each key of the list, whose key indices increase strictly, each a strictly valid signature
-- over the signing input by the strong key at its index.
pub check_signatures_iff :
    (crypto : Crypto) (s : Statement) (ks : List Key) (threshold : ℕ)
    → (check_signatures crypto s ks threshold ≡ ok tt) ↔ Authorised crypto s ks threshold
check_signatures_iff crypto s ks threshold = (
  check_signatures-Authorised crypto s ks threshold,
  Authorised-check_signatures crypto s ks threshold,
)

-- A well-formed head is extended only by a statement of its own network that follows its head
-- statement, and that has at least seven valid signatures of keys in force, at increasing indices.
pub applied-Authorised :
    (crypto : Crypto) (head next : Head) (s : Statement) (expect : Option Hash)
    → IsWellFormed head
    → apply crypto (some head) s expect ≡ ok (Outcome.applied next)
    → (s.core.network_id ≡ head.network_id)
      × (s.core.sequence ≡ head.sequence + 1)
      × (s.core.previous ≡ head.hash)
      × ((ks : List Key) × (keys head ≡ ok ks) × Authorised crypto s ks 7)
unfolding apply
applied-Authorised crypto head next s expect w h =
    let e = apply_next-Extension crypto head next s h in
    let signed =
      subst (λ (t : ℕ). check_signatures crypto s e.current t ≡ ok tt) w.threshold_eq e.signed in
    (
      e.network,
      e.sequence_eq,
      e.previous_eq,
      (e.current, e.current_eq, check_signatures-Authorised crypto s e.current 7 signed),
    )

-- A well-formed head is fenced only on evidence that the keys of the time signed: a statement at
-- a taken sequence whose hash is not the one recorded there, with at least seven valid signatures
-- of keys in force before it, at increasing indices. The fence changes nothing else.
pub fork-Authorised :
    (crypto : Crypto) (head fenced : Head) (s : Statement) (expect : Option Hash)
    → IsWellFormed head
    → apply crypto (some head) s expect ≡ ok (Outcome.fork fenced)
    → (fenced ≡ record head { forked = true })
      × ((r : Hash) × (get_elem? head.applied s.core.sequence ≡ some r)
          × (bytes_eq r (hash crypto s.core) ≡ false))
      × ((ks : List Key) × (keys_before head s.core.sequence ≡ ok ks) × Authorised crypto s ks 7)
unfolding apply
fork-Authorised crypto head fenced s expect w h =
    let c = apply_next-Conflict crypto head fenced s h in
    let signed =
      subst (λ (t : ℕ). check_signatures crypto s c.past t ≡ ok tt) w.threshold_eq c.signed in
    (
      c.fenced_eq,
      (c.recorded, c.recorded_eq, c.differs),
      (c.past, c.past_eq, check_signatures-Authorised crypto s c.past 7 signed),
    )
