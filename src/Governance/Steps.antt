-- ===== src/Governance/Steps.antt =====
-- The ways in which `apply` accepts a statement on an existing head, with what each one checked.
use werewolfproxy.Shared.{
  ◌+◌, ◌≤◌, ◌≡◌, sym, true, false, Option, none, some, List, [], ◌∷◌, ◌++◌, get_elem?, ◌==◌, arith,
}
use werewolfproxy.Shared.Bytes.{bytes_eq, bytes_eq_sound}
use werewolfproxy.Shared.Results.{ok, ◌>>=◌, ◌>>◌, >>=-eq-ok, ok-injective}
use werewolfproxy.Governance.Types.{Crypto, Key, Hash, Head, Core, Statement, Outcome}
use werewolfproxy.Governance.Encoding.{hash}
use werewolfproxy.Governance.Rules.{index_or_panic, check_signatures}
use werewolfproxy.Governance.Chain.{
  keys, keys_before, is_death, on_dead, on_recorded, body_effect, extend, apply_next,
}
use werewolfproxy.Governance.Effects.{Effect, body_effect-eq-ok}

module _ (crypto : Crypto) where
  -- What `apply` has checked when it extends a head, and what the new head is.
  pub record Extension (head : Head) (s : Statement) (next : Head) : Type 0 where
    pub alive : head.dead_at ≡ none
    pub fence : head.forked ≡ true → is_death s.core.body ≡ true
    pub network : s.core.network_id ≡ head.network_id
    pub sequence_eq : s.core.sequence ≡ head.sequence + 1
    pub previous_eq : s.core.previous ≡ head.hash
    pub current : List Key
    pub current_eq : keys head ≡ ok current
    pub signed : check_signatures crypto s current head.threshold ≡ ok tt
    pub changed : Head
    pub effect : Effect crypto head s.core.sequence s.core.body changed
    pub next_eq : next ≡ record changed {
      sequence = s.core.sequence;
      hash = hash crypto s.core;
      applied = changed.applied ++ hash crypto s.core ∷ [];
    }

  -- What `apply` has checked when it reports a fork.
  pub record Conflict (head : Head) (s : Statement) (fenced : Head) : Type 0 where
    pub alive : head.dead_at ≡ none
    pub network : s.core.network_id ≡ head.network_id
    pub sequence_le : s.core.sequence ≤ head.sequence
    pub recorded : Hash
    pub recorded_eq : get_elem? head.applied s.core.sequence ≡ some recorded
    pub differs : bytes_eq recorded (hash crypto s.core) ≡ false
    pub not_genesis : (s.core.sequence == 0) ≡ false
    pub past : List Key
    pub past_eq : keys_before head s.core.sequence ≡ ok past
    pub signed : check_signatures crypto s past head.threshold ≡ ok tt
    pub fenced_eq : fenced ≡ record head { forked = true }

  pub applied-injective : {a b : Head} → Outcome.applied a ≡ Outcome.applied b → a ≡ b
  applied-injective p = cc

  fork-injective : {a b : Head} → Outcome.fork a ≡ Outcome.fork b → a ≡ b
  fork-injective p = cc

  abbrev extended_head : Head → Core → Head
  extended_head n core = record n {
    sequence = core.sequence;
    hash = hash crypto core;
    applied = n.applied ++ hash crypto core ∷ [];
  }

  on_dead-not_applied :
      (head next : Head) (core : Core) → ¬ (on_dead crypto head core ≡ ok (Outcome.applied next))
  unfolding on_dead
  on_dead-not_applied head next core h = ground arith

  on_dead-not_fork :
      (head next : Head) (core : Core) → ¬ (on_dead crypto head core ≡ ok (Outcome.fork next))
  unfolding on_dead
  on_dead-not_fork head next core h = ground arith

  on_recorded-not_applied :
      (head next : Head) (s : Statement) → ¬ (on_recorded crypto head s ≡ ok (Outcome.applied next))
  unfolding on_recorded
  on_recorded-not_applied head next s h = ground arith

  extend-not_fork :
      (head next : Head) (s : Statement) → ¬ (extend crypto head s ≡ ok (Outcome.fork next))
  unfolding extend
  extend-not_fork head next s h = ground arith

  -- the tests that stand before `extend`
  apply_next-applied :
      (head next : Head) (s : Statement)
      → apply_next crypto head s ≡ ok (Outcome.applied next)
      → (head.dead_at ≡ none)
        × ((head.forked ≡ true) → is_death s.core.body ≡ true)
        × (s.core.network_id ≡ head.network_id)
        × (s.core.sequence ≡ head.sequence + 1)
        × (s.core.previous ≡ head.hash)
        × (extend crypto head s ≡ ok (Outcome.applied next))
  unfolding apply_next
  apply_next-applied head next s h = ground (
    arith,
    on_dead-not_applied head next s.core,
    on_recorded-not_applied head next s,
    bytes_eq_sound s.core.network_id head.network_id,
    bytes_eq_sound s.core.previous head.hash,
  )

  -- A new head comes from a statement that passed every test.
  pub apply_next-Extension :
      (head next : Head) (s : Statement)
      → apply_next crypto head s ≡ ok (Outcome.applied next)
      → Extension head s next
  unfolding extend
  apply_next-Extension head next s h =
      let (alive, fence, network, seq, prev, e) = apply_next-applied head next s h in
      let (current, e1, h1) = >>=-eq-ok (keys head) _ e in
      let (u, e2, h2) = >>=-eq-ok (check_signatures crypto s current head.threshold) _ h1 in
      let (changed, e3, h3) =
        >>=-eq-ok (body_effect crypto head s.core.sequence s.core.body) _ h2 in
      record {
        alive = alive;
        fence = fence;
        network = network;
        sequence_eq = seq;
        previous_eq = prev;
        current = current;
        current_eq = e1;
        signed = e2;
        changed = changed;
        effect = body_effect-eq-ok crypto head changed s.core.sequence s.core.body e3;
        next_eq = sym (applied-injective (ok-injective h3));
      }

  apply_next-forks :
      (head fenced : Head) (s : Statement)
      → apply_next crypto head s ≡ ok (Outcome.fork fenced)
      → (head.dead_at ≡ none)
        × (s.core.network_id ≡ head.network_id)
        × (s.core.sequence ≤ head.sequence)
        × (on_recorded crypto head s ≡ ok (Outcome.fork fenced))
  unfolding apply_next
  apply_next-forks head fenced s h = ground (
    arith,
    on_dead-not_fork head fenced s.core,
    extend-not_fork head fenced s,
    bytes_eq_sound s.core.network_id head.network_id,
  )

  on_recorded-forks :
      (head fenced : Head) (s : Statement) (recorded : Hash)
      → get_elem? head.applied s.core.sequence ≡ some recorded
      → on_recorded crypto head s ≡ ok (Outcome.fork fenced)
      → (bytes_eq recorded (hash crypto s.core) ≡ false)
        × ((s.core.sequence == 0) ≡ false)
        × ((do
          ks ← keys_before head s.core.sequence
          check_signatures crypto s ks head.threshold
          ok (Outcome.fork (record head { forked = true })))
            ≡ ok (Outcome.fork fenced))
  unfolding on_recorded
  on_recorded-forks head fenced s recorded e h = ground arith

  index-eq-ok : (o : Option Hash) (r : Hash) → index_or_panic o ≡ ok r → o ≡ some r
  index-eq-ok none r h = cc
  index-eq-ok (some x) r h = cc

  -- A reported fork comes from a signed statement that differs from the recorded one.
  pub apply_next-Conflict :
      (head fenced : Head) (s : Statement)
      → apply_next crypto head s ≡ ok (Outcome.fork fenced)
      → Conflict head s fenced
  unfolding on_recorded
  apply_next-Conflict head fenced s h =
      let (alive, network, le, e) = apply_next-forks head fenced s h in
      let (recorded, e1, h1) =
        >>=-eq-ok (index_or_panic (get_elem? head.applied s.core.sequence)) _ e in
      let at = index-eq-ok (get_elem? head.applied s.core.sequence) recorded e1 in
      let (differs, not_genesis, h2) = on_recorded-forks head fenced s recorded at e in
      let (past, e3, h3) = >>=-eq-ok (keys_before head s.core.sequence) _ h2 in
      let (u, e4, h4) = >>=-eq-ok (check_signatures crypto s past head.threshold) _ h3 in
      record {
        alive = alive;
        network = network;
        sequence_le = le;
        recorded = recorded;
        recorded_eq = at;
        differs = differs;
        not_genesis = not_genesis;
        past = past;
        past_eq = e3;
        signed = e4;
        fenced_eq = sym (fork-injective (ok-injective h4));
      }
