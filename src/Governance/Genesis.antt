-- ===== src/Governance/Genesis.antt =====
-- The first statement: `apply` without a head (crates/werewolf-core/src/governance.rs).
use werewolfproxy.Shared.{
  ℕ, ◌≡◌, refl, sym, ◌∙◌, ap, subst, true, false, ◌&&◌, Option, none, some, List, [], ◌∷◌, ◌++◌,
  length, ◌==◌, arith, &&-true, ==_iff,
}
use werewolfproxy.Shared.Bytes.{bytes_eq, bytes_eq_sound}
use werewolfproxy.Shared.Sorted.{contains, increasing}
use werewolfproxy.Shared.Results.{ok, >>=-eq-ok, ensure-bind-eq-ok, ok-injective}
use werewolfproxy.Governance.Types.{Crypto, Key, Hash, Head, Body, Core, Statement, Outcome}
use werewolfproxy.Governance.Encoding.{hash}
use werewolfproxy.Governance.Rules.{distinct_from, genesis_keys, check_genesis, check_signatures}
use werewolfproxy.Governance.Chain.{apply_genesis, apply_first, is_expected, zero_hash, last?}
use werewolfproxy.Governance.HeadCheck.{first_at_zero, epochs_increase, all_full}
use werewolfproxy.Governance.WellFormed.{IsWellFormed}
use werewolfproxy.Governance.Steps.{applied-injective}

abbrev pub genesis_head : Crypto → Core → List Key → Head
genesis_head crypto core ks = record {
  network_id = core.network_id;
  sequence = 0;
  hash = hash crypto core;
  threshold = 7;
  key_epochs = (0, ks) ∷ [];
  revoked = [];
  applied = hash crypto core ∷ [];
  forked = false;
  roster = [];
  activated_at = none;
  dead_at = none;
}

module _ (crypto : Crypto) where
  genesis_keys-distinct :
      (seen ks : List Key) (u : Unit {0})
      → genesis_keys crypto seen ks ≡ ok u
      → distinct_from seen ks ≡ true
  unfolding genesis_keys distinct_from
  genesis_keys-distinct seen [] u h = refl
  genesis_keys-distinct seen (k ∷ ks) u h =
      ground (arith, genesis_keys-distinct (seen ++ k ∷ []) ks u)

  -- What `apply` has checked when it accepts a genesis, and the head that it makes.
  pub record Founding (s : Statement) (expect : Option Hash) (head : Head) : Type 0 where
    pub founders : List Key
    pub body_eq : s.core.body ≡ Body.genesis 7 founders
    pub pinned : expect ≡ some (hash crypto s.core)
    pub ten : length founders ≡ 10
    pub distinct : distinct_from [] founders ≡ true
    pub signed : check_signatures crypto s founders 7 ≡ ok tt
    pub head_eq : head ≡ genesis_head crypto s.core founders

  expected_sound : (e : Option Hash) (h : Hash) → is_expected e h ≡ true → e ≡ some h
  expected_sound none h p = cc
  expected_sound (some x) h p = ap some (bytes_eq_sound x h p)

  apply_genesis-Founding :
      (threshold : ℕ) (ks : List Key) (s : Statement) (expect : Option Hash) (head : Head)
      → s.core.body ≡ Body.genesis threshold ks
      → apply_genesis crypto threshold ks s expect ≡ ok (Outcome.applied head)
      → Founding s expect head
  unfolding apply_genesis check_genesis
  apply_genesis-Founding threshold ks s expect head b h =
      let (start, h1) =
        ensure-bind-eq-ok (s.core.sequence == 0 && bytes_eq s.core.previous zero_hash) _ _ h in
      let (pin, h2) = ensure-bind-eq-ok (is_expected expect (hash crypto s.core)) _ _ h1 in
      let (u, e3, h3) = >>=-eq-ok (check_genesis crypto threshold ks) _ h2 in
      let (u', e4, h4) = >>=-eq-ok (check_signatures crypto s ks threshold) _ h3 in
      let (sizes, e5) = ensure-bind-eq-ok (threshold == 7 && length ks == 10) _ _ e3 in
      let (thr, ten) = &&-true (threshold == 7) (length ks == 10) sizes in
      let seven = (==_iff threshold 7).0 thr in
      record {
        founders = ks;
        body_eq = b ∙ ap (λ (t : ℕ). Body.genesis t ks) seven;
        pinned = expected_sound expect (hash crypto s.core) pin;
        ten = (==_iff (length ks) 10).0 ten;
        distinct = genesis_keys-distinct [] ks u e5;
        signed = subst (λ (t : ℕ). check_signatures crypto s ks t ≡ ok tt) seven e4;
        head_eq =
            sym (applied-injective crypto (ok-injective h4))
            ∙ ap (λ (t : ℕ). record (genesis_head crypto s.core ks) { threshold = t }) seven;
      }

  apply_first-cases :
      (b : Body) (s : Statement) (expect : Option Hash) (head : Head)
      → s.core.body ≡ b
      → apply_first crypto b s expect ≡ ok (Outcome.applied head)
      → Founding s expect head
  unfolding apply_first
  apply_first-cases (Body.genesis t ks) s expect head b h =
      apply_genesis-Founding t ks s expect head b h
  apply_first-cases (Body.rotation es) s expect head b h = cc
  apply_first-cases (Body.revocation ks) s expect head b h = cc
  apply_first-cases (Body.admission ks) s expect head b h = cc
  apply_first-cases Body.activation s expect head b h = cc
  apply_first-cases Body.death s expect head b h = cc

  pub apply_first-Founding :
      (s : Statement) (expect : Option Hash) (head : Head)
      → apply_first crypto s.core.body s expect ≡ ok (Outcome.applied head)
      → Founding s expect head
  apply_first-Founding s expect head = apply_first-cases s.core.body s expect head refl

  pub apply_first-not_fork :
      (b : Body) (s : Statement) (expect : Option Hash) (head : Head)
      → ¬ (apply_first crypto b s expect ≡ ok (Outcome.fork head))
  unfolding apply_first
  apply_first-not_fork (Body.genesis t ks) s expect head h = ground arith
  apply_first-not_fork (Body.rotation es) s expect head h = cc
  apply_first-not_fork _ s expect head h = cc

  -- The head of a genesis is well formed.
  pub Founding-IsWellFormed :
      (s : Statement) (expect : Option Hash) (head : Head)
      → Founding s expect head
      → IsWellFormed head
  unfolding last? first_at_zero epochs_increase all_full increasing contains
  Founding-IsWellFormed s expect head f = subst IsWellFormed (sym f.head_eq) (record {
    threshold_eq = refl;
    applied_len = omega arith;
    applied_last = refl;
    genesis_first = refl;
    epochs_in_order = refl;
    epochs_within = refl;
    epochs_full = rw (f.ten, f.distinct) refl;
    revoked_sorted = refl;
    roster_len = omega arith;
    roster_sorted = refl;
    disjoint = λ k c. cc;
    activated_within = refl;
    dead_last = refl;
  })
