-- ===== src/Governance/Total.antt =====
-- `apply` of crates/werewolf-core/src/governance.rs returns on every checked head.
use werewolfproxy.Shared.{
  ℕ, ◌≤◌, ◌<◌, ◌≡◌, sym, ◌∙◌, true, Option, none, some, List, [], ◌∷◌, arith, get_elem?-none,
}
use werewolfproxy.Shared.Sorted.{is_found-binary_search}
use werewolfproxy.Shared.Results.{ok, err, ◌>>=◌, ◌>>◌}
use werewolfproxy.Governance.Types.{
  Crypto, Key, Hash, Head, Body, Core, Statement, Outcome, panicked,
}
use werewolfproxy.Governance.Rules.{rotated, check_admission, check_signatures, check_genesis}
use werewolfproxy.Governance.Chain.{
  apply, apply_next, apply_first, apply_genesis, on_dead, on_recorded, extend, body_effect, keys,
  keys_before, last_before,
}
use werewolfproxy.Governance.HeadCheck.{first_at_zero}
use werewolfproxy.Governance.WellFormed.{IsWellFormed, check_iff}
use werewolfproxy.Governance.Invariant.{IsChecked}
use werewolfproxy.Governance.Effects.{check_admission-eq-ok}
use werewolfproxy.Governance.Epochs.{keys-full}
use werewolfproxy.Governance.NoPanic.{
  Panics, bind-safe, check_signatures-safe, genesis_keys-safe, rotated-safe, check_admission-safe,
  check_revocation-safe, admit_keys-safe,
}

-- a genesis epoch precedes every later sequence
last_before-none :
    (n : ℕ) (es : List (ℕ × List Key))
    → first_at_zero es ≡ true
    → 0 < n
    → last_before n es ≡ none
    → ⊥
unfolding first_at_zero last_before
last_before-none n [] f pos h = cc
last_before-none n (e ∷ es) f pos h = ground arith

keys_before-safe : (head : Head) (n : ℕ) → IsWellFormed head → 0 < n → ¬ Panics (keys_before head n)
unfolding keys_before
keys_before-safe head n w pos h =
    ground (arith, last_before-none n head.key_epochs w.genesis_first pos)

keys-safe : (head : Head) → IsWellFormed head → ¬ Panics (keys head)
unfolding keys
keys-safe head w h = ground (arith, w.epochs_within)

module _ (crypto : Crypto) where
  apply_first-safe :
      (b : Body) (s : Statement) (expect : Option Hash) → ¬ Panics (apply_first crypto b s expect)
  unfolding apply_first apply_genesis check_genesis
  apply_first-safe (Body.genesis t ks) s expect h =
      ground (arith, genesis_keys-safe crypto [] ks, check_signatures-safe crypto s ks t)
  apply_first-safe (Body.rotation es) s expect h = cc
  apply_first-safe _ s expect h = cc

  module _ (head : Head) (w : IsWellFormed head) where
    body_effect-safe : (n : ℕ) (b : Body) → ¬ Panics (body_effect crypto head n b)
    unfolding body_effect
    body_effect-safe n (Body.genesis t ks) = λ h. cc
    body_effect-safe n (Body.rotation es) = bind-safe (keys head) _ (keys-safe head w) λ current e.
        bind-safe (rotated crypto current es) _
          (rotated-safe crypto current es (keys-full head current w e).0) (λ ks e' p. cc p)
    body_effect-safe n (Body.revocation ks) = λ h. ground (arith, check_revocation-safe crypto ks)
    body_effect-safe n (Body.admission ks) =
        bind-safe (check_admission crypto head ks) _ (check_admission-safe crypto head ks) λ u e.
          let (fits, inc, free) = check_admission-eq-ok crypto head ks u e in
          admit_keys-safe head ks inc w.roster_sorted
            (λ j c. sym (is_found-binary_search head.roster j w.roster_sorted) ∙ (free j c).1)
    body_effect-safe n Body.activation = λ h. ground arith
    body_effect-safe n Body.death = λ h. cc

    extend-safe : (s : Statement) → ¬ Panics (extend crypto head s)
    unfolding extend
    extend-safe s = bind-safe (keys head) _ (keys-safe head w) λ ks e.
        bind-safe (check_signatures crypto s ks head.threshold) _
          (check_signatures-safe crypto s ks head.threshold)
          λ u e'.
            bind-safe (body_effect crypto head s.core.sequence s.core.body) _
              (body_effect-safe s.core.sequence s.core.body) (λ next e'' p. cc p)

    on_dead-safe : (core : Core) → ¬ Panics (on_dead crypto head core)
    unfolding on_dead
    on_dead-safe core h = ground (arith, w.applied_len, get_elem?-none head.applied core.sequence)

    verdict-safe :
        (s : Statement)
        → 0 < s.core.sequence
        → ¬ Panics (do
          ks ← keys_before head s.core.sequence
          check_signatures crypto s ks head.threshold
          ok (Outcome.fork (record head { forked = true })))
    verdict-safe s pos =
        bind-safe (keys_before head s.core.sequence) _ (keys_before-safe head s.core.sequence w pos)
          λ ks e.
            bind-safe (check_signatures crypto s ks head.threshold) _
              (check_signatures-safe crypto s ks head.threshold) (λ u e' p. cc p)

    on_recorded-safe :
        (s : Statement) → s.core.sequence ≤ head.sequence → ¬ Panics (on_recorded crypto head s)
    unfolding on_recorded
    on_recorded-safe s le h =
        ground (arith, w.applied_len, get_elem?-none head.applied s.core.sequence, verdict-safe s)

    apply_next-safe : (s : Statement) → ¬ Panics (apply_next crypto head s)
    unfolding apply_next
    apply_next-safe s h = ground (arith, on_dead-safe s.core, on_recorded-safe s, extend-safe s)

-- `apply` panics on no statement: whether a node has no head or one that passes the daemon's check
-- and fits in memory, every index of the call is in range and every `expect` holds, so the call
-- returns an outcome or an error of its own.
pub apply-no_panic :
    (crypto : Crypto) (held : Option Head) (s : Statement) (expect : Option Hash)
    → IsChecked held
    → ¬ (apply crypto held s expect ≡ err panicked)
unfolding apply
apply-no_panic crypto none s expect h = apply_first-safe crypto s.core.body s expect
apply-no_panic crypto (some head) s expect h =
    apply_next-safe crypto head ((check_iff head h.0).0 h.1) s
