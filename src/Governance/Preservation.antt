-- ===== src/Governance/Preservation.antt =====
-- `apply` (crates/werewolf-core/src/governance.rs) keeps a head well formed.
use werewolfproxy.Shared.{
  ℕ, ◌+◌, ◌≤◌, ◌≡◌, refl, sym, subst, true, false, Option, none, some, List, [], ◌∷◌, ◌++◌, length,
  arith, length-append,
}
use werewolfproxy.Shared.Sorted.{
  binary_search, is_found, increasing, contains, is_found-binary_search,
}
use werewolfproxy.Shared.SortedSets.{
  insert_all, remove_all, contains-insert_all, contains-remove_all, increasing-insert_all,
  increasing-remove_all, length-insert_all, length-remove_all,
}
use werewolfproxy.Governance.Types.{Crypto, Key, Hash, Head, Body, Statement}
use werewolfproxy.Governance.Encoding.{hash}
use werewolfproxy.Governance.Chain.{last?}
use werewolfproxy.Governance.HeadCheck.{
  first_at_zero, epochs_increase, epoch_within, all_full, none_or_le, none_or_eq,
}
use werewolfproxy.Governance.WellFormed.{IsWellFormed}
use werewolfproxy.Governance.Effects.{Effect}
use werewolfproxy.Governance.Steps.{Extension, Conflict}
use werewolfproxy.Governance.Epochs.{
  last?-append, first_at_zero-append, epochs_increase-append, all_full-append, keys-full,
  within_mono, none_or_le_mono,
}

-- A copy of a well-formed head with new members and epochs that keep the rules, and with one more
-- statement recorded.
module _ (head : Head) (h : Hash) (w : IsWellFormed head) where
  grown :
      (epochs : List (ℕ × List Key)) (revoked roster : List Key) (activated dead : Option ℕ)
      → first_at_zero epochs ≡ true
      → epochs_increase epochs ≡ true
      → epoch_within (head.sequence + 1) (last? epochs) ≡ true
      → all_full epochs ≡ true
      → increasing revoked ≡ true
      → length roster ≤ 1024
      → increasing roster ≡ true
      → ((k : Key) → contains roster k ≡ true → contains revoked k ≡ false)
      → none_or_le (head.sequence + 1) activated ≡ true
      → none_or_eq (head.sequence + 1) dead ≡ true
      → IsWellFormed (record head {
        sequence = head.sequence + 1;
        hash = h;
        key_epochs = epochs;
        revoked = revoked;
        roster = roster;
        applied = head.applied ++ h ∷ [];
        activated_at = activated;
        dead_at = dead;
      })
  grown epochs revoked roster activated dead a b c d e f g i j k = record {
    threshold_eq = w.threshold_eq;
    applied_len = omega (arith, length-append head.applied (h ∷ []), w.applied_len);
    applied_last = last?-append head.applied h;
    genesis_first = a;
    epochs_in_order = b;
    epochs_within = c;
    epochs_full = d;
    revoked_sorted = e;
    roster_len = f;
    roster_sorted = g;
    disjoint = i;
    activated_within = j;
    dead_last = k;
  }

  abbrev recorded : Head → Head
  recorded changed = record changed {
    sequence = head.sequence + 1;
    hash = h;
    applied = changed.applied ++ h ∷ [];
  }

  within_next : epoch_within (head.sequence + 1) (last? head.key_epochs) ≡ true
  within_next =
      within_mono head.sequence (head.sequence + 1) (last? head.key_epochs) (omega arith)
        w.epochs_within

  activated_next : none_or_le (head.sequence + 1) head.activated_at ≡ true
  activated_next =
      none_or_le_mono head.sequence (head.sequence + 1) head.activated_at (omega arith)
        w.activated_within

  dead_next : head.dead_at ≡ none → none_or_eq (head.sequence + 1) head.dead_at ≡ true
  dead_next e = rw e refl

  not_both :
      (revoked roster : List Key)
      → ((k : Key) → contains roster k ≡ true → contains revoked k ≡ false)
      → increasing roster ≡ true
      → (ks : List Key) (k : Key) → contains (remove_all ks roster) k ≡ true
      → contains (insert_all ks revoked) k ≡ false
  not_both revoked roster d inc ks k c =
      ground (arith, contains-remove_all ks roster k inc, contains-insert_all ks revoked k, d k)

  free_members :
      (ks : List Key)
      → ((j : Key)
          → contains ks j ≡ true
          → (is_found (binary_search head.revoked j) ≡ false)
            × (is_found (binary_search head.roster j) ≡ false))
      → (k : Key) → contains (insert_all ks head.roster) k ≡ true
      → contains head.revoked k ≡ false
  free_members ks free k c = ground (
    arith,
    contains-insert_all ks head.roster k,
    free k,
    w.disjoint k,
    is_found-binary_search head.revoked k w.revoked_sorted,
  )

  Effect-IsWellFormed :
      (crypto : Crypto) (b : Body) (changed : Head)
      → head.dead_at ≡ none
      → Effect crypto head (head.sequence + 1) b changed
      → IsWellFormed (recorded changed)
  Effect-IsWellFormed crypto (Body.genesis t ks) changed alive e = absurd e
  Effect-IsWellFormed crypto (Body.rotation es) changed alive (ks, eq, current, cur, len, dist) =
      let (ten, _) = keys-full head current w cur in
      subst (λ (c : Head). IsWellFormed (recorded c)) (sym eq)
        (grown (head.key_epochs ++ (head.sequence + 1, ks) ∷ []) head.revoked head.roster
          head.activated_at head.dead_at
          (first_at_zero-append head.key_epochs (head.sequence + 1, ks) w.genesis_first)
          (epochs_increase-append head.key_epochs (head.sequence + 1, ks) head.sequence
            w.epochs_in_order w.epochs_within (omega arith))
          (rw (last?-append head.key_epochs (head.sequence + 1, ks)) (ground arith))
          (all_full-append head.key_epochs (head.sequence + 1, ks) w.epochs_full
            (rw (len, ten) (rw dist refl)))
          w.revoked_sorted w.roster_len w.roster_sorted w.disjoint activated_next (dead_next alive))
  Effect-IsWellFormed crypto (Body.revocation ks) changed alive eq =
      subst (λ (c : Head). IsWellFormed (recorded c)) (sym eq)
        (grown head.key_epochs (insert_all ks head.revoked) (remove_all ks head.roster)
          head.activated_at head.dead_at w.genesis_first w.epochs_in_order within_next w.epochs_full
          (increasing-insert_all ks head.revoked w.revoked_sorted)
          (omega (arith, length-remove_all ks head.roster, w.roster_len))
          (increasing-remove_all ks head.roster w.roster_sorted)
          (not_both head.revoked head.roster w.disjoint w.roster_sorted ks) activated_next
          (dead_next alive))
  Effect-IsWellFormed crypto (Body.admission ks) changed alive (eq, fits, inc, free) =
      subst (λ (c : Head). IsWellFormed (recorded c)) (sym eq)
        (grown head.key_epochs head.revoked (insert_all ks head.roster) head.activated_at
          head.dead_at w.genesis_first w.epochs_in_order within_next w.epochs_full w.revoked_sorted
          (omega (arith, length-insert_all ks head.roster, fits))
          (increasing-insert_all ks head.roster w.roster_sorted) (free_members ks free)
          activated_next (dead_next alive))
  Effect-IsWellFormed crypto Body.activation changed alive (inactive, eq) =
      subst (λ (c : Head). IsWellFormed (recorded c)) (sym eq)
        (grown head.key_epochs head.revoked head.roster (some (head.sequence + 1)) head.dead_at
          w.genesis_first w.epochs_in_order within_next w.epochs_full w.revoked_sorted w.roster_len
          w.roster_sorted w.disjoint (ground arith) (dead_next alive))
  Effect-IsWellFormed crypto Body.death changed alive eq =
      subst (λ (c : Head). IsWellFormed (recorded c)) (sym eq)
        (grown head.key_epochs head.revoked head.roster head.activated_at (some (head.sequence + 1))
          w.genesis_first w.epochs_in_order within_next w.epochs_full w.revoked_sorted w.roster_len
          w.roster_sorted w.disjoint activated_next (ground arith))

-- A statement that extends a well-formed head yields a well-formed head.
pub Extension-IsWellFormed :
    (crypto : Crypto) (head next : Head) (s : Statement)
    → IsWellFormed head
    → Extension crypto head s next
    → IsWellFormed next
Extension-IsWellFormed crypto head next s w e =
    let seq = e.sequence_eq in
    let effect = subst (λ (n : ℕ). Effect crypto head n s.core.body e.changed) seq e.effect in
    let grown_wf =
      Effect-IsWellFormed head (hash crypto s.core) w crypto s.core.body e.changed e.alive effect in
    let at =
      subst
        (λ (n : ℕ). IsWellFormed (record e.changed {
          sequence = n;
          hash = hash crypto s.core;
          applied = e.changed.applied ++ hash crypto s.core ∷ [];
        }))
        (sym seq) grown_wf in
    subst IsWellFormed (sym e.next_eq) at

-- A fence changes none of what the invariant speaks of.
pub Conflict-IsWellFormed :
    (crypto : Crypto) (head fenced : Head) (s : Statement)
    → IsWellFormed head
    → Conflict crypto head s fenced
    → IsWellFormed fenced
Conflict-IsWellFormed crypto head fenced s w c = subst IsWellFormed (sym c.fenced_eq) (record {
  threshold_eq = w.threshold_eq;
  applied_len = w.applied_len;
  applied_last = w.applied_last;
  genesis_first = w.genesis_first;
  epochs_in_order = w.epochs_in_order;
  epochs_within = w.epochs_within;
  epochs_full = w.epochs_full;
  revoked_sorted = w.revoked_sorted;
  roster_len = w.roster_len;
  roster_sorted = w.roster_sorted;
  disjoint = w.disjoint;
  activated_within = w.activated_within;
  dead_last = w.dead_last;
})
