-- ===== src/Governance/Epochs.antt =====
-- The epochs of keys of a head (`key_epochs`, crates/werewolf-core/src/governance.rs) with one more.
use werewolfproxy.Shared.{
  ℕ, ◌≤◌, ◌<◌, ◌≡◌, refl, subst, true, Option, none, some, List, [], ◌∷◌, ◌++◌, length, arith,
}
use werewolfproxy.Shared.Results.{ok, ok-injective}
use werewolfproxy.Governance.Types.{Key, Head}
use werewolfproxy.Governance.Rules.{distinct_from}
use werewolfproxy.Governance.Chain.{keys, last?, epoch_keys}
use werewolfproxy.Governance.HeadCheck.{
  first_at_zero, epochs_increase, epoch_within, all_full, none_or_le, full_epoch,
}
use werewolfproxy.Governance.WellFormed.{IsWellFormed}

pub last?-append {ℓ} : {A : Type ℓ} (xs : List A) (x : A) → last? (xs ++ x ∷ []) ≡ some x
unfolding last?
last?-append [] x = refl
last?-append (y ∷ []) x = refl
last?-append (y ∷ z ∷ xs) x = last?-append (z ∷ xs) x

pub first_at_zero-append :
    (es : List (ℕ × List Key)) (e : ℕ × List Key)
    → first_at_zero es ≡ true
    → first_at_zero (es ++ e ∷ []) ≡ true
unfolding first_at_zero
first_at_zero-append [] e h = cc
first_at_zero-append (x ∷ es) e h = h

pub epochs_increase-append :
    (es : List (ℕ × List Key)) (e : ℕ × List Key) (n : ℕ)
    → epochs_increase es ≡ true
    → epoch_within n (last? es) ≡ true
    → n < e.0
    → epochs_increase (es ++ e ∷ []) ≡ true
unfolding epochs_increase last?
epochs_increase-append [] e n h w lt = refl
epochs_increase-append (x ∷ []) e n h w lt = ground arith
epochs_increase-append (x ∷ y ∷ es) e n h w lt = ground (arith, epochs_increase-append (y ∷ es) e n)

pub all_full-append :
    (es : List (ℕ × List Key)) (e : ℕ × List Key)
    → all_full es ≡ true
    → full_epoch e ≡ true
    → all_full (es ++ e ∷ []) ≡ true
unfolding all_full
all_full-append [] e h f = rw f refl
all_full-append (x ∷ es) e h f = ground (arith, all_full-append es e)

-- The last epoch of a full list has ten keys.
last_full :
    (es : List (ℕ × List Key)) (ks : List Key)
    → all_full es ≡ true
    → epoch_keys (last? es) ≡ ok ks
    → (length ks ≡ 10) × (distinct_from [] ks ≡ true)
unfolding all_full last?
last_full [] ks h e = cc
last_full (x ∷ []) ks h e =
    let ks_eq : x.1 ≡ ks = ok-injective e in
    subst (λ (k : List Key). (length k ≡ 10) × (distinct_from [] k ≡ true)) ks_eq (ground arith)
last_full (x ∷ y ∷ es) ks h e = last_full (y ∷ es) ks (ground arith) e

pub keys-full :
    (head : Head) (ks : List Key)
    → IsWellFormed head
    → keys head ≡ ok ks
    → (length ks ≡ 10) × (distinct_from [] ks ≡ true)
unfolding keys
keys-full head ks w e = last_full head.key_epochs ks w.epochs_full e

pub within_mono :
    (n m : ℕ) (e : Option (ℕ × List Key))
    → n ≤ m
    → epoch_within n e ≡ true
    → epoch_within m e ≡ true
within_mono n m none le h = cc
within_mono n m (some e) le h = ground arith

pub none_or_le_mono :
    (n m : ℕ) (o : Option ℕ) → n ≤ m → none_or_le n o ≡ true → none_or_le m o ≡ true
none_or_le_mono n m none le h = refl
none_or_le_mono n m (some a) le h = ground arith
