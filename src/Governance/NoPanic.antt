-- ===== src/Governance/NoPanic.antt =====
-- The indexing and the `expect`s of crates/werewolf-core/src/governance.rs never panic on a head
-- that the daemon's check accepts.
use werewolfproxy.Shared.{
  ℕ, ◌<◌, ◌≡◌, refl, sym, ◌∙◌, ap, true, false, Option, none, some, List, [], ◌∷◌, ◌++◌, length,
  set, arith, length-set, get_elem?-none, All, insert_at,
}
use mathlib.Core.Bool.{false≢true}
use werewolfproxy.Governance.Encoding.{signing_input}
use werewolfproxy.Shared.Bytes.{Bytes, bytes_eq_refl}
use werewolfproxy.Shared.Sorted.{
  binary_search, is_found, increasing, contains, insert_key, found, missing, Search,
  is_found-binary_search, increasing-head-ne, increasing-tail, contains-insert_key,
  increasing-insert_key,
}
use werewolfproxy.Shared.Results.{Result, ok, err, ◌>>=◌, ◌>>◌, ensure}
use werewolfproxy.Governance.Types.{
  Crypto, Key, Head, Statement, Failure, GovError, refused, panicked,
}
use werewolfproxy.Governance.Rules.{
  strong_key, rotate_entries, all_replaced, rotated, admissible_keys, check_admission, valid_points,
  check_revocation, verify_entries, check_signatures, genesis_keys, distinct_from,
}
use werewolfproxy.Governance.Chain.{admit_keys}

abbrev pub Panics : {A : Type 0} → Result Failure A → Type 0
Panics r = r ≡ err panicked

pub bind-safe :
    {A B : Type 0} (m : Result Failure A) (f : A → Result Failure B)
    → ¬ Panics m
    → ((a : A) → m ≡ ok a → ¬ Panics (f a))
    → ¬ Panics (m >>= f)
bind-safe (ok a) f hm hf = hf a refl
bind-safe (err e) f hm hf = λ p. hm (cc p)

module _ (crypto : Crypto) where
  verify_entries-safe :
      (input : Bytes) (ks : List Key) (last : Option ℕ) (sigs : List (ℕ × Bytes))
      → ¬ Panics (verify_entries crypto input ks last sigs)
  unfolding verify_entries
  verify_entries-safe input ks last [] h = cc
  verify_entries-safe input ks last ((i, sig) ∷ sigs) h =
      ground (arith, get_elem?-none ks i, verify_entries-safe input ks (some i) sigs)

  pub check_signatures-safe :
      (s : Statement) (ks : List Key) (threshold : ℕ)
      → ¬ Panics (check_signatures crypto s ks threshold)
  unfolding check_signatures
  check_signatures-safe s ks threshold h =
      ground (arith, verify_entries-safe (signing_input s.core) ks none s.signatures)

  pub genesis_keys-safe : (seen ks : List Key) → ¬ Panics (genesis_keys crypto seen ks)
  unfolding genesis_keys strong_key
  genesis_keys-safe seen [] h = cc
  genesis_keys-safe seen (k ∷ ks) h = ground (arith, genesis_keys-safe (seen ++ k ∷ []) ks)

  rotate_entries-safe :
      (last : Option ℕ) (ks : List Key) (es : List (ℕ × Key))
      → length ks ≡ 10
      → ¬ Panics (rotate_entries crypto last ks es)
  unfolding rotate_entries strong_key
  rotate_entries-safe last ks [] ten h = cc
  rotate_entries-safe last ks ((i, k) ∷ es) ten h =
      ground (
        arith,
        get_elem?-none ks i,
        length-set ks i k,
        rotate_entries-safe (some i) (set ks i k) es,
      )

  rotate_entries-below :
      (last : Option ℕ) (ks ks' : List Key) (es : List (ℕ × Key))
      → rotate_entries crypto last ks es ≡ ok ks'
      → All (λ (e : ℕ × Key). e.0 < 10) es
  unfolding rotate_entries
  rotate_entries-below last ks ks' [] h = tt
  rotate_entries-below last ks ks' ((i, k) ∷ es) h =
      (ground arith, rotate_entries-below (some i) (set ks i k) ks' es (ground arith))

  all_replaced-safe :
      (current : List Key) (es : List (ℕ × Key))
      → length current ≡ 10
      → All (λ (e : ℕ × Key). e.0 < 10) es
      → ¬ Panics (all_replaced crypto current es)
  unfolding all_replaced
  all_replaced-safe current [] ten b h = cc
  all_replaced-safe current ((i, k) ∷ es) ten b h =
      ground (arith, get_elem?-none current i, all_replaced-safe current es)

  pub rotated-safe :
      (current : List Key) (es : List (ℕ × Key))
      → length current ≡ 10
      → ¬ Panics (rotated crypto current es)
  unfolding rotated
  rotated-safe current es ten h = ground (
    arith,
    bind-safe (rotate_entries crypto none current es)
        (λ (ks : List Key). do
          ensure (distinct_from [] ks) (refused GovError.body_rule)
          all_replaced crypto current es
          ok ks)
        (rotate_entries-safe none current es ten)
        (λ (ks : List Key) (e : rotate_entries crypto none current es ≡ ok ks). after ks e),
  )
    where
      after :
          (ks : List Key)
          → rotate_entries crypto none current es ≡ ok ks
          → ¬ Panics (
              ensure (distinct_from [] ks) (refused GovError.body_rule)
              >> (all_replaced crypto current es >> ok ks))
      after ks e p =
          let b = rotate_entries-below none current ks es e in
          ground (arith, all_replaced-safe current es)

  admissible_keys-safe : (head : Head) (ks : List Key) → ¬ Panics (admissible_keys crypto head ks)
  unfolding admissible_keys strong_key
  admissible_keys-safe head [] h = cc
  admissible_keys-safe head (k ∷ ks) h = ground (arith, admissible_keys-safe head ks)

  pub check_admission-safe :
      (head : Head) (ks : List Key) → ¬ Panics (check_admission crypto head ks)
  unfolding check_admission
  check_admission-safe head ks h = ground (arith, admissible_keys-safe head ks)

  valid_points-safe : (ks : List Key) → ¬ Panics (valid_points crypto ks)
  unfolding valid_points
  valid_points-safe [] h = cc
  valid_points-safe (k ∷ ks) h = ground (arith, valid_points-safe ks)

  pub check_revocation-safe : (ks : List Key) → ¬ Panics (check_revocation crypto ks)
  unfolding check_revocation
  check_revocation-safe ks h = ground (arith, valid_points-safe ks)

-- Strictly increasing keys, none of them on the increasing roster, are all inserted.
pub admit_keys-safe :
    (head : Head) (ks : List Key)
    → increasing ks ≡ true
    → increasing head.roster ≡ true
    → ((j : Key) → contains ks j ≡ true → contains head.roster j ≡ false)
    → ¬ Panics (admit_keys head ks)
unfolding admit_keys
admit_keys-safe head [] s r free h = cc
admit_keys-safe head (k ∷ ks) s r free h =
    step (binary_search head.roster k) refl
      (admit_keys-safe (record head { roster = insert_key k head.roster }) ks
        (increasing-tail k ks s) (increasing-insert_key k head.roster r)
        (λ j c.
          unfold contains in
          ground (arith, contains-insert_key k j head.roster, increasing-head-ne k j ks s, free j)))
      h
  where
    k_free : contains head.roster k ≡ false
    k_free = unfold contains in free k (rw (bytes_eq_refl k) refl)

    step :
        (found_at : Search)
        → binary_search head.roster k ≡ found_at
        → ¬ Panics (admit_keys (record head { roster = insert_key k head.roster }) ks)
        → ¬ Panics (
            let r : Result Failure Head = elim found_at [
              | found i ↦ err panicked
              | missing at ↦ admit_keys (record head { roster = insert_at at k head.roster }) ks
            ] in
            r)
    step (found i) e ih =
        absurd (false≢true (sym (is_found-binary_search head.roster k r ∙ k_free) ∙ ap is_found e))
    step (missing at) e ih = unfold insert_key in rw e at ih
