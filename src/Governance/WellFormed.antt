-- ===== src/Governance/WellFormed.antt =====
-- The invariant of a chain head, and that it is what `check` of crates/werewolfd/src/governance.rs
-- tests.
use werewolfproxy.Shared.{
  ℕ, ◌+◌, ◌%◌, ◌^◌, ◌≤◌, ◌<◌, ◌≡◌, refl, ◌↔◌, true, false, Option, none, some, List, [], ◌∷◌,
  length, leb, arith, &&-true, ==_iff, ==_refl, leb→le, le→leb, ◌==◌, ap,
}
use werewolfproxy.Shared.Bytes.{bytes_eq_sound, bytes_eq_refl}
use werewolfproxy.Shared.Sorted.{increasing, contains, is_found-binary_search}
use werewolfproxy.Governance.Types.{Key, Hash, Head}
use werewolfproxy.Governance.Chain.{last?}
use werewolfproxy.Governance.HeadCheck.{
  check, first_at_zero, epochs_increase, epoch_within, all_full, none_revoked, none_or_le,
  none_or_eq, is_last,
}

pub record IsWellFormed (head : Head) : Type 0 where
  pub threshold_eq : head.threshold ≡ 7
  pub applied_len : length head.applied ≡ head.sequence + 1
  pub applied_last : last? head.applied ≡ some head.hash
  pub genesis_first : first_at_zero head.key_epochs ≡ true
  pub epochs_in_order : epochs_increase head.key_epochs ≡ true
  pub epochs_within : epoch_within head.sequence (last? head.key_epochs) ≡ true
  pub epochs_full : all_full head.key_epochs ≡ true
  pub revoked_sorted : increasing head.revoked ≡ true
  pub roster_len : length head.roster ≤ 1024
  pub roster_sorted : increasing head.roster ≡ true
  pub disjoint : (k : Key) → contains head.roster k ≡ true → contains head.revoked k ≡ false
  pub activated_within : none_or_le head.sequence head.activated_at ≡ true
  pub dead_last : none_or_eq head.sequence head.dead_at ≡ true

-- What the Rust types say: a sequence is a `u64`, and a `Vec` is shorter than the address space.
pub record FitsMemory (head : Head) : Type 0 where
  pub sequence_lt : head.sequence < 2 ^ 64
  pub applied_lt : length head.applied < 2 ^ 64

none_revoked-contains :
    (revoked roster : List Key) (k : Key)
    → increasing revoked ≡ true
    → none_revoked revoked roster ≡ true
    → contains roster k ≡ true
    → contains revoked k ≡ false
unfolding none_revoked contains
none_revoked-contains revoked [] k s h c = cc
none_revoked-contains revoked (x ∷ xs) k s h c = ground (
  arith,
  bytes_eq_sound x k,
  is_found-binary_search revoked x,
  none_revoked-contains revoked xs k,
)

none_revoked_of_disjoint :
    (revoked roster : List Key)
    → increasing revoked ≡ true
    → ((k : Key) → contains roster k ≡ true → contains revoked k ≡ false)
    → none_revoked revoked roster ≡ true
unfolding none_revoked contains
none_revoked_of_disjoint revoked [] s h = refl
none_revoked_of_disjoint revoked (x ∷ xs) s h = ground (
  arith,
  is_found-binary_search revoked x,
  h x,
  bytes_eq_refl x,
  none_revoked_of_disjoint revoked xs s (λ k c. h k (ground arith)),
)

is_last_sound : (l : Option Hash) (h : Hash) → is_last l h ≡ true → l ≡ some h
is_last_sound none h e = cc
is_last_sound (some x) h e = ap some (bytes_eq_sound x h e)

last?-pos : (xs : List Hash) (h : Hash) → last? xs ≡ some h → 0 < length xs
unfolding last?
last?-pos [] h e = cc
last?-pos (x ∷ xs) h e = omega arith

length_of_wrapped :
    (len n : ℕ)
    → (len % 2 ^ 64 == (n + 1) % 2 ^ 64) ≡ true
    → len < 2 ^ 64
    → n < 2 ^ 64
    → 0 < len
    → len ≡ n + 1
length_of_wrapped len n e a b c =
    let e' : len % 2 ^ 64 ≡ (n + 1) % 2 ^ 64 = (==_iff (len % 2 ^ 64) ((n + 1) % 2 ^ 64)).0 e in
    omega arith

check→IsWellFormed : (head : Head) → FitsMemory head → check head ≡ true → IsWellFormed head
unfolding check
check→IsWellFormed head fits h =
    let (c1, h1) = &&-true _ _ h in
    let (c2, h2) = &&-true _ _ h1 in
    let (c3, h3) = &&-true _ _ h2 in
    let (c4, h4) = &&-true _ _ h3 in
    let (c5, h5) = &&-true _ _ h4 in
    let (c6, h6) = &&-true _ _ h5 in
    let (c7, h7) = &&-true _ _ h6 in
    let (c8, h8) = &&-true _ _ h7 in
    let (c9, h9) = &&-true _ _ h8 in
    let (c10, h10) = &&-true _ _ h9 in
    let (c11, h11) = &&-true _ _ h10 in
    let (c12, c13) = &&-true _ _ h11 in
    let last = is_last_sound (last? head.applied) head.hash c3 in
    record {
      threshold_eq = (==_iff head.threshold 7).0 c1;
      applied_len =
          length_of_wrapped (length head.applied) head.sequence c2 fits.applied_lt fits.sequence_lt
            (last?-pos head.applied head.hash last);
      applied_last = last;
      genesis_first = c4;
      epochs_in_order = c5;
      epochs_within = c6;
      epochs_full = c7;
      revoked_sorted = c8;
      roster_len = leb→le (length head.roster) 1024 c9;
      roster_sorted = c10;
      disjoint = λ k. none_revoked-contains head.revoked head.roster k c8 c11;
      activated_within = c12;
      dead_last = c13;
    }

pub IsWellFormed→check : (head : Head) → IsWellFormed head → check head ≡ true
unfolding check
IsWellFormed→check head w =
    let len : (length head.applied % 2 ^ 64 == (head.sequence + 1) % 2 ^ 64) ≡ true =
      rw w.applied_len (==_refl ((head.sequence + 1) % 2 ^ 64)) in
    let thr : (head.threshold == 7) ≡ true = rw w.threshold_eq refl in
    let ros : leb (length head.roster) 1024 ≡ true =
      le→leb (length head.roster) 1024 w.roster_len in
    rw
      (
        thr,
        len,
        w.applied_last,
        bytes_eq_refl head.hash,
        w.genesis_first,
        w.epochs_in_order,
        w.epochs_within,
        w.epochs_full,
        w.revoked_sorted,
        ros,
        w.roster_sorted,
        none_revoked_of_disjoint head.revoked head.roster w.revoked_sorted w.disjoint,
        w.activated_within,
      )
      w.dead_last

-- Of the heads that fit in memory, exactly the well-formed ones pass the daemon's `check`.
pub check_iff : (head : Head) → FitsMemory head → (check head ≡ true) ↔ IsWellFormed head
check_iff head fits = (check→IsWellFormed head fits, IsWellFormed→check head)
