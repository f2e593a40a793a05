-- ===== src/Handshake/Fingerprints.antt =====
-- A fingerprint has one spelling (crates/werewolfd/src/handshake.rs: `fingerprint`;
-- crates/werewolf-core/src/pelt.rs: `hexish`).
use werewolfproxy.Shared.{
  ℕ, ◌+◌, ◌*◌, ◌/◌, ◌%◌, ◌≤◌, ◌<◌, ◌≡◌, ◌↔◌, refl, ap, ◌∙◌, not, Option, none, some, [], ◌∷◌, ◌++◌,
  length, ◌==◌, arith,
}
use werewolfproxy.Shared.Bytes.{Bytes}
use werewolfproxy.Shared.Results.{ok, >>=-eq-ok, ok-injective, ensure-bind-eq-ok}
use werewolfproxy.Handshake.Codes.{
  Str, require, strip_prefix, fingerprint_prefix, upper_digit, parts, fingerprint, upper_hex_digit,
  hexish, or_rejected,
}
use werewolfproxy.Handshake.Canonical.{
  AreBytes, upper_digit-eq-ok, upper_digit-upper_hex_digit, digits_of,
}

hexish-cons :
    (p q r u v : ℕ) (ws : Bytes) (t : ℕ) (ts : Bytes)
    → u < 16
    → v < 16
    → upper_hex_digit u ≡ p
    → upper_hex_digit v ≡ q
    → b'-' ≡ r
    → hexish ws ≡ t ∷ ts
    → hexish ((u * 16 + v) ∷ ws) ≡ p ∷ q ∷ r ∷ t ∷ ts
unfolding hexish
hexish-cons p q r u v [] t ts u_lt v_lt pe qe re se = cc
hexish-cons p q r u v (w ∷ ws) t ts u_lt v_lt pe qe re se =
    let (hi, lo, lt) = digits_of u v u_lt v_lt in rw (hi, lo, pe, qe, re, se) refl

parts-eq-ok :
    (i : ℕ) (text k : Bytes)
    → i ≤ 7
    → length text + 3 * i ≡ 23
    → parts i text ≡ ok k
    → (hexish k ≡ text) × (length k + i ≡ 8) × AreBytes k
unfolding parts hexish require
parts-eq-ok i [] k le len h = absurd (omega arith)
parts-eq-ok i (a ∷ []) k le len h = absurd (omega arith)
parts-eq-ok i (a ∷ b ∷ []) k le len h =
    let (last, h0) = ensure-bind-eq-ok (i == 7) _ _ h in
    let (x, e, h1) = >>=-eq-ok (upper_digit a) _ h0 in
    let (y, f, h2) = >>=-eq-ok (upper_digit b) _ h1 in
    let (x_lt, x_eq) = upper_digit-eq-ok a x e in
    let (y_lt, y_eq) = upper_digit-eq-ok b y f in
    let (hi, lo, lt) = digits_of x y x_lt y_lt in
    rw (← (ok-injective h2)) (rw (hi, lo, x_eq, y_eq) (refl, ground arith, (lt, tt)))
parts-eq-ok i (a ∷ b ∷ c ∷ []) k le len h = absurd (omega arith)
parts-eq-ok i (a ∷ b ∷ c ∷ t ∷ ts) k le len h =
    let (more, h0) = ensure-bind-eq-ok (not (i == 7)) _ _ h in
    let (dash, h0') = ensure-bind-eq-ok (c == b'-') _ _ h0 in
    let (x, e, h1) = >>=-eq-ok (upper_digit a) _ h0' in
    let (y, f, h2) = >>=-eq-ok (upper_digit b) _ h1 in
    let (zs, g, h3) = >>=-eq-ok (parts (i + 1) (t ∷ ts)) _ h2 in
    let (spelled, count, small) = parts-eq-ok (i + 1) (t ∷ ts) zs (ground arith) (omega arith) g in
    let (x_lt, x_eq) = upper_digit-eq-ok a x e in
    let (y_lt, y_eq) = upper_digit-eq-ok b y f in
    rw (← (ok-injective h3)) (
      hexish-cons a b c x y zs t ts x_lt y_lt x_eq y_eq (ground arith) spelled,
      omega (arith, count),
      ((digits_of x y x_lt y_lt).2, small),
    )

parts-hexish :
    (i : ℕ) (k : Bytes) → length k + i ≡ 8 → 0 < length k → AreBytes k → parts i (hexish k) ≡ ok k
unfolding parts hexish require
parts-hexish i [] len pos small = absurd (omega arith)
parts-hexish i (b ∷ []) len pos small =
    rw
      (
        upper_digit-upper_hex_digit (b / 16) (omega arith),
        upper_digit-upper_hex_digit (b % 16) (omega arith),
      )
      (ground arith)
parts-hexish i (b ∷ c ∷ bs) len pos small =
    rw
      (
        upper_digit-upper_hex_digit (b / 16) (omega arith),
        upper_digit-upper_hex_digit (b % 16) (omega arith),
        parts-hexish (i + 1) (c ∷ bs) (omega arith) (omega arith) small.1,
      )
      (ground arith)

length-hexish : (b : ℕ) (bs : Bytes) → length (hexish (b ∷ bs)) ≡ 3 * length bs + 2
unfolding hexish
length-hexish b [] = omega arith
length-hexish b (c ∷ bs) = omega (arith, length-hexish c bs)

strip_prefix-eq-some : (p text rest : Str) → strip_prefix p text ≡ some rest → p ++ rest ≡ text
unfolding strip_prefix
strip_prefix-eq-some [] text rest h = cc
strip_prefix-eq-some (x ∷ p) [] rest h = cc
strip_prefix-eq-some (x ∷ p) (c ∷ text) rest h = ground (arith, strip_prefix-eq-some p text rest)

strip_prefix-append : (p rest : Str) → strip_prefix p (p ++ rest) ≡ some rest
unfolding strip_prefix
strip_prefix-append [] rest = refl
strip_prefix-append (x ∷ p) rest = ground (arith, strip_prefix-append p rest)

-- `fingerprint` accepts exactly the text that a Pelt's fingerprint of eight bytes is printed as:
-- "wwp1:" and the bytes in upper case, joined by dashes.
pub fingerprint_iff :
    (text : Str) (k : Bytes)
    → (fingerprint text ≡ ok k)
      ↔ ((fingerprint_prefix ++ hexish k ≡ text) × (length k ≡ 8) × AreBytes k)
unfolding fingerprint require
fingerprint_iff text k = (sound, complete k)
  where
    some_of : (o : Option Str) (s : Str) → or_rejected o ≡ ok s → o ≡ some s
    some_of none s h = cc
    some_of (some x) s h = cc

    sound :
        fingerprint text ≡ ok k
        → (fingerprint_prefix ++ hexish k ≡ text) × (length k ≡ 8) × AreBytes k
    sound h =
        let (suffix, e, h1) = >>=-eq-ok (or_rejected (strip_prefix fingerprint_prefix text)) _ h in
        let (len, h2) = ensure-bind-eq-ok (length suffix == 23) _ _ h1 in
        let (spelled, count, small) = parts-eq-ok 0 suffix k (omega arith) (ground arith) h2 in
        (
          ap (λ (x : Str). fingerprint_prefix ++ x) spelled
              ∙ strip_prefix-eq-some fingerprint_prefix text suffix (some_of _ suffix e),
          omega (arith, count),
          small,
        )

    complete :
        (j : Bytes)
        → (fingerprint_prefix ++ hexish j ≡ text) × (length j ≡ 8) × AreBytes j
        → fingerprint text ≡ ok j
    complete [] (e, len, small) = absurd (omega arith)
    complete (b ∷ bs) (e, len, small) = rw (← e) (
        rw (strip_prefix-append fingerprint_prefix (hexish (b ∷ bs)))
          (ground (arith, length-hexish b bs, parts-hexish 0 (b ∷ bs))))
