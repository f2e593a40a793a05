-- ===== src/Governance/Reading.antt =====
-- What the reads of the strict reader (crates/werewolf-core/src/governance.rs: `Reader`) take from
-- their input.
use native.Mathlib.Nat.{mul-add-div_right, div-eq_of_lt, pow-suc}
use mathlib.Core.List.{append_assoc}
use werewolfproxy.Shared.{
  ℕ, zero, suc, ◌+◌, ◌/◌, ◌%◌, ◌^◌, ◌*◌, ◌<◌, ◌≡◌, refl, sym, ◌∙◌, List, [], ◌∷◌, ◌++◌, length, All,
  arith, take-append-drop, length-take, All-append_split, subst,
}
use werewolfproxy.Shared.Bytes.{Bytes}
use werewolfproxy.Shared.Results.{ok, >>=-eq-ok}
use werewolfproxy.Governance.Types.{Key}
use werewolfproxy.Governance.Encoding.{
  be_bytes, from_be, take_bytes, read_u8, read_be, read_end, read_keys, read_entries, encode_keys,
  encode_entries,
}
use werewolfproxy.Governance.Writing.{digit-lt, pow-pos}

abbrev pub AreBytes : Bytes → Type 0
AreBytes bs = All (λ (b : ℕ). b < 256) bs

-- What `take` returns is a split of its input.
pub take_bytes-eq-ok :
    (n : ℕ) (bs : Bytes) (p : Bytes × Bytes)
    → take_bytes n bs ≡ ok p
    → (p.0 ++ p.1 ≡ bs) × (length p.0 ≡ n)
unfolding take_bytes
take_bytes-eq-ok n bs p h = ground (arith, take-append-drop n bs, length-take n bs)

from_be-split : (acc : ℕ) (bs : Bytes) → from_be acc bs ≡ acc * 256 ^ length bs + from_be 0 bs
unfolding from_be
from_be-split acc [] = omega arith
from_be-split acc (b ∷ bs) =
    let m = 256 ^ length bs in
    from_be-split (acc * 256 + b) bs
    ∙ rw pow-suc (rw (from_be-split (0 * 256 + b) bs) (grind_sum acc b m (from_be 0 bs)))
  where
    grind_sum : (a d m v : ℕ) → (a * 256 + d) * m + v ≡ a * (m * 256) + ((0 * 256 + d) * m + v)
    grind_sum a d m v = omega arith

from_be-lt : (bs : Bytes) → AreBytes bs → from_be 0 bs < 256 ^ length bs
unfolding from_be
from_be-lt [] h = omega arith
from_be-lt (b ∷ bs) h =
    let m = 256 ^ length bs in
    let low : b * m + from_be 0 bs < 256 * m =
      digit-lt m b (from_be 0 bs) h.0 (from_be-lt bs h.1) in
    rw pow-suc (rw (from_be-split (0 * 256 + b) bs) (omega arith))

be_bytes-from_be : (acc : ℕ) (bs : Bytes) → AreBytes bs → be_bytes (length bs) (from_be acc bs) ≡ bs
unfolding be_bytes from_be
be_bytes-from_be acc [] h = refl
be_bytes-from_be acc (b ∷ bs) h =
    let m = 256 ^ length bs in
    let v = from_be 0 bs in
    let digit : (((acc * 256 + b) * m + v) / m) % 256 ≡ b =
      rw (mul-add-div_right (pow-pos (length bs)) (acc * 256 + b) v)
        (rw (div-eq_of_lt (from_be-lt bs h.1)) (omega arith)) in
    rw (be_bytes-from_be (acc * 256 + b) bs h.1)
      (rw (from_be-split (acc * 256 + b) bs) (rw digit refl))

pub take_bytes-small :
    (n : ℕ) (bs : Bytes) (p : Bytes × Bytes)
    → AreBytes bs
    → take_bytes n bs ≡ ok p
    → AreBytes p.0 × AreBytes p.1
take_bytes-small n bs p small h =
    All-append_split (λ (b : ℕ). b < 256) p.0 p.1
      (subst AreBytes (sym (take_bytes-eq-ok n bs p h).0) small)

pub read_be-eq-ok :
    (w : ℕ) (bs : Bytes) (p : ℕ × Bytes)
    → AreBytes bs
    → read_be w bs ≡ ok p
    → (be_bytes w p.0 ++ p.1 ≡ bs) × AreBytes p.1 × (p.0 < 256 ^ w)
unfolding read_be
read_be-eq-ok w bs p small h =
    let (t, e, f) = >>=-eq-ok (take_bytes w bs) _ h in
    let (split, len) = take_bytes-eq-ok w bs t e in
    let (s0, s1) = take_bytes-small w bs t small e in
    let digits : be_bytes w (from_be 0 t.0) ≡ t.0 =
      subst (λ (k : ℕ). be_bytes k (from_be 0 t.0) ≡ t.0) len (be_bytes-from_be 0 t.0 s0) in
    let n_eq : from_be 0 t.0 ≡ p.0 = cc f in
    let r_eq : t.1 ≡ p.1 = cc f in
    let n_lt : from_be 0 t.0 < 256 ^ w =
      subst (λ (k : ℕ). from_be 0 t.0 < 256 ^ k) len (from_be-lt t.0 s0) in
    (
      cc (split, digits, n_eq, r_eq),
      subst AreBytes r_eq s1,
      subst (λ (n : ℕ). n < 256 ^ w) n_eq n_lt,
    )

pub read_u8-eq-ok : (bs : Bytes) (p : ℕ × Bytes) → read_u8 bs ≡ ok p → p.0 ∷ p.1 ≡ bs
unfolding read_u8
read_u8-eq-ok [] p h = cc
read_u8-eq-ok (b ∷ bs) p h = cc

pub read_end-eq-ok : (bs : Bytes) {u : Unit {0}} → read_end bs ≡ ok u → bs ≡ []
unfolding read_end
read_end-eq-ok [] h = refl
read_end-eq-ok (b ∷ bs) h = cc

pub read_keys-eq-ok :
    (n : ℕ) (bs : Bytes) (p : List Key × Bytes)
    → read_keys n bs ≡ ok p
    → (encode_keys p.0 ++ p.1 ≡ bs) × (length p.0 ≡ n)
unfolding read_keys encode_keys
read_keys-eq-ok zero bs p h = ground arith
read_keys-eq-ok (suc n) bs p h =
    let (t, e, f) = >>=-eq-ok (take_bytes 32 bs) _ h in
    let (u, g, i) = >>=-eq-ok (read_keys n t.1) _ f in
    let (split, len) = take_bytes-eq-ok 32 bs t e in
    let (split', len') = read_keys-eq-ok n t.1 u g in
    let p_eq : (t.0 ∷ u.0, u.1) ≡ p = cc i in
    rw (← p_eq) (rw append_assoc (rw split' split), omega (arith, len'))

pub read_entries-eq-ok :
    (w n : ℕ) (bs : Bytes) (p : List (ℕ × Bytes) × Bytes)
    → read_entries w n bs ≡ ok p
    → (encode_entries p.0 ++ p.1 ≡ bs) × (length p.0 ≡ n)
unfolding read_entries encode_entries
read_entries-eq-ok w zero bs p h = ground arith
read_entries-eq-ok w (suc n) bs p h =
    let (i, d, h') = >>=-eq-ok (read_u8 bs) _ h in
    let (t, e, f) = >>=-eq-ok (take_bytes w i.1) _ h' in
    let (u, g, j) = >>=-eq-ok (read_entries w n t.1) _ f in
    let (split, len) = take_bytes-eq-ok w i.1 t e in
    let (split', len') = read_entries-eq-ok w n t.1 u g in
    let p_eq : ((i.0, t.0) ∷ u.0, u.1) ≡ p = cc j in
    rw (← p_eq) (rw append_assoc (rw split' (rw split (read_u8-eq-ok bs i d))), omega (arith, len'))

pub small-cons :
    (bs : Bytes) (p : ℕ × Bytes) → AreBytes bs → p.0 ∷ p.1 ≡ bs → (p.0 < 256) × AreBytes p.1
small-cons bs p small e = let whole : AreBytes (p.0 ∷ p.1) = subst AreBytes (sym e) small in whole
