-- ===== src/Governance/Writing.antt =====
-- The parts that the encoder of crates/werewolf-core/src/governance.rs writes, through the reader.
use native.Mathlib.Nat.{
  mod-lt, mod-eq_of_lt, mul-add-mod_self_left, div-add-mod, div-add-mod', pow-suc, mul_comm,
}
use mathlib.Core.List.{append_assoc}
use werewolfproxy.Shared.{
  ℕ, zero, suc, ◌+◌, ◌/◌, ◌%◌, ◌^◌, ◌*◌, ◌<◌, ◌≡◌, refl, ap, ◌∙◌, List, [], ◌∷◌, ◌++◌, length, All,
  arith, take-append, drop-append, length-append,
}
use werewolfproxy.Shared.Bytes.{Bytes}
use werewolfproxy.Shared.Results.{ok}
use werewolfproxy.Governance.Types.{Key}
use werewolfproxy.Governance.Encoding.{
  be_bytes, from_be, take_bytes, read_u8, read_be, read_keys, read_entries, encode_keys,
  encode_entries,
}

pub length-be_bytes : (w n : ℕ) → length (be_bytes w n) ≡ w
unfolding be_bytes
length-be_bytes zero n = refl
length-be_bytes (suc w) n = ap suc (length-be_bytes w n)

pub pow-pos : (w : ℕ) → 0 < 256 ^ w
pow-pos zero = omega arith
pow-pos (suc w) = omega (arith, pow-pos w)

-- A number below `256 * m` is a digit and a number below `m`.
pub digit-lt : (m d r : ℕ) → d < 256 → r < m → d * m + r < 256 * m
digit-lt m d r hd hr = grind arith

mod-digit : (m n : ℕ) → 0 < m → n % (256 * m) ≡ n / m % 256 * m + n % m
mod-digit m n h =
    let q = n / m in
    let low = q % 256 * m + n % m in
    let split : n ≡ 256 * m * (q / 256) + low =
      omega (arith, div-add-mod' n m, ap (λ (t : ℕ). t * m) (div-add-mod q 256)) in
    ap (λ (t : ℕ). t % (256 * m)) split
    ∙ mul-add-mod_self_left (256 * m) (q / 256) low
    ∙ mod-eq_of_lt (digit-lt m (q % 256) (n % m) (mod-lt q (omega arith)) (mod-lt n h))

pub from_be-be_bytes : (w a n : ℕ) → from_be a (be_bytes w n) ≡ a * 256 ^ w + n % 256 ^ w
unfolding be_bytes from_be
from_be-be_bytes zero a n = omega arith
from_be-be_bytes (suc w) a n =
    from_be-be_bytes w (a * 256 + n / 256 ^ w % 256) n
    ∙ rw pow-suc
        (rw (mul_comm (256 ^ w) 256) (rw (mod-digit (256 ^ w) n (pow-pos w)) (omega arith)))

pub take_bytes-append :
    (xs ys : Bytes) (n : ℕ) → length xs ≡ n → take_bytes n (xs ++ ys) ≡ ok (xs, ys)
unfolding take_bytes
take_bytes-append xs ys n h =
    rw (← h) (ground (arith, take-append xs ys, drop-append xs ys, length-append xs ys))

pub read_be-append :
    (w n : ℕ) (rest : Bytes) → n < 256 ^ w → read_be w (be_bytes w n ++ rest) ≡ ok (n, rest)
unfolding read_be
read_be-append w n rest h =
    rw (take_bytes-append (be_bytes w n) rest w (length-be_bytes w n))
      (rw (from_be-be_bytes w 0 n) (rw (mod-eq_of_lt h) (ground arith)))

-- What the Rust types of keys and signatures say: arrays of `w` bytes.
abbrev pub AreKeys : List Key → Type 0
AreKeys ks = All (λ (k : Key). length k ≡ 32) ks

abbrev pub AreEntries : ℕ → List (ℕ × Bytes) → Type 0
AreEntries w es = All (λ (e : ℕ × Bytes). length e.1 ≡ w) es

pub read_keys-append :
    (ks : List Key) (rest : Bytes)
    → AreKeys ks
    → read_keys (length ks) (encode_keys ks ++ rest) ≡ ok (ks, rest)
unfolding read_keys encode_keys
read_keys-append [] rest h = refl
read_keys-append (k ∷ ks) rest h = rw (append_assoc k (encode_keys ks) rest) (
    rw (take_bytes-append k (encode_keys ks ++ rest) 32 h.0)
      (rw (read_keys-append ks rest h.1) refl))

pub read_entries-append :
    (w : ℕ) (es : List (ℕ × Bytes)) (rest : Bytes)
    → AreEntries w es
    → read_entries w (length es) (encode_entries es ++ rest) ≡ ok (es, rest)
unfolding read_entries encode_entries read_u8
read_entries-append w [] rest h = refl
read_entries-append w ((i, k) ∷ es) rest h = rw (append_assoc k (encode_entries es) rest) (
    rw (take_bytes-append k (encode_entries es ++ rest) w h.0)
      (rw (read_entries-append w es rest h.1) refl))

pub length-encode_keys : (ks : List Key) → AreKeys ks → length (encode_keys ks) ≡ 32 * length ks
unfolding encode_keys
length-encode_keys [] h = omega arith
length-encode_keys (k ∷ ks) h =
    omega (arith, length-append k (encode_keys ks), length-encode_keys ks h.1)

pub length-encode_entries :
    (w : ℕ) (es : List (ℕ × Bytes))
    → AreEntries w es
    → length (encode_entries es) ≡ (w + 1) * length es
unfolding encode_entries
length-encode_entries w [] h = omega arith
length-encode_entries w ((i, k) ∷ es) h =
    omega (arith, length-append k (encode_entries es), length-encode_entries w es h.1)
