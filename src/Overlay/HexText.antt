-- ===== src/Overlay/HexText.antt =====
-- `NodeId::from_hex` of crates/werewolf-core/src/nodeid.rs against `NodeId::to_hex`.
use werewolfproxy.Shared.{
  ℕ, ◌+◌, ◌*◌, ◌/◌, ◌%◌, ◌<◌, ◌≡◌, ◌↔◌, refl, ap, [], ◌∷◌, length, leb, ◌&&◌, ◌==◌, some, none, ◌⊎◌,
  inl, inr, Bool-cases, if◌then◌else◌, All, true, arith, Option,
}
use werewolfproxy.Shared.Bytes.{Bytes}
use werewolfproxy.Shared.Results.{ok, err, >>=-eq-ok, ok-injective, ensure-bind-eq-ok}
use werewolfproxy.Overlay.NodeId.{
  NodeId, HexError, hex_digit, to_hex, is_hex_digit, all_hex_digits, hex_value, hex_bytes, from_hex,
  value_or_bad_byte, from_hex_total,
}

-- A letter of the alphabet in lower case, and any other character as it is.
abbrev pub to_ascii_lowercase : ℕ → ℕ
to_ascii_lowercase c = if leb b'A' c && leb c b'Z' then c + 32 else c

abbrev pub lowercase : Bytes → Bytes
lowercase [] = []
lowercase (c ∷ cs) = to_ascii_lowercase c ∷ lowercase cs

hex_value-eq-some :
    (c d : ℕ) → hex_value c ≡ some d → (d < 16) × (hex_digit d ≡ to_ascii_lowercase c)
unfolding hex_value hex_digit
hex_value-eq-some c d h = ground arith

hex_value-lowercase : (c d : ℕ) → d < 16 → hex_digit d ≡ to_ascii_lowercase c → hex_value c ≡ some d
unfolding hex_value hex_digit
hex_value-lowercase c d h e = ground arith

is_hex_digit-lowercase :
    (c d : ℕ) → d < 16 → hex_digit d ≡ to_ascii_lowercase c → is_hex_digit c ≡ true
unfolding is_hex_digit hex_digit
is_hex_digit-lowercase c d h e = ground arith

value_or_bad_byte-eq-ok : (o : Option ℕ) (d : ℕ) → value_or_bad_byte o ≡ ok d → o ≡ some d
value_or_bad_byte-eq-ok none d h = cc
value_or_bad_byte-eq-ok (some x) d h = ap some (ok-injective h)

byte_of_digits :
    (h l : ℕ)
    → h < 16
    → l < 16
    → ((h * 16 + l) / 16 ≡ h) × ((h * 16 + l) % 16 ≡ l) × (h * 16 + l < 256)
byte_of_digits h l p q = omega arith

-- The bytes that the chunks of a text give are the ones that print as the text in lower case.
hex_bytes-eq-ok :
    (hex bs : Bytes)
    → hex_bytes hex ≡ ok bs
    → (to_hex bs ≡ lowercase hex) × (length hex ≡ 2 * length bs) × All (λ (b : ℕ). b < 256) bs
unfolding hex_bytes to_hex
hex_bytes-eq-ok [] bs h = rw (← (ok-injective h)) (refl, omega arith, tt)
hex_bytes-eq-ok (a ∷ []) bs h = cc
hex_bytes-eq-ok (a ∷ b ∷ rest) bs h =
    let (x, e, h1) = >>=-eq-ok (value_or_bad_byte (hex_value a)) _ h in
    let (y, f, h2) = >>=-eq-ok (value_or_bad_byte (hex_value b)) _ h1 in
    let (zs, g, h3) = >>=-eq-ok (hex_bytes rest) _ h2 in
    let (text, len, small) = hex_bytes-eq-ok rest zs g in
    let (x_lt, x_eq) = hex_value-eq-some a x (value_or_bad_byte-eq-ok _ x e) in
    let (y_lt, y_eq) = hex_value-eq-some b y (value_or_bad_byte-eq-ok _ y f) in
    let (hi, lo, lt) = byte_of_digits x y x_lt y_lt in
    rw (← (ok-injective h3)) (rw (hi, lo, x_eq, y_eq, text) (refl, omega arith, (lt, small)))

hex_bytes-lowercase :
    (bs hex : Bytes)
    → All (λ (b : ℕ). b < 256) bs
    → to_hex bs ≡ lowercase hex
    → (hex_bytes hex ≡ ok bs) × (all_hex_digits hex ≡ true) × (length hex ≡ 2 * length bs)
unfolding hex_bytes to_hex all_hex_digits
hex_bytes-lowercase [] [] small e = (refl, refl, omega arith)
hex_bytes-lowercase [] (c ∷ cs) small e = cc
hex_bytes-lowercase (b ∷ bs) [] small e = cc
hex_bytes-lowercase (b ∷ bs) (c ∷ []) small e = cc
hex_bytes-lowercase (b ∷ bs) (c ∷ d ∷ cs) small e =
    let high_lt : b / 16 < 16 = omega (arith, small.0) in
    let low_lt : b % 16 < 16 = omega arith in
    let high : hex_digit (b / 16) ≡ to_ascii_lowercase c = cc in
    let low : hex_digit (b % 16) ≡ to_ascii_lowercase d = cc in
    let text : to_hex bs ≡ lowercase cs = cc in
    let (g, digits, len) = hex_bytes-lowercase bs cs small.1 text in
    (
      rw (hex_value-lowercase c (b / 16) high_lt high, hex_value-lowercase d (b % 16) low_lt low, g)
          (ap (λ (n : ℕ). ok (n ∷ bs)) (join b)),
      rw
          (
            is_hex_digit-lowercase c (b / 16) high_lt high,
            is_hex_digit-lowercase d (b % 16) low_lt low,
          )
          digits,
      omega arith,
    )
  where
    join : (n : ℕ) → n / 16 * 16 + n % 16 ≡ n
    join n = omega arith

half : (n m : ℕ) → (n == 64) ≡ true → n ≡ 2 * m → m ≡ 32
half n m h e = ground arith

-- What `from_hex` returns at the length of a text and the test of its digits.
from_hex-cases :
    (hex : Bytes)
    → ((¬ (length hex ≡ 64)) × (from_hex hex ≡ err HexError.bad_length))
      ⊎ (length hex ≡ 64)
        × ((from_hex hex ≡ err HexError.bad_digit) ⊎ ((id : NodeId) × (from_hex hex ≡ ok id)))
unfolding from_hex
from_hex-cases hex = elim (Bool-cases (length hex == 64)) [
  | inr other ↦ inl (ground arith, rw other refl)
  | inl same ↦ inr (
    ground arith,
    elim (Bool-cases (all_hex_digits hex)) [
      | inr some_other ↦ inl (rw (same, some_other) refl)
      | inl digits ↦ let (id, e, len) = from_hex_total hex (ground arith) digits in inr (id, e)
    ],
  )
]

from_hex-eq-ok :
    (hex id : Bytes)
    → from_hex hex ≡ ok id
    → (to_hex id ≡ lowercase hex) × (length id ≡ 32) × All (λ (b : ℕ). b < 256) id
unfolding from_hex
from_hex-eq-ok hex id h =
    let (len, h1) = ensure-bind-eq-ok (length hex == 64) _ _ h in
    let (digits, h2) = ensure-bind-eq-ok (all_hex_digits hex) _ _ h1 in
    let (text, twice, small) = hex_bytes-eq-ok hex id h2 in (text, half _ _ len twice, small)

from_hex-lowercase :
    (hex id : Bytes)
    → (to_hex id ≡ lowercase hex) × (length id ≡ 32) × All (λ (b : ℕ). b < 256) id
    → from_hex hex ≡ ok id
unfolding from_hex
from_hex-lowercase hex id (text, len, small) =
    let (e, digits, twice) = hex_bytes-lowercase id hex small text in
    let size : length hex ≡ 64 = omega arith in rw (size, digits) e

bad_length_iff : (hex : Bytes) → (from_hex hex ≡ err HexError.bad_length) ↔ ¬ (length hex ≡ 64)
bad_length_iff hex = elim (from_hex-cases hex) [
  | inl (other, e) ↦ (λ _. other, λ _. e)
  | inr (same, inl e) ↦ (λ h. cc, λ other. absurd (other same))
  | inr (same, inr (id, e)) ↦ (λ h. cc, λ other. absurd (other same))
]

never_bad_byte : (hex : Bytes) → ¬ (from_hex hex ≡ err HexError.bad_byte)
never_bad_byte hex h = elim (from_hex-cases hex) [
  | inl (other, e) ↦ cc
  | inr (same, inl e) ↦ cc
  | inr (same, inr (id, e)) ↦ cc
]

-- `from_hex` reads an id from a text exactly if the id has 32 bytes and is printed by `to_hex` as the
-- text in lower case; it reports the length exactly if the text has not 64 bytes; and no chunk of two
-- digits fails to parse.
pub from_hex_iff :
    (hex id : Bytes)
    → ((from_hex hex ≡ ok id)
        ↔ ((to_hex id ≡ lowercase hex) × (length id ≡ 32) × All (λ (b : ℕ). b < 256) id))
      × ((from_hex hex ≡ err HexError.bad_length) ↔ ¬ (length hex ≡ 64))
      × ¬ (from_hex hex ≡ err HexError.bad_byte)
from_hex_iff hex id =
    ((from_hex-eq-ok hex id, from_hex-lowercase hex id), bad_length_iff hex, never_bad_byte hex)
