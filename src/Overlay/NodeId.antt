-- ===== src/Overlay/NodeId.antt =====
-- crates/werewolf-core/src/nodeid.rs: 256-bit ids, their XOR distance, and hexadecimal text.
use Prim.Native.Nat.{bit_xor}
use werewolfproxy.Shared.{
  ℕ, ◌+◌, ◌-◌, ◌*◌, ◌/◌, ◌%◌, ◌≤◌, ◌<◌, ◌≡◌, refl, ap, ◌&&◌, Option, none, some, [], ◌∷◌, length,
  ltb, leb, ◌==◌, if◌then◌else◌, ◌||◌, zero, suc, Bool, true, arith, All, Option-cases, inl, inr,
}
use werewolfproxy.Shared.Bytes.{Bytes}
use werewolfproxy.Shared.Results.{Result, ok, err, ◌>>=◌, ◌>>◌, ensure}

-- `NodeId([u8; 32])`
abbrev pub NodeId : Type 0
NodeId = Bytes

-- `xor_distance`: `zip` stops at the shorter, and both have 32 bytes.
unfoldable pub xor_distance : NodeId → NodeId → Bytes
xor_distance [] bs = []
xor_distance (a ∷ as_) [] = []
xor_distance (a ∷ as_) (b ∷ bs) = bit_xor a b ∷ xor_distance as_ bs

-- `u8::leading_zeros`
unfoldable pub leading_zeros : ℕ → ℕ
leading_zeros b =
    if leb 128 b
    then 0
    else if leb 64 b
    then 1
    else if leb 32 b
    then 2
    else if leb 16 b
    then 3
    else if leb 8 b
    then 4
    else if leb 4 b
    then 5
    else if leb 2 b
    then 6
    else if leb 1 b
    then 7
    else 8

-- the loop of `bucket_index`, at the byte with index `i`
unfoldable pub first_difference : ℕ → Bytes → ℕ
unfolding leading_zeros
first_difference i [] = 255
first_difference i (d ∷ ds) =
    let rest = first_difference (i + 1) ds in if d == 0 then rest else i * 8 + leading_zeros d

-- `bucket_index`
unfoldable pub bucket_index : NodeId → NodeId → ℕ
unfolding first_difference
bucket_index a b = first_difference 0 (xor_distance a b)

-- `{:02x}`: a digit below 16 in lower case
unfoldable pub hex_digit : ℕ → ℕ
hex_digit d = if ltb d 10 then d + b'0' else d - 10 + b'a'

-- `to_hex`
unfoldable pub to_hex : Bytes → Bytes
to_hex [] = []
to_hex (b ∷ bs) = hex_digit (b / 16) ∷ hex_digit (b % 16) ∷ to_hex bs

-- `u8::is_ascii_hexdigit`
unfoldable pub is_hex_digit : ℕ → Bool
is_hex_digit c =
    (leb b'0' c && leb c b'9') || ((leb b'a' c && leb c b'f') || (leb b'A' c && leb c b'F'))

unfoldable pub all_hex_digits : Bytes → Bool
all_hex_digits [] = true
all_hex_digits (c ∷ cs) = is_hex_digit c && all_hex_digits cs

pub data HexError : Type 0 where
  bad_length bad_digit bad_byte : HexError

-- the value of a digit to the base 16
unfoldable pub hex_value : ℕ → Option ℕ
hex_value c =
    if leb b'0' c && leb c b'9'
    then some (c - b'0')
    else if leb b'a' c && leb c b'f'
    then some (c - b'a' + 10)
    else if leb b'A' c && leb c b'F'
    then some (c - b'A' + 10)
    else none

abbrev pub value_or_bad_byte : Option ℕ → Result HexError ℕ
value_or_bad_byte none = err bad_byte
value_or_bad_byte (some d) = ok d

-- `from_str_radix(chunk, 16)` over the chunks of two digits
unfoldable pub hex_bytes : Bytes → Result HexError Bytes
hex_bytes [] = ok []
hex_bytes (h ∷ []) = err bad_byte
hex_bytes (h ∷ l ∷ rest) = do
  high ← value_or_bad_byte (hex_value h)
  low ← value_or_bad_byte (hex_value l)
  bytes ← hex_bytes rest
  ok ((high * 16 + low) ∷ bytes)

-- `from_hex`
unfoldable pub from_hex : Bytes → Result HexError NodeId
unfolding hex_bytes
from_hex hex = do
  ensure (length hex == 64) bad_length
  ensure (all_hex_digits hex) bad_digit
  hex_bytes hex

is_hex_digit-hex_digit : (d : ℕ) → d < 16 → is_hex_digit (hex_digit d) ≡ true
unfolding is_hex_digit hex_digit
is_hex_digit-hex_digit d h = ground arith

all_hex_digits-to_hex :
    (bs : Bytes) → All (λ (b : ℕ). b < 256) bs → all_hex_digits (to_hex bs) ≡ true
unfolding all_hex_digits to_hex
all_hex_digits-to_hex [] h = refl
all_hex_digits-to_hex (b ∷ bs) h =
    rw
      (
        is_hex_digit-hex_digit (b / 16) (omega arith),
        is_hex_digit-hex_digit (b % 16) (omega arith),
        all_hex_digits-to_hex bs h.1,
      )
      refl

hex_value-hex_digit : (d : ℕ) → d < 16 → hex_value (hex_digit d) ≡ some d
unfolding hex_value hex_digit
hex_value-hex_digit d h = ground arith

length-to_hex : (bs : Bytes) → length (to_hex bs) ≡ 2 * length bs
unfolding to_hex
length-to_hex [] = omega arith
length-to_hex (b ∷ bs) = omega (arith, length-to_hex bs)

hex_bytes-to_hex : (bs : Bytes) → All (λ (b : ℕ). b < 256) bs → hex_bytes (to_hex bs) ≡ ok bs
unfolding hex_bytes to_hex
hex_bytes-to_hex [] h = refl
hex_bytes-to_hex (b ∷ bs) h =
    rw
      (
        hex_value-hex_digit (b / 16) (omega arith),
        hex_value-hex_digit (b % 16) (omega arith),
        hex_bytes-to_hex bs h.1,
      )
      (ap (λ (n : ℕ). ok (n ∷ bs)) (digits b))
  where
    digits : (n : ℕ) → n / 16 * 16 + n % 16 ≡ n
    digits n = omega arith

-- The hexadecimal text of an id of 32 bytes reads back as the id.
from_hex-to_hex :
    (id : NodeId) → length id ≡ 32 → All (λ (b : ℕ). b < 256) id → from_hex (to_hex id) ≡ ok id
unfolding from_hex
from_hex-to_hex id len small =
    rw (length-to_hex id, len) (rw (all_hex_digits-to_hex id small) (hex_bytes-to_hex id small))

hex_value_total : (c : ℕ) → is_hex_digit c ≡ true → (d : ℕ) × (hex_value c ≡ some d)
unfolding is_hex_digit
hex_value_total c h = elim (Option-cases (hex_value c)) [
  | inl absent ↦ unfold hex_value in ground arith
  | inr there ↦ there
]

hex_bytes_total :
    (n : ℕ) (hex : Bytes)
    → length hex ≡ n + n
    → all_hex_digits hex ≡ true
    → (bs : Bytes) × (hex_bytes hex ≡ ok bs) × (length bs ≡ n)
unfolding hex_bytes all_hex_digits
hex_bytes_total zero [] len h = ([], refl, refl)
hex_bytes_total zero (c ∷ cs) len h = absurd (omega arith)
hex_bytes_total (suc n) [] len h = absurd (omega arith)
hex_bytes_total (suc n) (c ∷ []) len h = absurd (omega arith)
hex_bytes_total (suc n) (c ∷ d ∷ cs) len h =
    let (high, e) = hex_value_total c (ground arith) in
    let (low, f) = hex_value_total d (ground arith) in
    let (bs, g, k) = hex_bytes_total n cs (omega arith) (ground arith) in
    ((high * 16 + low) ∷ bs, rw (e, f, g) refl, ap suc k)

-- Of a text of 64 bytes, all of them hexadecimal digits, `from_hex` reads an id of 32 bytes: past the
-- test of the digits no chunk fails to parse.
pub from_hex_total :
    (hex : Bytes)
    → length hex ≡ 64
    → all_hex_digits hex ≡ true
    → (id : NodeId) × (from_hex hex ≡ ok id) × (length id ≡ 32)
unfolding from_hex
from_hex_total hex len digits =
    let (id, e, k) = hex_bytes_total 32 hex len digits in (id, rw (len, digits) e, k)

leading_zeros-lt : (b : ℕ) → 0 < b → leading_zeros b < 8
unfolding leading_zeros
leading_zeros-lt b h = ground arith

first_difference-lt : (i : ℕ) (ds : Bytes) → i + length ds ≤ 32 → first_difference i ds < 256
unfolding first_difference
first_difference-lt i [] h = omega arith
first_difference-lt i (d ∷ ds) h =
    ground (arith, first_difference-lt (i + 1) ds, leading_zeros-lt d)

length-xor_distance : (a b : NodeId) → length (xor_distance a b) ≤ length a
unfolding xor_distance
length-xor_distance [] b = omega arith
length-xor_distance (x ∷ xs) [] = omega arith
length-xor_distance (x ∷ xs) (y ∷ ys) = omega (arith, length-xor_distance xs ys)

-- Seen from an id of 32 bytes, every id falls into one of the 256 buckets.
pub bucket_index-lt : (a b : NodeId) → length a ≡ 32 → bucket_index a b < 256
unfolding bucket_index
bucket_index-lt a b h =
    first_difference-lt 0 (xor_distance a b) (omega (arith, length-xor_distance a b))
