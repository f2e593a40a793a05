-- ===== src/Handshake/Codes.antt =====
-- The strict text codes of crates/werewolfd/src/handshake.rs: `hex`, `unhex`, `fingerprint`,
-- `remote`, and the printing of a fingerprint in crates/werewolf-core/src/pelt.rs (`hexish`).
use werewolfproxy.Shared.{
  ℕ, zero, suc, ◌+◌, ◌-◌, ◌*◌, ◌/◌, ◌%◌, Bool, true, false, not, ◌&&◌, ◌||◌, Option, none, some,
  List, [], ◌∷◌, length, ltb, leb, ◌==◌, if◌then◌else◌,
}
use werewolfproxy.Shared.Bytes.{Bytes}
use werewolfproxy.Shared.Results.{Result, ok, err, ◌>>=◌, ◌>>◌, ensure}
use werewolfproxy.Overlay.NodeId.{to_hex}
use werewolfproxy.Naming.Text.{is_whitespace, is_control}

-- A `&str`, as its UTF-8 bytes.
abbrev pub Str : Type 0
Str = Bytes

-- `rejected()`, the one error of the handshake, or a panic.
pub data Failure : Type 0 where
  rejected panicked : Failure

unfoldable pub require : Bool → Result Failure (Unit {0})
require value = ensure value rejected

-- `hex`
unfoldable pub hex : Bytes → Str
unfolding to_hex
hex bs = to_hex bs

-- the closure `digit` of `unhex`
unfoldable pub lower_digit : ℕ → Result Failure ℕ
lower_digit b =
    if leb b'0' b && leb b b'9'
    then ok (b - b'0')
    else if leb b'a' b && leb b b'f'
    then ok (b - b'a' + 10)
    else err rejected

-- the loop of `unhex` over the pairs of the text
unfoldable pub unhex_pairs : Bytes → Result Failure Bytes
unhex_pairs [] = ok []
unhex_pairs (h ∷ []) = ok []
unhex_pairs (h ∷ l ∷ rest) = do
  high ← lower_digit h
  low ← lower_digit l
  bytes ← unhex_pairs rest
  ok ((high * 16 + low) ∷ bytes)

-- `unhex::<N>`
unfoldable pub unhex : ℕ → Str → Result Failure Bytes
unfolding require
unhex n text = do require (length text == 2 * n); unhex_pairs text

-- `str::strip_prefix`
unfoldable pub strip_prefix : Str → Str → Option Str
strip_prefix [] text = some text
strip_prefix (p ∷ ps) [] = none
strip_prefix (p ∷ ps) (c ∷ cs) = let rest = strip_prefix ps cs in if p == c then rest else none

-- "wwp1:"
abbrev pub fingerprint_prefix : Str
fingerprint_prefix = b'w' ∷ b'w' ∷ b'p' ∷ b'1' ∷ b':' ∷ []

-- the closure `digit` of `fingerprint`
unfoldable pub upper_digit : ℕ → Result Failure ℕ
upper_digit b =
    if leb b'0' b && leb b b'9'
    then ok (b - b'0')
    else if leb b'A' b && leb b b'F'
    then ok (b - b'A' + 10)
    else err rejected

-- the loop of `fingerprint` over the chunks of three bytes, the next one being chunk `i`
unfoldable pub parts : ℕ → Bytes → Result Failure Bytes
parts i [] = ok []
parts i (a ∷ []) = err rejected
parts i (a ∷ b ∷ []) = do
  require (i == 7)
  high ← upper_digit a
  low ← upper_digit b
  ok ((high * 16 + low) ∷ [])
parts i (a ∷ b ∷ c ∷ rest) = do
  require (not (i == 7))
  require (c == b'-')
  high ← upper_digit a
  low ← upper_digit b
  bytes ← parts (i + 1) rest
  ok ((high * 16 + low) ∷ bytes)

-- `ok_or_else(rejected)`
abbrev pub or_rejected {ℓ} : {A : Type ℓ} → Option A → Result Failure A
or_rejected none = err rejected
or_rejected (some a) = ok a

-- `fingerprint`
unfoldable pub fingerprint : Str → Result Failure Bytes
fingerprint text = do
  suffix ← or_rejected (strip_prefix fingerprint_prefix text)
  require (length suffix == 23)
  parts 0 suffix

-- `{:02X}`: a digit below 16 in upper case
unfoldable pub upper_hex_digit : ℕ → ℕ
upper_hex_digit d = if ltb d 10 then d + b'0' else d - 10 + b'A'

-- `hexish`
unfoldable pub hexish : Bytes → Str
hexish [] = []
hexish (b ∷ []) = upper_hex_digit (b / 16) ∷ upper_hex_digit (b % 16) ∷ []
hexish (b ∷ c ∷ bs) = upper_hex_digit (b / 16) ∷ upper_hex_digit (b % 16) ∷ b'-' ∷ hexish (c ∷ bs)

-- the low six bits of the byte at an index, behind a leading byte of UTF-8
abbrev continuation : ℕ → Bytes → ℕ
continuation i [] = 0
continuation zero (b ∷ bs) = b % 64
continuation (suc i) (b ∷ bs) = continuation i bs

-- the character that starts with the byte `b`
unfoldable pub code_point : ℕ → Bytes → ℕ
code_point b bs =
    if ltb b 0x80
    then b
    else if ltb b 0xe0
    then b % 32 * 64 + continuation 0 bs
    else if ltb b 0xf0
    then b % 16 * 4096 + continuation 0 bs * 64 + continuation 1 bs
    else b % 8 * 262144 + continuation 0 bs * 4096 + continuation 1 bs * 64 + continuation 2 bs

-- `str::chars`, of valid UTF-8
unfoldable pub chars : Str → List ℕ
chars [] = []
chars (b ∷ bs) =
    let rest = chars bs in if leb 0x80 b && ltb b 0xc0 then rest else code_point b bs ∷ rest

-- `.any(|c| c.is_whitespace() || c.is_control())`
unfoldable pub any_space_or_control : List ℕ → Bool
any_space_or_control [] = false
any_space_or_control (c ∷ cs) = (is_whitespace c || is_control c) || any_space_or_control cs

abbrev pub str_is_empty : Str → Bool
str_is_empty [] = true
str_is_empty (b ∷ bs) = false

-- `remote`
unfoldable pub remote : Str → Result Failure (Unit {0})
remote text =
    require (
      not (str_is_empty text) && (leb (length text) 512 && not (any_space_or_control (chars text))))
