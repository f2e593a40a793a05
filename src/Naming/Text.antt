-- ===== src/Naming/Text.antt =====
-- Rust strings as lists of code points, and what the code uses of them: `len`, `trim`, `is_empty`,
-- `char::is_whitespace`, `char::is_control`, `==`.
use mathlib.Core.List.{reverse}
use werewolfproxy.Shared.{
  ℕ, ◌+◌, Bool, true, false, ◌&&◌, ◌||◌, List, [], ◌∷◌, ltb, leb, ◌==◌, if◌then◌else◌,
}
use werewolfproxy.Shared.Bytes.{bytes_eq}

abbrev pub Text : Type 0
Text = List ℕ

-- the bytes of a character in UTF-8
unfoldable pub utf8_len : ℕ → ℕ
utf8_len c = if ltb c 0x80 then 1 else if ltb c 0x800 then 2 else if ltb c 0x10000 then 3 else 4

-- `str::len`
unfoldable pub byte_len : Text → ℕ
unfolding utf8_len
byte_len [] = 0
byte_len (c ∷ cs) = utf8_len c + byte_len cs

-- `char::is_whitespace`: the Unicode property White_Space
unfoldable pub is_whitespace : ℕ → Bool
is_whitespace c =
    (leb 0x09 c && leb c 0x0d)
    || (c == 0x20
        || (c == 0x85
            || (c == 0xa0
                || (c == 0x1680
                    || ((leb 0x2000 c && leb c 0x200a)
                        || (c == 0x2028
                            || (c == 0x2029 || (c == 0x202f || (c == 0x205f || c == 0x3000)))))))))

-- `char::is_control`: the general category Cc
unfoldable pub is_control : ℕ → Bool
is_control c = ltb c 0x20 || (leb 0x7f c && leb c 0x9f)

unfoldable pub any_control : Text → Bool
unfolding is_control
any_control [] = false
any_control (c ∷ cs) = is_control c || any_control cs

unfoldable pub trim_start : Text → Text
unfolding is_whitespace
trim_start [] = []
trim_start (c ∷ cs) = let rest = trim_start cs in if is_whitespace c then rest else c ∷ cs

-- `str::trim`
unfoldable pub trim : Text → Text
unfolding trim_start
trim s = reverse (trim_start (reverse (trim_start s)))

abbrev pub text_is_empty : Text → Bool
text_is_empty [] = true
text_is_empty (c ∷ cs) = false

-- `s == s.trim()`
abbrev pub is_trimmed : Text → Bool
is_trimmed s = bytes_eq s (trim s)
