-- ===== src/Handshake/Canonical.antt =====
-- The codes of crates/werewolfd/src/handshake.rs have one spelling for each value.
use werewolfproxy.Shared.{
  ℕ, zero, suc, ◌+◌, ◌*◌, ◌/◌, ◌%◌, ◌<◌, ◌≡◌, ◌↔◌, refl, ap, [], ◌∷◌, length, ◌==◌, All, arith,
}
use werewolfproxy.Shared.Bytes.{Bytes}
use werewolfproxy.Shared.Results.{ok, >>=-eq-ok, ok-injective, ensure-bind-eq-ok}
use werewolfproxy.Overlay.NodeId.{to_hex, hex_digit}
use werewolfproxy.Handshake.Codes.{
  hex, lower_digit, unhex_pairs, unhex, upper_digit, upper_hex_digit,
}

abbrev pub AreBytes : Bytes → Type 0
AreBytes bs = All (λ (b : ℕ). b < 256) bs

lower_digit-eq-ok : (c d : ℕ) → lower_digit c ≡ ok d → (d < 16) × (hex_digit d ≡ c)
unfolding lower_digit hex_digit
lower_digit-eq-ok c d h = ground arith

lower_digit-hex_digit : (d : ℕ) → d < 16 → lower_digit (hex_digit d) ≡ ok d
unfolding lower_digit hex_digit
lower_digit-hex_digit d h = ground arith

pub upper_digit-eq-ok : (c d : ℕ) → upper_digit c ≡ ok d → (d < 16) × (upper_hex_digit d ≡ c)
unfolding upper_digit upper_hex_digit
upper_digit-eq-ok c d h = ground arith

pub upper_digit-upper_hex_digit : (d : ℕ) → d < 16 → upper_digit (upper_hex_digit d) ≡ ok d
unfolding upper_digit upper_hex_digit
upper_digit-upper_hex_digit d h = ground arith

pub digits_of :
    (h l : ℕ)
    → h < 16
    → l < 16
    → ((h * 16 + l) / 16 ≡ h) × ((h * 16 + l) % 16 ≡ l) × (h * 16 + l < 256)
digits_of h l p q = omega arith

unhex_pairs-eq-ok :
    (n : ℕ) (text bs : Bytes)
    → length text ≡ n + n
    → unhex_pairs text ≡ ok bs
    → (to_hex bs ≡ text) × (length bs ≡ n) × AreBytes bs
unfolding unhex_pairs to_hex
unhex_pairs-eq-ok zero [] bs len h = let e = ok-injective h in rw (← e) (refl, refl, tt)
unhex_pairs-eq-ok (suc n) [] bs len h = absurd (omega arith)
unhex_pairs-eq-ok zero (a ∷ t) bs len h = absurd (omega arith)
unhex_pairs-eq-ok (suc n) (a ∷ []) bs len h = absurd (omega arith)
unhex_pairs-eq-ok (suc n) (a ∷ b ∷ t) bs len h =
    let (x, e, h1) = >>=-eq-ok (lower_digit a) _ h in
    let (y, f, h2) = >>=-eq-ok (lower_digit b) _ h1 in
    let (zs, g, h3) = >>=-eq-ok (unhex_pairs t) _ h2 in
    let (hex_t, len_t, small) = unhex_pairs-eq-ok n t zs (omega arith) g in
    let (x_lt, x_eq) = lower_digit-eq-ok a x e in
    let (y_lt, y_eq) = lower_digit-eq-ok b y f in
    let (hi, lo, lt) = digits_of x y x_lt y_lt in
    rw (← (ok-injective h3)) (rw (hi, lo, x_eq, y_eq, hex_t) (refl, ap suc len_t, (lt, small)))

unhex_pairs-to_hex : (bs : Bytes) → AreBytes bs → unhex_pairs (to_hex bs) ≡ ok bs
unfolding unhex_pairs to_hex
unhex_pairs-to_hex [] h = refl
unhex_pairs-to_hex (b ∷ bs) h =
    rw
      (
        lower_digit-hex_digit (b / 16) (omega arith),
        lower_digit-hex_digit (b % 16) (omega arith),
        unhex_pairs-to_hex bs h.1,
      )
      (ap (λ (n : ℕ). ok (n ∷ bs)) (digits b))
  where
    digits : (n : ℕ) → n / 16 * 16 + n % 16 ≡ n
    digits n = omega arith

length-to_hex : (bs : Bytes) → length (to_hex bs) ≡ 2 * length bs
unfolding to_hex
length-to_hex [] = omega arith
length-to_hex (b ∷ bs) = omega (arith, length-to_hex bs)

-- `unhex::<N>` accepts exactly what `hex` prints of `N` bytes.
pub unhex_iff :
    (n : ℕ) (text bs : Bytes)
    → (unhex n text ≡ ok bs) ↔ ((hex bs ≡ text) × (length bs ≡ n) × AreBytes bs)
unfolding unhex hex
unhex_iff n text bs = (sound, complete)
  where
    sound : unhex n text ≡ ok bs → (hex bs ≡ text) × (length bs ≡ n) × AreBytes bs
    sound h =
        let (len, h1) = ensure-bind-eq-ok (length text == 2 * n) _ _ h in
        unhex_pairs-eq-ok n text bs (ground arith) h1

    complete : (hex bs ≡ text) × (length bs ≡ n) × AreBytes bs → unhex n text ≡ ok bs
    complete (e, len, small) =
        rw (← e) (ground (arith, length-to_hex bs, unhex_pairs-to_hex bs small))
