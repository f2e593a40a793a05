-- ===== src/Handshake/Transcript.antt =====
-- `transcript` of crates/werewolfd/src/handshake.rs: what a handshake signature covers.
use mathlib.Core.List.{append_assoc}
use werewolfproxy.Shared.{
  ℕ, ◌^◌, ◌%◌, ◌<◌, ◌≡◌, refl, sym, ap, ◌∙◌, List, [], ◌∷◌, ◌++◌, length, take, drop, ltb, arith,
  take-append, drop-append, ltb→lt, length-append,
}
use native.Mathlib.Nat.{mod-eq_of_lt}
use werewolfproxy.Shared.Bytes.{Bytes}
use werewolfproxy.Shared.Results.{
  Result, ok, ◌>>=◌, ◌>>◌, ensure, >>=-eq-ok, ensure-bind-eq-ok, ok-injective,
}
use werewolfproxy.Governance.Encoding.{be_bytes, from_be}
use werewolfproxy.Governance.Writing.{from_be-be_bytes, length-be_bytes}
use werewolfproxy.Handshake.Codes.{Failure, panicked}

-- b"WWP-HS\0"
abbrev pub magic : Bytes
magic = b'W' ∷ b'W' ∷ b'P' ∷ b'-' ∷ b'H' ∷ b'S' ∷ 0 ∷ []

-- one field behind its length; `u32::try_from(..).expect(..)` panics on a longer one
unfoldable pub encode_field : Bytes → Result Failure Bytes
encode_field field = do
  ensure (ltb (length field) (256 ^ 4)) panicked
  ok (be_bytes 4 (length field) ++ field)

-- the loop of `transcript`
unfoldable pub encode_fields : List Bytes → Result Failure Bytes
encode_fields [] = ok []
encode_fields (f ∷ fs) = do first ← encode_field f; rest ← encode_fields fs; ok (first ++ rest)

-- `transcript`
unfoldable pub transcript : Bytes → List Bytes → Result Failure Bytes
transcript domain fields = do body ← encode_fields (domain ∷ fields); ok (magic ++ body)

append_injective :
    (xs ys as_ bs : Bytes) → length xs ≡ length ys → xs ++ as_ ≡ ys ++ bs → (xs ≡ ys) × (as_ ≡ bs)
append_injective xs ys as_ bs len e = (
  sym (take-append xs as_)
      ∙ ap (take (length xs)) e
      ∙ ap (λ (n : ℕ). take n (ys ++ bs)) len
      ∙ take-append ys bs,
  sym (drop-append xs as_)
      ∙ ap (drop (length xs)) e
      ∙ ap (λ (n : ℕ). drop n (ys ++ bs)) len
      ∙ drop-append ys bs,
)

be_bytes_injective : (n m : ℕ) → n < 256 ^ 4 → m < 256 ^ 4 → be_bytes 4 n ≡ be_bytes 4 m → n ≡ m
be_bytes_injective n m hn hm e =
    sym (mod-eq_of_lt hn) ∙ sym (read n) ∙ ap (from_be 0) e ∙ read m ∙ mod-eq_of_lt hm
  where
    read : (k : ℕ) → from_be 0 (be_bytes 4 k) ≡ k % 256 ^ 4
    read k = omega (arith, from_be-be_bytes 4 0 k)

encode_fields-cons :
    (f : Bytes) (fs : List Bytes) (out : Bytes)
    → encode_fields (f ∷ fs) ≡ ok out
    → (rest : Bytes) × (encode_fields fs ≡ ok rest)
      × (length f < 256 ^ 4)
      × (out ≡ be_bytes 4 (length f) ++ (f ++ rest))
unfolding encode_fields
encode_fields-cons f fs out h =
    let (first, e, h1) = >>=-eq-ok (encode_field f) _ h in
    let (rest, g, h2) = >>=-eq-ok (encode_fields fs) _ h1 in
    let (small, h3) = field f first e in
    (
      rest,
      g,
      small,
      sym (ok-injective h2)
          ∙ ap (λ (x : Bytes). x ++ rest) h3
          ∙ append_assoc (be_bytes 4 (length f)) f rest,
    )
  where
    field :
        (q first : Bytes)
        → encode_field q ≡ ok first
        → (length q < 256 ^ 4) × (first ≡ be_bytes 4 (length q) ++ q)
    field q first e =
        unfold encode_field in
        let (small, h) = ensure-bind-eq-ok (ltb (length q) (256 ^ 4)) _ _ e in
        (ltb→lt _ _ small, sym (ok-injective h))

encode_fields_nonempty : (f : Bytes) (fs : List Bytes) → ¬ (encode_fields (f ∷ fs) ≡ ok [])
encode_fields_nonempty f fs h =
    let (rest, e, small, eq) = encode_fields-cons f fs [] h in
    absurd (
      omega (
        arith,
        ap length eq,
        length-append (be_bytes 4 (length f)) (f ++ rest),
        length-be_bytes 4 (length f),
      ))

encode_fields-nil : (out : Bytes) → encode_fields [] ≡ ok out → out ≡ []
unfolding encode_fields
encode_fields-nil out h = cc

encode_fields_injective :
    (fs gs : List Bytes) (out : Bytes)
    → encode_fields fs ≡ ok out
    → encode_fields gs ≡ ok out
    → fs ≡ gs
encode_fields_injective [] [] out h k = refl
encode_fields_injective [] (g ∷ gs) out h k =
    absurd (encode_fields_nonempty g gs (k ∙ ap ok (encode_fields-nil out h)))
encode_fields_injective (f ∷ fs) [] out h k =
    absurd (encode_fields_nonempty f fs (h ∙ ap ok (encode_fields-nil out k)))
encode_fields_injective (f ∷ fs) (g ∷ gs) out h k =
    let (r, e, small, eq) = encode_fields-cons f fs out h in
    let (r', e', small', eq') = encode_fields-cons g gs out k in
    let (lens, rests) =
      append_injective (be_bytes 4 (length f)) (be_bytes 4 (length g)) (f ++ r) (g ++ r')
        (length-be_bytes 4 (length f) ∙ sym (length-be_bytes 4 (length g))) (sym eq ∙ eq') in
    let len = be_bytes_injective (length f) (length g) small small' lens in
    let (heads, tails) = append_injective f g r r' len rests in
    let ih = encode_fields_injective fs gs r e (e' ∙ ap ok (sym tails)) in cc

-- A transcript determines its domain and its fields, their number included: no two different
-- lists of fields are signed as the same bytes.
pub transcript_injective :
    (domain domain' : Bytes) (fields fields' : List Bytes) (out : Bytes)
    → transcript domain fields ≡ ok out
    → transcript domain' fields' ≡ ok out
    → (domain ≡ domain') × (fields ≡ fields')
unfolding transcript
transcript_injective domain domain' fields fields' out h k =
    let (body, e, h1) = >>=-eq-ok (encode_fields (domain ∷ fields)) _ h in
    let (body', e', k1) = >>=-eq-ok (encode_fields (domain' ∷ fields')) _ k in
    let same =
      (append_injective magic magic body body' refl (ok-injective h1 ∙ sym (ok-injective k1))).1 in
    let all =
      encode_fields_injective (domain ∷ fields) (domain' ∷ fields') body e
        (e' ∙ ap ok (sym same)) in
    (cc, cc)
