-- ===== src/Governance/BodyWriting.antt =====
-- The bodies of crates/werewolf-core/src/governance.rs through the encoder and the reader.
use native.Mathlib.Nat.{mod-eq_of_lt}
use mathlib.Core.List.{append-nil}
use werewolfproxy.Shared.{ℕ, ◌%◌, ◌<◌, ◌≡◌, refl, ap, List, [], ◌++◌, length, arith, length-append}
use werewolfproxy.Shared.Bytes.{Bytes}
use werewolfproxy.Shared.Results.{ok}
use werewolfproxy.Governance.Types.{Key, Body}
use werewolfproxy.Governance.Encoding.{
  be_bytes, read_u8, read_end, read_keys, read_entries, encode_keys, encode_entries, encode_body,
  decode_body, kind,
}
use werewolfproxy.Governance.Writing.{
  AreKeys, AreEntries, read_be-append, read_keys-append, read_entries-append, length-encode_keys,
}
use werewolfproxy.Governance.Reading.{read_keys-eq-ok, read_entries-eq-ok}
use werewolfproxy.Shared.Results.{>>=-eq-ok}

-- What the Rust types of a body say of its sizes: keys are arrays of 32 bytes.
abbrev pub IsBodyTyped : Body → Type 0
IsBodyTyped (Body.genesis t ks) = AreKeys ks
IsBodyTyped (Body.rotation es) = AreEntries 32 es
IsBodyTyped (Body.revocation ks) = AreKeys ks
IsBodyTyped (Body.admission ks) = AreKeys ks
IsBodyTyped Body.activation = Unit
IsBodyTyped Body.death = Unit

-- The counts that are written as one byte fit it. No Rust type says so: `Vec` has no such bound.
abbrev pub CountFits : Body → Type 0
CountFits (Body.genesis t ks) = length ks < 256
CountFits (Body.rotation es) = length es < 256
CountFits (Body.revocation ks) = Unit
CountFits (Body.admission ks) = Unit
CountFits Body.activation = Unit
CountFits Body.death = Unit

-- The number of the members that a short body lists fits two bytes.
members-lt :
    (n : ℕ) (ks : List Key)
    → AreKeys ks
    → length (be_bytes 2 n ++ encode_keys ks) < 65536
    → length ks < 65536
members-lt n ks typed h =
    omega (arith, h, length-append {0} (be_bytes 2 n) (encode_keys ks), length-encode_keys ks typed)

pub decode_body-encode_body :
    (b : Body)
    → IsBodyTyped b
    → CountFits b
    → length (encode_body b) < 65536
    → decode_body (kind b) (encode_body b) ≡ ok b
unfolding decode_body kind encode_body read_u8 read_end
decode_body-encode_body (Body.genesis t ks) typed fits h =
    rw (mod-eq_of_lt fits)
      (rw (← append-nil (encode_keys ks)) (rw (read_keys-append ks [] typed) refl))
decode_body-encode_body (Body.rotation es) typed fits h =
    rw (mod-eq_of_lt fits)
      (rw (← append-nil (encode_entries es)) (rw (read_entries-append 32 es [] typed) refl))
decode_body-encode_body (Body.revocation ks) typed fits h =
    let count_lt = members-lt _ ks typed h in
    rw (mod-eq_of_lt count_lt) (
      rw (read_be-append 2 (length ks) (encode_keys ks) count_lt)
        (rw (← append-nil (encode_keys ks)) (rw (read_keys-append ks [] typed) refl)))
decode_body-encode_body (Body.admission ks) typed fits h =
    let count_lt = members-lt _ ks typed h in
    rw (mod-eq_of_lt count_lt) (
      rw (read_be-append 2 (length ks) (encode_keys ks) count_lt)
        (rw (← append-nil (encode_keys ks)) (rw (read_keys-append ks [] typed) refl)))
decode_body-encode_body Body.activation typed fits h = refl
decode_body-encode_body Body.death typed fits h = refl

-- A body that reads back as itself has a count that fits.
pub decode_body-CountFits : (b : Body) → decode_body (kind b) (encode_body b) ≡ ok b → CountFits b
unfolding decode_body kind encode_body read_u8
decode_body-CountFits (Body.genesis t ks) h =
    let count = length ks % 256 in
    let (p, e, h1) = >>=-eq-ok (read_keys count (encode_keys ks)) _ h in
    let (u, f, h2) = >>=-eq-ok (read_end p.1) _ h1 in
    let (split, len) = read_keys-eq-ok count (encode_keys ks) p e in
    let same : p.0 ≡ ks = cc in omega (arith, len, ap (λ (xs : List Key). length xs) same)
decode_body-CountFits (Body.rotation es) h =
    let count = length es % 256 in
    let (p, e, h1) = >>=-eq-ok (read_entries 32 count (encode_entries es)) _ h in
    let (u, f, h2) = >>=-eq-ok (read_end p.1) _ h1 in
    let (split, len) = read_entries-eq-ok 32 count (encode_entries es) p e in
    let same : p.0 ≡ es = cc in omega (arith, len, ap (λ (xs : List (ℕ × Bytes)). length xs) same)
decode_body-CountFits (Body.revocation ks) h = tt
decode_body-CountFits (Body.admission ks) h = tt
decode_body-CountFits Body.activation h = tt
decode_body-CountFits Body.death h = tt
