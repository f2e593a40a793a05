-- ===== src/Governance/Canonical.antt =====
-- The strict reader of crates/werewolf-core/src/governance.rs accepts canonical bytes only.
use native.Mathlib.Nat.{mod-eq_of_lt}
use mathlib.Core.List.{append-nil}
use werewolfproxy.Shared.{
  ℕ, ◌%◌, ◌≡◌, sym, ap, ◌∙◌, List, ◌∷◌, ◌++◌, length, leb, ◌==◌, arith, subst,
}
use werewolfproxy.Shared.Bytes.{Bytes}
use werewolfproxy.Shared.Results.{ok, ensure, >>=-eq-ok, ensure-eq-ok, ok-injective}
use werewolfproxy.Governance.Types.{Body, Statement, GovError, max_statement_len}
use werewolfproxy.Governance.Encoding.{
  be_bytes, take_bytes, read_u8, read_be, read_end, read_entries, encode_entries, encode_body,
  encode, decode_body, decode_fields, decode, kind,
}
use werewolfproxy.Governance.RoundTrip.{flat, encode-flat}
use werewolfproxy.Governance.Reading.{
  AreBytes, take_bytes-eq-ok, take_bytes-small, read_be-eq-ok, read_u8-eq-ok, read_end-eq-ok,
  read_entries-eq-ok, small-cons,
}
use werewolfproxy.Governance.BodyReading.{decode_body-eq-ok}

-- The parts that the reader took, put together again.
assemble :
    (nid prev bb r1 r2 r3 r4 r5 r6 r7 bs : Bytes) (seq k len count : ℕ) (b : Body)
    (sigs : List (ℕ × Bytes))
    → encode_body b ≡ bb
    → kind b ≡ k
    → length bb % 65536 ≡ len
    → length sigs % 256 ≡ count
    → encode_entries sigs ≡ r7
    → count ∷ r7 ≡ r6
    → bb ++ r6 ≡ r5
    → be_bytes 2 len ++ r5 ≡ r4
    → k ∷ r4 ≡ r3
    → prev ++ r3 ≡ r2
    → be_bytes 8 seq ++ r2 ≡ r1
    → nid ++ r1 ≡ bs
    → flat (record {
      core = record { network_id = nid; sequence = seq; previous = prev; body = b };
      signatures = sigs;
    })
      ≡ bs
assemble nid prev bb r1 r2 r3 r4 r5 r6 r7 bs seq k len count b sigs p1 p2 p3 p4 p5 p6 p7 p8 p9 p10
      p11 p12 =
    rw (p1, p2, p3, p4, p5, p6, p7, p8, p9, p10, p11) p12

decode_fields-eq-ok :
    (bs : Bytes) (s : Statement) → AreBytes bs → decode_fields bs ≡ ok s → flat s ≡ bs
unfolding decode_fields
decode_fields-eq-ok bs s small h =
    let (nid, e1, h1) = >>=-eq-ok (take_bytes 32 bs) _ h in
    let (seq, e2, h2) = >>=-eq-ok (read_be 8 nid.1) _ h1 in
    let (prev, e3, h3) = >>=-eq-ok (take_bytes 32 seq.1) _ h2 in
    let (k, e4, h4) = >>=-eq-ok (read_u8 prev.1) _ h3 in
    let (len, e5, h5) = >>=-eq-ok (read_be 2 k.1) _ h4 in
    let (body, e6, h6) = >>=-eq-ok (take_bytes len.0 len.1) _ h5 in
    let (b, e7, h7) = >>=-eq-ok (decode_body k.0 body.0) _ h6 in
    let (count, e8, h8) = >>=-eq-ok (read_u8 body.1) _ h7 in
    let (sigs, e9, h9) = >>=-eq-ok (read_entries 64 count.0 count.1) _ h8 in
    let (u, e10, h10) = >>=-eq-ok (read_end sigs.1) _ h9 in
    let small1 = (take_bytes-small 32 bs nid small e1).1 in
    let (split2, small2, lt2) = read_be-eq-ok 8 nid.1 seq small1 e2 in
    let small3 = (take_bytes-small 32 seq.1 prev small2 e3).1 in
    let split4 = read_u8-eq-ok prev.1 k e4 in
    let small4 = (small-cons prev.1 k small3 split4).1 in
    let (split5, small5, lt5) = read_be-eq-ok 2 k.1 len small4 e5 in
    let (split6, len6) = take_bytes-eq-ok len.0 len.1 body e6 in
    let (small6, small7) = take_bytes-small len.0 len.1 body small5 e6 in
    let (body_eq, kind_eq) = decode_body-eq-ok k.0 body.0 b small6 e7 in
    let split8 = read_u8-eq-ok body.1 count e8 in
    let lt8 = (small-cons body.1 count small7 split8).0 in
    let (split9, len9) = read_entries-eq-ok 64 count.0 count.1 sigs e9 in
    let done : encode_entries sigs.0 ≡ count.1 =
      sym (append-nil (encode_entries sigs.0))
      ∙ ap (λ (r : Bytes). encode_entries sigs.0 ++ r) (sym (read_end-eq-ok sigs.1 e10))
      ∙ split9 in
    let s_eq : record {
      core = record { network_id = nid.0; sequence = seq.0; previous = prev.0; body = b };
      signatures = sigs.0;
    }
        ≡ s =
      ok-injective h10 in
    subst (λ (t : Statement). flat t ≡ bs) s_eq
      (assemble nid.0 prev.0 body.0 nid.1 seq.1 prev.1 k.1 len.1 body.1 count.1 bs seq.0 k.0 len.0
        count.0 b sigs.0 body_eq kind_eq (ap (λ (n : ℕ). n % 65536) len6 ∙ mod-eq_of_lt lt5)
        (ap (λ (n : ℕ). n % 256) len9 ∙ mod-eq_of_lt lt8) done split8 split6 split5 split4
        (take_bytes-eq-ok 32 seq.1 prev e3).0 split2 (take_bytes-eq-ok 32 bs nid e1).0)

-- Whatever byte string the reader accepts is the encoding of the statement that it returns: no byte
-- of an accepted input is ignored.
pub encode-decode : (bs : Bytes) (s : Statement) → AreBytes bs → decode bs ≡ ok s → encode s ≡ bs
unfolding decode
encode-decode bs s small h =
    let (u, e, h1) =
      >>=-eq-ok (ensure (leb (length bs) max_statement_len) GovError.too_large) _ h in
    let (v, e1, h2) = >>=-eq-ok (read_u8 bs) _ h1 in
    let (u', e2, h3) = >>=-eq-ok (ensure (v.0 == 1) GovError.unknown_version) _ h2 in
    let split = read_u8-eq-ok bs v e1 in
    let is_one = ensure-eq-ok (v.0 == 1) GovError.unknown_version e2 in
    let one : v.0 ≡ 1 = ground arith in
    rw encode-flat
      (rw (decode_fields-eq-ok v.1 s (small-cons bs v small split).1 h3) (rw (← one) split))
