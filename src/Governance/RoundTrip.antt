-- ===== src/Governance/RoundTrip.antt =====
-- The encoding and the strict reader of crates/werewolf-core/src/governance.rs are inverse.
use native.Mathlib.Nat.{mod-eq_of_lt}
use mathlib.Core.List.{append_assoc, append-nil}
use werewolfproxy.Shared.{
  ◌+◌, ◌%◌, ◌^◌, ◌≤◌, ◌<◌, ◌≡◌, refl, ap, ◌∙◌, [], ◌∷◌, ◌++◌, length, leb, true, arith, inl, inr,
  sym, ◌↔◌, length-append,
}
use werewolfproxy.Shared.Bytes.{Bytes}
use werewolfproxy.Shared.Results.{ok, ◌>>=◌, >>=-eq-ok, ok-injective, Result-cases}
use werewolfproxy.Governance.Types.{Body, Statement, max_statement_len}
use werewolfproxy.Governance.Encoding.{
  be_bytes, read_u8, read_end, encode_entries, encode_body, encode_core, encode, decode_body,
  decode_fields, decode, kind,
}
use werewolfproxy.Governance.Writing.{
  AreEntries, take_bytes-append, read_be-append, read_entries-append, length-encode_entries,
}
use werewolfproxy.Governance.BodyWriting.{
  IsBodyTyped, CountFits, decode_body-encode_body, decode_body-CountFits,
}

-- What the Rust types of a statement say of its sizes.
pub record IsTyped (s : Statement) : Type 0 where
  pub network_len : length s.core.network_id ≡ 32
  pub sequence_lt : s.core.sequence < 256 ^ 8
  pub previous_len : length s.core.previous ≡ 32
  pub body_widths : IsBodyTyped s.core.body
  pub signature_len : AreEntries 64 s.signatures

-- The encoding with its parts bracketed to the right.
abbrev pub flat : Statement → Bytes
flat s =
    let body = encode_body s.core.body in
    s.core.network_id
    ++ (be_bytes 8 s.core.sequence
        ++ (s.core.previous
            ++ (kind s.core.body
                ∷ (be_bytes 2 (length body % 65536)
                    ++ (body ++ ((length s.signatures % 256) ∷ encode_entries s.signatures))))))

pub encode-flat : (s : Statement) → encode s ≡ 1 ∷ flat s
unfolding encode encode_core
encode-flat s = simp append_assoc

parts_le :
    (s : Statement)
    → length (encode_body s.core.body) + length (encode_entries s.signatures) ≤ length (encode s)
parts_le s =
    let b = encode_body s.core.body in
    let tail = (length s.signatures % 256) ∷ encode_entries s.signatures in
    let be = be_bytes 2 (length b % 65536) in
    rw encode-flat (
      omega (
        arith,
        length-append {0} b tail,
        length-append {0} be (b ++ tail),
        length-append {0} s.core.previous (kind s.core.body ∷ (be ++ (b ++ tail))),
        length-append {0} (be_bytes 8 s.core.sequence)
            (s.core.previous ++ (kind s.core.body ∷ (be ++ (b ++ tail)))),
        length-append {0} s.core.network_id (
            be_bytes 8 s.core.sequence
            ++ (s.core.previous ++ (kind s.core.body ∷ (be ++ (b ++ tail))))),
      ))

-- The statement with another body.
abbrev with_body : Statement → Body → Statement
with_body s body = record s { core = record s.core { body = body } }

-- Of an encoding within the size limit, all but the body is read back as it was written.
decode-encode_lem :
    (s : Statement)
    → IsTyped s
    → length (encode s) ≤ max_statement_len
    → decode (encode s)
      ≡ (decode_body (kind s.core.body) (encode_body s.core.body) >>= λ body. ok (with_body s body))
unfolding decode decode_fields read_u8 read_end
decode-encode_lem s typed fits =
    let body = encode_body s.core.body in
    let sigs = encode_entries s.signatures in
    let count = length s.signatures % 256 in
    let be = be_bytes 2 (length body % 65536) in
    let r6 = count ∷ sigs in
    let r4 = be ++ (body ++ r6) in
    let r3 = kind s.core.body ∷ r4 in
    let r2 = s.core.previous ++ r3 in
    let r1 = be_bytes 8 s.core.sequence ++ r2 in
    let body_lt : length body < 65536 = omega (arith, parts_le s) in
    let sigs_lt : length s.signatures < 256 =
      omega (arith, parts_le s, length-encode_entries 64 s.signatures typed.signature_len) in
    let fits' : leb (length (encode s)) max_statement_len ≡ true = ground arith in
    rw fits' (
      rw encode-flat (
        rw (take_bytes-append s.core.network_id r1 32 typed.network_len) (
          rw (read_be-append 8 s.core.sequence r2 typed.sequence_lt) (
            rw (take_bytes-append s.core.previous r3 32 typed.previous_len) (
              rw (mod-eq_of_lt body_lt) (
                rw (read_be-append 2 (length body) (body ++ r6) body_lt) (
                  rw (take_bytes-append body r6 (length body) refl) (
                    rw (mod-eq_of_lt sigs_lt)
                      (elim (Result-cases (decode_body (kind s.core.body) body)) [
                        | inl (b, e) ↦ rw e (
                            rw (← append-nil sigs) (
                              rw (read_entries-append 64 s.signatures [] typed.signature_len) refl))
                        | inr (failure, e) ↦ rw e refl
                      ])))))))))

-- Reading back the encoding of a statement gives the statement exactly if it is no genesis or rotation
-- of more than 255 entries (their number is written as one byte), for every statement whose fields are
-- as wide as their Rust types and whose encoding keeps within the size limit.
pub decode-encode :
    (s : Statement)
    → IsTyped s
    → length (encode s) ≤ max_statement_len
    → (decode (encode s) ≡ ok s) ↔ CountFits s.core.body
decode-encode s typed fits = (sound, complete)
  where
    sound : decode (encode s) ≡ ok s → CountFits s.core.body
    sound h =
        let read = sym (decode-encode_lem s typed fits) ∙ h in
        let (body, e, f) =
          >>=-eq-ok (decode_body (kind s.core.body) (encode_body s.core.body)) _ read in
        let same : body ≡ s.core.body = ap (λ (t : Statement). t.core.body) (ok-injective f) in
        decode_body-CountFits s.core.body (e ∙ ap ok same)

    complete : CountFits s.core.body → decode (encode s) ≡ ok s
    complete counts =
        let body_lt : length (encode_body s.core.body) < 65536 = omega (arith, parts_le s) in
        rw (decode-encode_lem s typed fits)
          (rw (decode_body-encode_body s.core.body typed.body_widths counts body_lt) refl)
