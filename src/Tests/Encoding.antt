-- ===== src/Tests/Encoding.antt =====
-- A statement of crates/werewolf-core/src/governance.rs through the encoder and the reader.
use werewolfproxy.Shared.{
  true, ℕ, zero, suc, ◌≡◌, ◌↔◌, ◌<◌, List, refl, [], ◌∷◌, length, arith, ◌≤◌,
}
use werewolfproxy.Shared.Bytes.{Bytes}
use werewolfproxy.Shared.Results.{ok, err}
use werewolfproxy.Governance.Types.{Key, Body, Statement, GovError, max_statement_len}
use werewolfproxy.Governance.Encoding.{
  take_bytes, read_u8, read_be, read_end, read_keys, read_entries, decode_body, from_be, encode,
  decode, encode_core, encode_body, encode_keys, encode_entries, be_bytes, kind,
}
use werewolfproxy.Tests.SmallBytes.{all_small, all_small-All}
use werewolfproxy.Governance.Writing.{AreKeys}
use werewolfproxy.Governance.BodyWriting.{CountFits}
use werewolfproxy.Governance.RoundTrip.{IsTyped, decode-encode}
use werewolfproxy.Governance.Canonical.{encode-decode}
use werewolfproxy.Governance.Reading.{AreBytes}

abbrev repeat_byte : ℕ → ℕ → Bytes
repeat_byte zero b = []
repeat_byte (suc n) b = b ∷ repeat_byte n b

abbrev pub admission : Statement
admission = record {
  core = record {
    network_id = repeat_byte 32 9;
    sequence = 300;
    previous = repeat_byte 32 8;
    body = Body.admission (repeat_byte 32 1 ∷ repeat_byte 32 2 ∷ []);
  };
  signatures = (3, repeat_byte 64 5) ∷ [];
}

admission_small : all_small (encode admission) ≡ true
unfolding encode encode_core be_bytes kind encode_body encode_keys encode_entries
admission_small = refl

pub admission_bytes : AreBytes (encode admission)
admission_bytes = all_small-All (encode admission) admission_small

-- `n` keys of 32 bytes
abbrev many_keys : ℕ → List Key
many_keys zero = []
many_keys (suc n) = repeat_byte 32 1 ∷ many_keys n

many_keys-AreKeys : (n : ℕ) → AreKeys (many_keys n)
many_keys-AreKeys zero = tt
many_keys-AreKeys (suc n) = (refl, many_keys-AreKeys n)

abbrev genesis : ℕ → Statement
genesis n = record {
  core = record {
    network_id = repeat_byte 32 9;
    sequence = 0;
    previous = repeat_byte 32 0;
    body = Body.genesis 1 (many_keys n);
  };
  signatures = (0, repeat_byte 64 5) ∷ [];
}

genesis-IsTyped : (n : ℕ) → IsTyped (genesis n)
genesis-IsTyped n = record {
  network_len = refl;
  sequence_lt = omega arith;
  previous_len = refl;
  body_widths = many_keys-AreKeys n;
  signature_len = (refl, tt);
}

genesis_size : length (encode (genesis 3)) ≤ max_statement_len
unfolding encode encode_core be_bytes encode_body encode_keys encode_entries
genesis_size = omega arith

decode-encode_example :
    (decode (encode (genesis 3)) ≡ ok (genesis 3)) ↔ CountFits (genesis 3).core.body
decode-encode_example = decode-encode (genesis 3) (genesis-IsTyped 3) genesis_size

genesis_read : decode (encode (genesis 3)) ≡ ok (genesis 3)
genesis_read = (decode-encode (genesis 3) (genesis-IsTyped 3) genesis_size).1 (omega arith)

wide_size : length (encode (genesis 256)) ≤ max_statement_len
unfolding encode encode_core be_bytes encode_body encode_keys encode_entries
wide_size = omega arith

-- A genesis of 256 keys is within the size limit and does not read back: its count is written as 0.
wide_lost : ¬ (decode (encode (genesis 256)) ≡ ok (genesis 256))
wide_lost h =
    let fits = (decode-encode (genesis 256) (genesis-IsTyped 256) wide_size).0 h in
    absurd (many_keys-wide fits)
  where
    many_keys-wide : ¬ (length (many_keys 256) < 256)
    many_keys-wide lt = omega arith

decode_run : decode (encode admission) ≡ ok admission
unfolding decode encode encode_core be_bytes encode_body encode_keys encode_entries read_u8
    take_bytes read_be from_be decode_body kind read_keys read_end read_entries
decode_run = refl

encode-decode_example : encode admission ≡ encode admission
encode-decode_example = encode-decode (encode admission) admission admission_bytes decode_run

too_short : decode (1 ∷ 2 ∷ []) ≡ err GovError.malformed
unfolding decode read_u8 take_bytes
too_short = refl
