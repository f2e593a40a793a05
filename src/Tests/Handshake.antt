-- ===== src/Tests/Handshake.antt =====
-- Runs of the handshake (crates/werewolfd/src/handshake.rs and handshake/rpc.rs) with a toy base64
-- that pads with zeros, a toy hash that returns its input, and keys of 32 bytes.
use werewolfproxy.Shared.{
  ℕ, zero, suc, ◌+◌, ◌*◌, ◌/◌, ◌-◌, ◌≡◌, ◌↔◌, refl, true, false, none, some, List, [], ◌∷◌, ◌++◌,
  length, take, map, ◌==◌, if◌then◌else◌,
}
use werewolfproxy.Shared.Ascii.{ascii}
use werewolfproxy.Shared.Bytes.{Bytes, bytes_eq}
use werewolfproxy.Shared.Results.{Result, ok, err}
use werewolfproxy.Naming.Text.{is_whitespace, is_control}
use werewolfproxy.Governance.Encoding.{
  be_bytes, hash, decode, encode, encode_core, encode_body, encode_keys, encode_entries, read_u8,
  take_bytes, read_be, from_be, decode_body, kind, read_keys, read_end, read_entries, decode_fields,
  decode_members, decode_empty, decode_rotation, decode_genesis,
}
use werewolfproxy.Handshake.Codes.{
  upper_digit, parts, lower_digit, require, unhex_pairs, strip_prefix, Str, Failure, rejected,
  unhex, fingerprint, fingerprint_prefix, hexish, strip_prefix, parts, upper_digit,
  any_space_or_control, chars, code_point, unhex_pairs, lower_digit, remote, require,
  upper_hex_digit,
}
use werewolfproxy.Handshake.Canonical.{AreBytes}
use werewolfproxy.Handshake.Fingerprints.{fingerprint_iff}
use werewolfproxy.Handshake.Pelt.{
  Primitives, public_matches, binary, fingerprint_from_public_key_b64,
}
use werewolfproxy.Handshake.Transcript.{
  encode_field, encode_fields, transcript, transcript_injective,
}
use werewolfproxy.Handshake.Messages.{
  TcpOpen, QuicOpen, tcp, quic, tcp_open_transcript, quic_open_transcript,
}
use werewolfproxy.Handshake.Binding.{tcp_open_binding, quic_open_binding}
use werewolfproxy.Handshake.Rpc.{
  RpcRequest, fields, parse, accepted_governance, accepted_chain, decode_all, decode_statement,
  check_chain, parse_governance,
}
use werewolfproxy.Handshake.Requests.{IsRequest, parse_iff}
use werewolfproxy.Handshake.Chains.{IsChain, accepted_governance-IsChain}
use werewolfproxy.Handshake.Purposes.{Purpose, Covers-one_purpose}
use werewolfproxy.Handshake.Challenge.{
  consume, TcpChallengeContext, Arrival, AtMostOnce, consume, consume_binding, check_binding,
  accepted, accepted_once,
}
use werewolfproxy.Tests.Network.{crypto}
use werewolfproxy.Tests.Encoding.{admission, admission_bytes}

abbrev zeros : ℕ → Bytes
zeros zero = []
zeros (suc n) = 0 ∷ zeros n

abbrev sevens : ℕ → Bytes
sevens zero = []
sevens (suc n) = 7 ∷ sevens n

abbrev toy : Primitives
toy = record {
  b64_decode = λ text. some (take (if length text == 44 then 32 else 64) text);
  b64_encode = λ bs. bs ++ zeros ((length bs + 2) / 3 * 4 - length bs);
  is_point = λ key. true;
  verifies = λ key message signature. true;
  signature_of = λ secret message. sevens 64;
  blake3 = λ bs. bs;
}

abbrev key_text : Str
key_text = sevens 32 ++ zeros 12

abbrev key_fingerprint : Str
key_fingerprint = ascii "wwp1:07-07-07-07-07-07-07-07"

abbrev other_fingerprint : Str
other_fingerprint = ascii "wwp1:01-23-45-67-89-AB-CD-EF"

abbrev challenge_text : Str
challenge_text = ascii "0707070707070707070707070707070707070707070707070707070707070707"

abbrev nonce_text : Str
nonce_text = ascii "0123456789abcdef0123456789abcdef"

abbrev first_open : TcpOpen
first_open = record {
  cmd = ascii "fang.pipe";
  protocol = tcp;
  sender_pubkey = key_text;
  sender_fingerprint = key_fingerprint;
  receiver_fingerprint = other_fingerprint;
  challenge = challenge_text;
  nonce = nonce_text;
  client_x25519 = key_text;
  remote = ascii "127.0.0.1:80";
  signature = [];
}

abbrev resigned_open : TcpOpen
resigned_open = record first_open { signature = ascii "x" }

abbrev result_or_nothing : Result Failure Bytes → Bytes
result_or_nothing (ok bs) = bs
result_or_nothing (err e) = []

abbrev first_out : Bytes
first_out = result_or_nothing (tcp_open_transcript toy first_open)

first_run : tcp_open_transcript toy first_open ≡ ok first_out
unfolding tcp_open_transcript bytes_eq fingerprint strip_prefix parts upper_digit
    any_space_or_control chars is_whitespace code_point is_control unhex unhex_pairs lower_digit
    be_bytes remote require encode_field encode_fields transcript public_matches hexish
    upper_hex_digit binary fingerprint_from_public_key_b64
first_run = refl

resigned_run : tcp_open_transcript toy resigned_open ≡ ok first_out
unfolding tcp_open_transcript bytes_eq fingerprint strip_prefix parts upper_digit
    any_space_or_control chars is_whitespace code_point is_control unhex unhex_pairs lower_digit
    be_bytes remote require encode_field encode_fields transcript public_matches hexish
    upper_hex_digit binary fingerprint_from_public_key_b64
resigned_run = refl

tcp_open_binding_example : first_open ≡ record resigned_open { signature = first_open.signature }
tcp_open_binding_example =
    tcp_open_binding toy first_open resigned_open first_out first_run resigned_run

abbrev first_quic : QuicOpen
first_quic = record {
  cmd = ascii "fang.quic.open";
  protocol = quic;
  sender_fingerprint = key_fingerprint;
  receiver_fingerprint = other_fingerprint;
  nonce = nonce_text;
  remote = ascii "127.0.0.1:80";
  signature = [];
}

abbrev resigned_quic : QuicOpen
resigned_quic = record first_quic { signature = ascii "x" }

abbrev quic_out : Bytes
quic_out = result_or_nothing (quic_open_transcript first_quic (sevens 32))

quic_run : quic_open_transcript first_quic (sevens 32) ≡ ok quic_out
unfolding quic_open_transcript bytes_eq fingerprint strip_prefix parts upper_digit
    any_space_or_control chars is_whitespace code_point is_control unhex unhex_pairs lower_digit
    be_bytes remote require encode_field encode_fields transcript
quic_run = refl

resigned_quic_run : quic_open_transcript resigned_quic (sevens 32) ≡ ok quic_out
unfolding quic_open_transcript bytes_eq fingerprint strip_prefix parts upper_digit
    any_space_or_control chars is_whitespace code_point is_control unhex unhex_pairs lower_digit
    be_bytes remote require encode_field encode_fields transcript
resigned_quic_run = refl

quic_open_binding_example :
    (first_quic ≡ record resigned_quic { signature = first_quic.signature })
    × (sevens 32 ≡ sevens 32)
quic_open_binding_example =
    quic_open_binding first_quic resigned_quic (sevens 32) (sevens 32) quic_out quic_run
      resigned_quic_run

Covers-one_purpose_example : Purpose.tcp_open ≡ Purpose.tcp_open
Covers-one_purpose_example =
    Covers-one_purpose toy first_out Purpose.tcp_open Purpose.tcp_open (first_open, first_run)
      (resigned_open, resigned_run)

abbrev two_bytes : Bytes
two_bytes = 10 ∷ 255 ∷ []

-- upper case is refused
upper_case : unhex 2 (ascii "0AFF") ≡ err rejected
unfolding unhex require unhex_pairs lower_digit
upper_case = refl

abbrev peer_bytes : Bytes
peer_bytes = 0x01 ∷ 0x23 ∷ 0x45 ∷ 0x67 ∷ 0x89 ∷ 0xab ∷ 0xcd ∷ 0xef ∷ []

fingerprint_iff_example : (fingerprint other_fingerprint ≡ ok peer_bytes) ↔ (
    (fingerprint_prefix ++ hexish peer_bytes ≡ other_fingerprint)
    × (length peer_bytes ≡ 8)
    × AreBytes peer_bytes)
fingerprint_iff_example = fingerprint_iff other_fingerprint peer_bytes

fingerprint_run : fingerprint other_fingerprint ≡ ok peer_bytes
unfolding fingerprint require strip_prefix parts upper_digit
fingerprint_run = refl

abbrev small_out : Bytes
small_out = result_or_nothing (transcript (1 ∷ []) ((2 ∷ []) ∷ [] ∷ []))

small_run : transcript (1 ∷ []) ((2 ∷ []) ∷ [] ∷ []) ≡ ok small_out
unfolding transcript encode_fields encode_field be_bytes
small_run = refl

transcript_injective_example :
    ((let d : Bytes = 1 ∷ [] in d) ≡ 1 ∷ [])
    × ((let fs : List Bytes = (2 ∷ []) ∷ [] ∷ [] in fs) ≡ (2 ∷ []) ∷ [] ∷ [])
transcript_injective_example =
    transcript_injective (1 ∷ []) (1 ∷ []) ((2 ∷ []) ∷ [] ∷ []) ((2 ∷ []) ∷ [] ∷ []) small_out
      small_run small_run

parse_iff_example :
    (parse (ascii "governance") challenge_text 3 ≡ ok (RpcRequest.governance (sevens 32) 3)) ↔ (
      ((fields (RpcRequest.governance (sevens 32) 3)).0 ≡ ascii "governance")
      × ((fields (RpcRequest.governance (sevens 32) 3)).1 ≡ challenge_text)
      × ((fields (RpcRequest.governance (sevens 32) 3)).2 ≡ 3)
      × IsRequest (RpcRequest.governance (sevens 32) 3))
parse_iff_example =
    parse_iff (ascii "governance") challenge_text 3 (RpcRequest.governance (sevens 32) 3)

parse_run : parse (ascii "governance") challenge_text 3 ≡ ok (RpcRequest.governance (sevens 32) 3)
unfolding parse bytes_eq parse_governance require unhex unhex_pairs lower_digit
parse_run = refl

-- too many statements are not asked for
parse_five : parse (ascii "governance") challenge_text 5 ≡ err rejected
unfolding parse bytes_eq parse_governance require unhex unhex_pairs lower_digit
parse_five = refl

chain_run :
    accepted_governance crypto
      (encode admission ∷ [])
      (RpcRequest.governance admission.core.previous 1)
    ≡ ok (admission ∷ [])
unfolding accepted_governance accepted_chain decode_all decode_statement check_chain require
    bytes_eq hash decode encode encode_core be_bytes encode_body encode_keys encode_entries read_u8
    take_bytes read_be from_be decode_body kind read_keys read_end read_entries decode_fields
    decode_members decode_empty decode_rotation decode_genesis
chain_run = refl

accepted_governance-IsChain_example :
    IsChain crypto admission.core.previous none (admission ∷ [])
    × (map encode (admission ∷ []) ≡ encode admission ∷ [])
accepted_governance-IsChain_example =
    accepted_governance-IsChain crypto (encode admission ∷ []) admission.core.previous 1
      (admission ∷ []) (admission_bytes, tt) chain_run

abbrev context : TcpChallengeContext
context = record {
  message = record {
    cmd = ascii "fang.tcp.challenge";
    protocol = tcp;
    receiver_fingerprint = other_fingerprint;
    challenge = challenge_text;
  };
  receiver = record {
    public_key_b64 = key_text;
    secret_key_b64 = key_text;
    fingerprint = other_fingerprint;
  };
  deadline = 6000;
  consumed = false;
}

abbrev arrivals : List Arrival
arrivals = (6000, first_open) ∷ (2000, first_open) ∷ (2001, resigned_open) ∷ []

accepted_once_example : AtMostOnce context (accepted context arrivals)
accepted_once_example = accepted_once context arrivals

-- the late one and the second one in time are refused
accepted_run : accepted context arrivals ≡ (2000, first_open) ∷ []
unfolding accepted consume consume_binding check_binding require bytes_eq
accepted_run = refl
