-- ===== src/Handshake/Binding.antt =====
-- A handshake signature covers the whole message (crates/werewolfd/src/handshake.rs).
use werewolfproxy.Shared.{ℕ, ◌≡◌, sym, ap, ◌∙◌, ◌&&◌, [], ◌∷◌, arith, &&-true}
use werewolfproxy.Shared.Ascii.{ascii}
use werewolfproxy.Shared.Bytes.{Bytes, bytes_eq, bytes_eq_sound}
use werewolfproxy.Shared.Results.{ok, >>=-eq-ok, ensure-bind-eq-ok, ok-injective}
use werewolfproxy.Handshake.Codes.{require, hex, unhex, fingerprint, remote}
use werewolfproxy.Handshake.Canonical.{unhex_iff}
use werewolfproxy.Handshake.Pelt.{
  Primitives, binary, public_matches, fingerprint_from_public_key_b64,
}
use werewolfproxy.Handshake.Transcript.{transcript, transcript_injective}
use werewolfproxy.Handshake.Messages.{
  TcpOpen, QuicOpen, tcp, quic, tcp_open_transcript, quic_open_transcript,
}

unhex-eq-ok : (n : ℕ) (text bs : Bytes) → unhex n text ≡ ok bs → hex bs ≡ text
unhex-eq-ok n text bs h = ((unhex_iff n text bs).0 h).0

module _ (lib : Primitives) where
  open lib use {b64_decode, b64_encode}

  binary-eq-ok : (n : ℕ) (text bs : Bytes) → binary lib n text ≡ ok bs → b64_encode bs ≡ text
  unfolding binary require
  binary-eq-ok n text bs h = ground (arith, bytes_eq_sound (b64_encode bs) text)

  public_matches-eq-ok :
      (public fp bs : Bytes) → public_matches lib public fp ≡ ok bs → b64_encode bs ≡ public
  unfolding public_matches require
  public_matches-eq-ok public fp bs h =
      let (bytes, e, h1) = >>=-eq-ok (binary lib 32 public) _ h in
      let (printed, f, h2) = >>=-eq-ok (fingerprint_from_public_key_b64 lib public) _ h1 in
      let (same, h3) = ensure-bind-eq-ok (bytes_eq printed fp) _ _ h2 in
      ap b64_encode (sym (ok-injective h3)) ∙ binary-eq-ok 32 public bytes e

  -- What an accepted OPEN of TCP consists of.
  record TcpOpenParts (m : TcpOpen) (out : Bytes) : Type 0 where
    sp : Bytes
    challenge : Bytes
    nonce : Bytes
    client : Bytes
    cmd_eq : m.cmd ≡ ascii "fang.pipe"
    protocol_eq : m.protocol ≡ tcp
    pubkey_eq : b64_encode sp ≡ m.sender_pubkey
    challenge_eq : hex challenge ≡ m.challenge
    nonce_eq : hex nonce ≡ m.nonce
    client_eq : b64_encode client ≡ m.client_x25519
    signed :
        transcript (ascii "fang.tcp.open/v3") (
          tcp ∷ m.sender_fingerprint ∷ sp ∷ m.receiver_fingerprint ∷ challenge ∷ nonce ∷ client
          ∷ m.remote ∷ [])
        ≡ ok out

  tcp_open_parts :
      (m : TcpOpen) (out : Bytes) → tcp_open_transcript lib m ≡ ok out → TcpOpenParts m out
  unfolding tcp_open_transcript require
  tcp_open_parts m out h =
      let (kinds, h1) =
        ensure-bind-eq-ok (bytes_eq m.cmd (ascii "fang.pipe") && bytes_eq m.protocol tcp) _ _ h in
      let (c, p) = &&-true (bytes_eq m.cmd (ascii "fang.pipe")) (bytes_eq m.protocol tcp) kinds in
      let (s, e2, h2) = >>=-eq-ok (fingerprint m.sender_fingerprint) _ h1 in
      let (r, e3, h3) = >>=-eq-ok (fingerprint m.receiver_fingerprint) _ h2 in
      let (u, e4, h4) = >>=-eq-ok (remote m.remote) _ h3 in
      let (sp, e5, h5) = >>=-eq-ok (public_matches lib m.sender_pubkey m.sender_fingerprint) _ h4 in
      let (ch, e6, h6) = >>=-eq-ok (unhex 32 m.challenge) _ h5 in
      let (nonce, e7, h7) = >>=-eq-ok (unhex 16 m.nonce) _ h6 in
      let (cl, e8, h8) = >>=-eq-ok (binary lib 32 m.client_x25519) _ h7 in
      record {
        sp = sp;
        challenge = ch;
        nonce = nonce;
        client = cl;
        cmd_eq = bytes_eq_sound m.cmd (ascii "fang.pipe") c;
        protocol_eq = bytes_eq_sound m.protocol tcp p;
        pubkey_eq = public_matches-eq-ok m.sender_pubkey m.sender_fingerprint sp e5;
        challenge_eq = unhex-eq-ok 32 m.challenge ch e6;
        nonce_eq = unhex-eq-ok 16 m.nonce nonce e7;
        client_eq = binary-eq-ok 32 m.client_x25519 cl e8;
        signed = h8;
      }

  -- The signature of a TCP OPEN covers every other field: two messages that are accepted and have
  -- the same transcript differ in their signatures at most.
  pub tcp_open_binding :
      (a b : TcpOpen) (out : Bytes)
      → tcp_open_transcript lib a ≡ ok out
      → tcp_open_transcript lib b ≡ ok out
      → a ≡ record b { signature = a.signature }
  tcp_open_binding a b out h k =
      let p = tcp_open_parts a out h in
      let q = tcp_open_parts b out k in
      let fields = (transcript_injective _ _ _ _ out p.signed q.signed).1 in cc

record QuicOpenParts (m : QuicOpen) (binding out : Bytes) : Type 0 where
  nonce : Bytes
  cmd_eq : m.cmd ≡ ascii "fang.quic.open"
  protocol_eq : m.protocol ≡ quic
  nonce_eq : hex nonce ≡ m.nonce
  signed :
      transcript
        (ascii "fang.quic.open/v3")
        (quic ∷ m.sender_fingerprint ∷ m.receiver_fingerprint ∷ nonce ∷ m.remote ∷ binding ∷ [])
      ≡ ok out

quic_open_parts :
    (m : QuicOpen) (binding out : Bytes)
    → quic_open_transcript m binding ≡ ok out
    → QuicOpenParts m binding out
unfolding quic_open_transcript require
quic_open_parts m binding out h =
    let (kinds, h1) =
      ensure-bind-eq-ok (bytes_eq m.cmd (ascii "fang.quic.open") && bytes_eq m.protocol quic) _ _
        h in
    let (c, p) =
      &&-true (bytes_eq m.cmd (ascii "fang.quic.open")) (bytes_eq m.protocol quic) kinds in
    let (s, e2, h2) = >>=-eq-ok (fingerprint m.sender_fingerprint) _ h1 in
    let (r, e3, h3) = >>=-eq-ok (fingerprint m.receiver_fingerprint) _ h2 in
    let (u, e4, h4) = >>=-eq-ok (remote m.remote) _ h3 in
    let (nonce, e5, h5) = >>=-eq-ok (unhex 16 m.nonce) _ h4 in
    record {
      nonce = nonce;
      cmd_eq = bytes_eq_sound m.cmd (ascii "fang.quic.open") c;
      protocol_eq = bytes_eq_sound m.protocol quic p;
      nonce_eq = unhex-eq-ok 16 m.nonce nonce e5;
      signed = h5;
    }

-- The signature of a QUIC OPEN covers every other field and the binding to its connection: two
-- messages that are accepted and have the same transcript, each on its connection, differ in their
-- signatures at most, and the connections' bindings are the same.
pub quic_open_binding :
    (a b : QuicOpen) (binding binding' out : Bytes)
    → quic_open_transcript a binding ≡ ok out
    → quic_open_transcript b binding' ≡ ok out
    → (a ≡ record b { signature = a.signature }) × (binding ≡ binding')
quic_open_binding a b binding binding' out h k =
    let p = quic_open_parts a binding out h in
    let q = quic_open_parts b binding' out k in
    let fields = (transcript_injective _ _ _ _ out p.signed q.signed).1 in (cc, cc)
