-- ===== src/Handshake/Messages.antt =====
-- The messages of crates/werewolfd/src/handshake.rs: what each one's signature covers, and how one
-- is made. A random value and its failure are an argument; the JSON around a message is not modelled.
use werewolfproxy.Shared.{Bool, true, ◌&&◌, [], ◌∷◌, Option}
use werewolfproxy.Shared.Ascii.{ascii}
use werewolfproxy.Shared.Bytes.{Bytes, bytes_eq}
use werewolfproxy.Shared.Results.{Result, ok, ◌>>=◌, ◌>>◌}
use werewolfproxy.Handshake.Codes.{
  Str, Failure, require, or_rejected, hex, unhex, fingerprint, remote,
}
use werewolfproxy.Handshake.Pelt.{Primitives, PeltIdentity, binary, sign, public_matches}
use werewolfproxy.Handshake.Transcript.{transcript}

abbrev pub tcp : Str
tcp = ascii "fang-tcp-v3"

abbrev pub quic : Str
quic = ascii "fang-quic-v3"

abbrev pub session_v3 : Str
session_v3 = ascii "fang-v3-secure"

pub record TcpChallenge : Type 0 where
  pub cmd : Str
  pub protocol : Str
  pub receiver_fingerprint : Str
  pub challenge : Str

pub record TcpOpen : Type 0 where
  pub cmd : Str
  pub protocol : Str
  pub sender_pubkey : Str
  pub sender_fingerprint : Str
  pub receiver_fingerprint : Str
  pub challenge : Str
  pub nonce : Str
  pub client_x25519 : Str
  pub remote : Str
  pub signature : Str

pub record TcpAck : Type 0 where
  pub cmd : Str
  pub is_ok : Bool
  pub protocol : Str
  pub session : Str
  pub receiver_pubkey : Str
  pub receiver_fingerprint : Str
  pub sender_fingerprint : Str
  pub challenge : Str
  pub nonce : Str
  pub client_x25519 : Str
  pub server_x25519 : Str
  pub remote : Str
  pub signature : Str

pub record QuicOpen : Type 0 where
  pub cmd : Str
  pub protocol : Str
  pub sender_fingerprint : Str
  pub receiver_fingerprint : Str
  pub nonce : Str
  pub remote : Str
  pub signature : Str

pub record QuicAck : Type 0 where
  pub cmd : Str
  pub is_ok : Bool
  pub protocol : Str
  pub receiver_pubkey : Str
  pub receiver_fingerprint : Str
  pub sender_fingerprint : Str
  pub nonce : Str
  pub remote : Str
  pub signature : Str

-- `TcpChallenge::validate`
unfoldable pub validate : TcpChallenge → Result Failure (Unit {0})
unfolding require
validate m = do
  require (bytes_eq m.cmd (ascii "fang.tcp.challenge") && bytes_eq m.protocol tcp)
  fp ← fingerprint m.receiver_fingerprint
  challenge ← unhex 32 m.challenge
  ok tt

-- `QuicOpen::transcript`
unfoldable pub quic_open_transcript : QuicOpen → Bytes → Result Failure Bytes
unfolding require remote
quic_open_transcript m binding = do
  require (bytes_eq m.cmd (ascii "fang.quic.open") && bytes_eq m.protocol quic)
  sender ← fingerprint m.sender_fingerprint
  receiver ← fingerprint m.receiver_fingerprint
  remote m.remote
  nonce ← unhex 16 m.nonce
  transcript (ascii "fang.quic.open/v3")
      (quic ∷ m.sender_fingerprint ∷ m.receiver_fingerprint ∷ nonce ∷ m.remote ∷ binding ∷ [])

module _ (lib : Primitives) where
  open lib use {b64_encode}

  -- `TcpOpen::transcript`
  unfoldable pub tcp_open_transcript : TcpOpen → Result Failure Bytes
  unfolding require remote
  tcp_open_transcript m = do
    require (bytes_eq m.cmd (ascii "fang.pipe") && bytes_eq m.protocol tcp)
    sender ← fingerprint m.sender_fingerprint
    receiver ← fingerprint m.receiver_fingerprint
    remote m.remote
    sp ← public_matches lib m.sender_pubkey m.sender_fingerprint
    challenge ← unhex 32 m.challenge
    nonce ← unhex 16 m.nonce
    client ← binary lib 32 m.client_x25519
    transcript (ascii "fang.tcp.open/v3") (
        tcp ∷ m.sender_fingerprint ∷ sp ∷ m.receiver_fingerprint ∷ challenge ∷ nonce ∷ client
        ∷ m.remote ∷ [])

  -- `TcpOpen::new`
  unfoldable pub new_tcp_open :
      Option Bytes → PeltIdentity → TcpChallenge → Str → Bytes → Result Failure TcpOpen
  unfolding tcp_open_transcript validate
  new_tcp_open random sender challenge remote client_key = do
    validate challenge
    nonce ← or_rejected random
    let value : TcpOpen = record {
      cmd = ascii "fang.pipe";
      protocol = tcp;
      sender_pubkey = sender.public_key_b64;
      sender_fingerprint = sender.fingerprint;
      receiver_fingerprint = challenge.receiver_fingerprint;
      challenge = challenge.challenge;
      nonce = hex nonce;
      client_x25519 = b64_encode client_key;
      remote = remote;
      signature = [];
    }
    covered ← tcp_open_transcript value
    signature ← sign lib sender covered
    ok (record value { signature = signature })

  -- `TcpAck::transcript`
  unfoldable pub tcp_ack_transcript : TcpAck → TcpOpen → Bytes → Result Failure Bytes
  unfolding require
  tcp_ack_transcript m opened retained = do
    require (
        bytes_eq m.cmd (ascii "fang.tcp.ack")
        && (bytes_eq m.protocol tcp
            && (bytes_eq m.session session_v3
                && (m.is_ok
                    && (bytes_eq m.receiver_fingerprint opened.receiver_fingerprint
                        && (bytes_eq m.sender_fingerprint opened.sender_fingerprint
                            && (bytes_eq m.challenge opened.challenge
                                && (bytes_eq m.nonce opened.nonce
                                    && (bytes_eq m.remote opened.remote
                                        && bytes_eq m.client_x25519 opened.client_x25519)))))))))
    rp ← public_matches lib m.receiver_pubkey m.receiver_fingerprint
    server ← binary lib 32 m.server_x25519
    transcript (ascii "fang.tcp.ack/v3") (tcp ∷ (1 ∷ []) ∷ session_v3 ∷ retained ∷ rp ∷ server ∷ [])

  -- `TcpAck::new`
  unfoldable pub new_tcp_ack : TcpOpen → Bytes → PeltIdentity → Bytes → Result Failure TcpAck
  unfolding tcp_ack_transcript
  new_tcp_ack opened retained receiver server_key = do
    let value : TcpAck = record {
      cmd = ascii "fang.tcp.ack";
      is_ok = true;
      protocol = tcp;
      session = session_v3;
      receiver_pubkey = receiver.public_key_b64;
      receiver_fingerprint = receiver.fingerprint;
      sender_fingerprint = opened.sender_fingerprint;
      challenge = opened.challenge;
      nonce = opened.nonce;
      client_x25519 = opened.client_x25519;
      server_x25519 = b64_encode server_key;
      remote = opened.remote;
      signature = [];
    }
    covered ← tcp_ack_transcript value opened retained
    signature ← sign lib receiver covered
    ok (record value { signature = signature })

  -- `QuicOpen::new`
  unfoldable pub new_quic_open :
      Option Bytes → PeltIdentity → Str → Str → Bytes → Result Failure QuicOpen
  unfolding quic_open_transcript
  new_quic_open random sender receiver remote binding = do
    nonce ← or_rejected random
    let value : QuicOpen = record {
      cmd = ascii "fang.quic.open";
      protocol = quic;
      sender_fingerprint = sender.fingerprint;
      receiver_fingerprint = receiver;
      nonce = hex nonce;
      remote = remote;
      signature = [];
    }
    covered ← quic_open_transcript value binding
    signature ← sign lib sender covered
    ok (record value { signature = signature })

  -- `QuicAck::transcript`
  unfoldable pub quic_ack_transcript : QuicAck → QuicOpen → Bytes → Result Failure Bytes
  unfolding require
  quic_ack_transcript m opened retained = do
    require (
        bytes_eq m.cmd (ascii "fang.quic.ack")
        && (bytes_eq m.protocol quic
            && (m.is_ok
                && (bytes_eq m.receiver_fingerprint opened.receiver_fingerprint
                    && (bytes_eq m.sender_fingerprint opened.sender_fingerprint
                        && (bytes_eq m.nonce opened.nonce && bytes_eq m.remote opened.remote))))))
    rp ← public_matches lib m.receiver_pubkey m.receiver_fingerprint
    transcript (ascii "fang.quic.ack/v3") (quic ∷ (1 ∷ []) ∷ retained ∷ rp ∷ [])

  -- `QuicAck::new`
  unfoldable pub new_quic_ack : QuicOpen → Bytes → PeltIdentity → Result Failure QuicAck
  unfolding quic_ack_transcript
  new_quic_ack opened retained receiver = do
    let value : QuicAck = record {
      cmd = ascii "fang.quic.ack";
      is_ok = true;
      protocol = quic;
      receiver_pubkey = receiver.public_key_b64;
      receiver_fingerprint = receiver.fingerprint;
      sender_fingerprint = opened.sender_fingerprint;
      nonce = opened.nonce;
      remote = opened.remote;
      signature = [];
    }
    covered ← quic_ack_transcript value opened retained
    signature ← sign lib receiver covered
    ok (record value { signature = signature })
