-- ===== src/Handshake/Rpc.antt =====
-- crates/werewolfd/src/handshake/rpc.rs: the requests and results of the RPCs, and what their
-- signatures cover. The JSON around a message is not modelled.
mod Request
mod Statements
unfoldable pub use Request.*
unfoldable pub use Statements.*
use werewolfproxy.Shared.{
  ℕ, suc, ◌+◌, ◌%◌, ◌^◌, Bool, true, false, ◌&&◌, List, [], ◌∷◌, ◌++◌, Option, none, some, length,
  leb, ltb, ◌==◌, if◌then◌else◌,
}
use werewolfproxy.Shared.Ascii.{ascii}
use werewolfproxy.Shared.Bytes.{Bytes, bytes_eq}
use werewolfproxy.Shared.Results.{Result, ok, err, ◌>>=◌, ◌>>◌, ensure}
use werewolfproxy.Overlay.NodeId.{NodeId, to_hex}
use werewolfproxy.Overlay.Routing.{max_k}
use werewolfproxy.Naming.Published.{max_published}
use werewolfproxy.Governance.Types.{Crypto, Hash, Statement}
use werewolfproxy.Governance.Encoding.{decode, hash}
use werewolfproxy.Handshake.Codes.{
  Str, Failure, rejected, require, or_rejected, hex, unhex, fingerprint, str_is_empty,
}
use werewolfproxy.Handshake.Pelt.{Primitives, PeltIdentity, binary, sign, verify, public_matches}
use werewolfproxy.Handshake.Transcript.{transcript}
use werewolfproxy.Handshake.Messages.{TcpChallenge, tcp, quic, validate}

abbrev pub quic_rpc : Str
quic_rpc = ascii "fang.quic.rpc"

abbrev pub tcp_rpc : Str
tcp_rpc = ascii "fang.tcp.rpc"

abbrev pub quic_result : Str
quic_result = ascii "fang.quic.rpc.result"

abbrev pub tcp_result : Str
tcp_result = ascii "fang.tcp.rpc.result"

pub record QuicRpc : Type 0 where
  pub cmd : Str
  pub protocol : Str
  pub sender_fingerprint : Str
  pub receiver_fingerprint : Str
  pub nonce : Str
  pub op : Str
  pub target : Str
  pub k : ℕ
  pub signature : Str

pub record QuicRpcResult : Type 0 where
  pub cmd : Str
  pub is_ok : Bool
  pub protocol : Str
  pub receiver_pubkey : Str
  pub receiver_fingerprint : Str
  pub sender_fingerprint : Str
  pub nonce : Str
  pub op : Str
  pub records : List Str
  pub signature : Str

pub record TcpRpc : Type 0 where
  pub cmd : Str
  pub protocol : Str
  pub sender_pubkey : Str
  pub sender_fingerprint : Str
  pub receiver_fingerprint : Str
  pub challenge : Str
  pub nonce : Str
  pub op : Str
  pub target : Str
  pub k : ℕ
  pub signature : Str

pub record TcpRpcResult : Type 0 where
  pub cmd : Str
  pub is_ok : Bool
  pub protocol : Str
  pub receiver_pubkey : Str
  pub receiver_fingerprint : Str
  pub sender_fingerprint : Str
  pub challenge : Str
  pub nonce : Str
  pub op : Str
  pub records : List Str
  pub signature : Str

-- `QuicRpc::request`
unfoldable pub quic_request : QuicRpc → Result Failure RpcRequest
unfolding require
quic_request m = do
  require (bytes_eq m.cmd quic_rpc && bytes_eq m.protocol quic)
  parse m.op m.target m.k

-- `QuicRpc::transcript`
unfoldable pub quic_rpc_transcript : QuicRpc → Bytes → Result Failure Bytes
quic_rpc_transcript m binding = do
  request ← quic_request m
  sender ← fingerprint m.sender_fingerprint
  receiver ← fingerprint m.receiver_fingerprint
  nonce ← unhex 16 m.nonce
  transcript (ascii "fang.quic.rpc/v1") (
      quic
      ∷ m.sender_fingerprint
      ∷ m.receiver_fingerprint
      ∷ nonce
      ∷ m.op
      ∷ target_bytes request
      ∷ (count_of request ∷ [])
      ∷ binding
      ∷ [])

-- `TcpRpc::request`
unfoldable pub tcp_request : TcpRpc → Result Failure RpcRequest
unfolding require
tcp_request m = do
  require (bytes_eq m.cmd tcp_rpc && bytes_eq m.protocol tcp)
  parse m.op m.target m.k

-- `result_transcript`
unfoldable pub result_transcript : Bytes → Str → Bytes → Bytes → List Bytes → Result Failure Bytes
result_transcript domain protocol retained receiver_pubkey records =
    transcript domain
      (protocol ∷ (1 ∷ []) ∷ retained ∷ receiver_pubkey ∷ (length records % 256 ∷ []) ∷ records)

module _ (lib : Primitives) where
  open lib use {b64_decode, b64_encode}

  -- the closure of `record_bytes` over the records
  unfoldable pub canonical_records : List Str → Result Failure (List Bytes)
  unfolding require
  canonical_records [] = ok []
  canonical_records (text ∷ texts) = do
    bytes ← or_rejected (b64_decode text)
    require (bytes_eq (b64_encode bytes) text)
    rest ← canonical_records texts
    ok (bytes ∷ rest)

  -- `record_bytes`
  unfoldable pub record_bytes : List Str → ℕ → Result Failure (List Bytes)
  unfolding require
  record_bytes records max = do require (leb (length records) max); canonical_records records

  -- `QuicRpc::new`
  unfoldable pub new_quic_rpc :
      Option Bytes → PeltIdentity → Str → RpcRequest → Bytes → Result Failure QuicRpc
  unfolding fields quic_rpc_transcript
  new_quic_rpc random sender receiver request binding = do
    nonce ← or_rejected random
    let value : QuicRpc = record {
      cmd = quic_rpc;
      protocol = quic;
      sender_fingerprint = sender.fingerprint;
      receiver_fingerprint = receiver;
      nonce = hex nonce;
      op = (fields request).0;
      target = (fields request).1;
      k = (fields request).2;
      signature = [];
    }
    covered ← quic_rpc_transcript value binding
    signature ← sign lib sender covered
    ok (record value { signature = signature })

  -- `QuicRpcResult::transcript`: the transcript, the raw records and the receiver's key
  unfoldable pub quic_result_transcript :
      QuicRpcResult → QuicRpc → Bytes → Result Failure (Bytes × List Bytes × Bytes)
  unfolding require
  quic_result_transcript m rpc retained = do
    require (
        bytes_eq m.cmd quic_result
        && (bytes_eq m.protocol quic
            && (m.is_ok
                && (bytes_eq m.receiver_fingerprint rpc.receiver_fingerprint
                    && (bytes_eq m.sender_fingerprint rpc.sender_fingerprint
                        && (bytes_eq m.nonce rpc.nonce && bytes_eq m.op rpc.op))))))
    receiver ← public_matches lib m.receiver_pubkey m.receiver_fingerprint
    request ← quic_request rpc
    raw ← record_bytes m.records (max_records request)
    covered ← result_transcript (ascii "fang.quic.rpc.result/v1") quic retained receiver raw
    ok (covered, raw, receiver)

  -- `TcpRpc::transcript`
  unfoldable pub tcp_rpc_transcript : TcpRpc → Result Failure Bytes
  tcp_rpc_transcript m = do
    request ← tcp_request m
    sender ← fingerprint m.sender_fingerprint
    receiver ← fingerprint m.receiver_fingerprint
    sp ← public_matches lib m.sender_pubkey m.sender_fingerprint
    challenge ← unhex 32 m.challenge
    nonce ← unhex 16 m.nonce
    transcript (ascii "fang.tcp.rpc/v1") (
        tcp
        ∷ m.sender_fingerprint
        ∷ sp
        ∷ m.receiver_fingerprint
        ∷ challenge
        ∷ nonce
        ∷ m.op
        ∷ target_bytes request
        ∷ (count_of request ∷ [])
        ∷ [])

  -- `TcpRpc::new`
  unfoldable pub new_tcp_rpc :
      Option Bytes → PeltIdentity → TcpChallenge → RpcRequest → Result Failure TcpRpc
  unfolding fields tcp_rpc_transcript
  new_tcp_rpc random sender challenge request = do
    validate challenge
    nonce ← or_rejected random
    let value : TcpRpc = record {
      cmd = tcp_rpc;
      protocol = tcp;
      sender_pubkey = sender.public_key_b64;
      sender_fingerprint = sender.fingerprint;
      receiver_fingerprint = challenge.receiver_fingerprint;
      challenge = challenge.challenge;
      nonce = hex nonce;
      op = (fields request).0;
      target = (fields request).1;
      k = (fields request).2;
      signature = [];
    }
    covered ← tcp_rpc_transcript value
    signature ← sign lib sender covered
    ok (record value { signature = signature })

  -- `TcpRpcResult::transcript`
  unfoldable pub tcp_result_transcript :
      TcpRpcResult → TcpRpc → Bytes → Result Failure (Bytes × List Bytes × Bytes)
  unfolding require
  tcp_result_transcript m rpc retained = do
    require (
        bytes_eq m.cmd tcp_result
        && (bytes_eq m.protocol tcp
            && (m.is_ok
                && (bytes_eq m.receiver_fingerprint rpc.receiver_fingerprint
                    && (bytes_eq m.sender_fingerprint rpc.sender_fingerprint
                        && (bytes_eq m.challenge rpc.challenge
                            && (bytes_eq m.nonce rpc.nonce && bytes_eq m.op rpc.op)))))))
    receiver ← public_matches lib m.receiver_pubkey m.receiver_fingerprint
    request ← tcp_request rpc
    raw ← record_bytes m.records (max_records request)
    covered ← result_transcript (ascii "fang.tcp.rpc.result/v1") tcp retained receiver raw
    ok (covered, raw, receiver)

module _ (lib : Primitives) (crypto : Crypto) where
  -- `QuicRpcResult::verify_governance`
  unfoldable pub quic_verify_governance :
      QuicRpcResult → QuicRpc → Bytes → Result Failure (List Statement)
  quic_verify_governance m rpc retained = do
    checked ← quic_result_transcript lib m rpc retained
    verify lib m.receiver_pubkey checked.0 m.signature
    request ← quic_request rpc
    accepted_governance crypto checked.1 request

  -- `TcpRpcResult::verify_governance`
  unfoldable pub tcp_verify_governance :
      TcpRpcResult → TcpRpc → Bytes → Result Failure (List Statement)
  tcp_verify_governance m rpc retained = do
    checked ← tcp_result_transcript lib m rpc retained
    verify lib m.receiver_pubkey checked.0 m.signature
    request ← tcp_request rpc
    accepted_governance crypto checked.1 request

-- `tcp_sender_key`
unfoldable pub tcp_sender_key : Primitives → TcpRpc → Result Failure Bytes
tcp_sender_key lib rpc = do
  key ← binary lib 32 rpc.sender_pubkey
  public_matches lib rpc.sender_pubkey rpc.sender_fingerprint
