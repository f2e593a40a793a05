-- ===== src/Handshake/Purposes.antt =====
-- No handshake signature serves two purposes (crates/werewolfd/src/handshake.rs and
-- handshake/rpc.rs: the domains of the transcripts).
use werewolfproxy.Shared.{◌≡◌, refl, sym, ap, ◌∙◌, List, if◌then◌else◌}
use werewolfproxy.Shared.Ascii.{ascii}
use werewolfproxy.Shared.Bytes.{Bytes, bytes_eq}
use werewolfproxy.Shared.Results.{ok, >>=-eq-ok, ensure-bind-eq-ok, ok-injective}
use werewolfproxy.Handshake.Codes.{require, unhex, fingerprint, remote}
use werewolfproxy.Handshake.Pelt.{Primitives, binary, public_matches}
use werewolfproxy.Handshake.Transcript.{transcript, transcript_injective}
use werewolfproxy.Handshake.Messages.{
  tcp, quic, TcpOpen, TcpAck, QuicOpen, QuicAck, tcp_open_transcript, tcp_ack_transcript,
  quic_open_transcript, quic_ack_transcript,
}
use werewolfproxy.Handshake.Rpc.{
  TcpRpc, QuicRpc, TcpRpcResult, QuicRpcResult, tcp_request, quic_request, record_bytes,
  max_records, tcp_rpc_transcript, quic_rpc_transcript, result_transcript, tcp_result_transcript,
  quic_result_transcript,
}

-- What a signature stands for.
pub data Purpose : Type 0 where
  tcp_open tcp_ack quic_open quic_ack tcp_rpc quic_rpc tcp_result quic_result : Purpose

abbrev domain : Purpose → Bytes
domain Purpose.tcp_open = ascii "fang.tcp.open/v3"
domain Purpose.tcp_ack = ascii "fang.tcp.ack/v3"
domain Purpose.quic_open = ascii "fang.quic.open/v3"
domain Purpose.quic_ack = ascii "fang.quic.ack/v3"
domain Purpose.tcp_rpc = ascii "fang.tcp.rpc/v1"
domain Purpose.quic_rpc = ascii "fang.quic.rpc/v1"
domain Purpose.tcp_result = ascii "fang.tcp.rpc.result/v1"
domain Purpose.quic_result = ascii "fang.quic.rpc.result/v1"

-- the purpose that a domain stands for
abbrev purpose_of : Bytes → Purpose
purpose_of bs =
    if bytes_eq bs (domain Purpose.tcp_open)
    then Purpose.tcp_open
    else if bytes_eq bs (domain Purpose.tcp_ack)
    then Purpose.tcp_ack
    else if bytes_eq bs (domain Purpose.quic_open)
    then Purpose.quic_open
    else if bytes_eq bs (domain Purpose.quic_ack)
    then Purpose.quic_ack
    else if bytes_eq bs (domain Purpose.tcp_rpc)
    then Purpose.tcp_rpc
    else if bytes_eq bs (domain Purpose.quic_rpc)
    then Purpose.quic_rpc
    else if bytes_eq bs (domain Purpose.tcp_result)
    then Purpose.tcp_result
    else Purpose.quic_result

purpose_of-domain : (p : Purpose) → purpose_of (domain p) ≡ p
unfolding bytes_eq
purpose_of-domain Purpose.tcp_open = refl
purpose_of-domain Purpose.tcp_ack = refl
purpose_of-domain Purpose.quic_open = refl
purpose_of-domain Purpose.quic_ack = refl
purpose_of-domain Purpose.tcp_rpc = refl
purpose_of-domain Purpose.quic_rpc = refl
purpose_of-domain Purpose.tcp_result = refl
purpose_of-domain Purpose.quic_result = refl

module _ (lib : Primitives) (out : Bytes) where
  -- `out` is what the signature of some message of this purpose covers.
  abbrev pub Covers : Purpose → Type 0
  Covers Purpose.tcp_open = (m : TcpOpen) × (tcp_open_transcript lib m ≡ ok out)
  Covers Purpose.tcp_ack =
      (m : TcpAck) × (opened : TcpOpen) × (retained : Bytes) × (tcp_ack_transcript lib m opened
          retained
        ≡ ok out)
  Covers Purpose.quic_open =
      (m : QuicOpen) × (binding : Bytes) × (quic_open_transcript m binding ≡ ok out)
  Covers Purpose.quic_ack =
      (m : QuicAck) × (opened : QuicOpen) × (retained : Bytes) × (quic_ack_transcript lib m opened
          retained
        ≡ ok out)
  Covers Purpose.tcp_rpc = (m : TcpRpc) × (tcp_rpc_transcript lib m ≡ ok out)
  Covers Purpose.quic_rpc =
      (m : QuicRpc) × (binding : Bytes) × (quic_rpc_transcript m binding ≡ ok out)
  Covers Purpose.tcp_result =
      (m : TcpRpcResult) × (rpc : TcpRpc) × (retained : Bytes) × (raw : List Bytes)
      × (receiver : Bytes) × (tcp_result_transcript lib m rpc retained ≡ ok (out, raw, receiver))
  Covers Purpose.quic_result =
      (m : QuicRpcResult) × (rpc : QuicRpc) × (retained : Bytes) × (raw : List Bytes)
      × (receiver : Bytes) × (quic_result_transcript lib m rpc retained ≡ ok (out, raw, receiver))

  -- `out` is a transcript of the purpose's domain.
  abbrev InDomain : Purpose → Type 0
  InDomain p = (fields : List Bytes) × (transcript (domain p) fields ≡ ok out)

  in_domain :
      (p : Purpose) (fields : List Bytes) → transcript (domain p) fields ≡ ok out → InDomain p
  in_domain p fields h = (fields, h)

  quic_open-InDomain : Covers Purpose.quic_open → InDomain Purpose.quic_open
  unfolding quic_open_transcript require
  quic_open-InDomain (m, binding, h) =
      let (_, h1) = ensure-bind-eq-ok _ _ _ h in
      let (_, _, h2) = >>=-eq-ok (fingerprint m.sender_fingerprint) _ h1 in
      let (_, _, h3) = >>=-eq-ok (fingerprint m.receiver_fingerprint) _ h2 in
      let (_, _, h4) = >>=-eq-ok (remote m.remote) _ h3 in
      let (_, _, h5) = >>=-eq-ok (unhex 16 m.nonce) _ h4 in in_domain Purpose.quic_open _ h5

  tcp_open-InDomain : Covers Purpose.tcp_open → InDomain Purpose.tcp_open
  unfolding tcp_open_transcript require
  tcp_open-InDomain (m, h) =
      let (_, h1) = ensure-bind-eq-ok _ _ _ h in
      let (_, _, h2) = >>=-eq-ok (fingerprint m.sender_fingerprint) _ h1 in
      let (_, _, h3) = >>=-eq-ok (fingerprint m.receiver_fingerprint) _ h2 in
      let (_, _, h4) = >>=-eq-ok (remote m.remote) _ h3 in
      let (_, _, h5) = >>=-eq-ok (public_matches lib m.sender_pubkey m.sender_fingerprint) _ h4 in
      let (_, _, h6) = >>=-eq-ok (unhex 32 m.challenge) _ h5 in
      let (_, _, h7) = >>=-eq-ok (unhex 16 m.nonce) _ h6 in
      let (_, _, h8) = >>=-eq-ok (binary lib 32 m.client_x25519) _ h7 in
      in_domain Purpose.tcp_open _ h8

  tcp_ack-InDomain : Covers Purpose.tcp_ack → InDomain Purpose.tcp_ack
  unfolding tcp_ack_transcript require
  tcp_ack-InDomain (m, opened, retained, h) =
      let (_, h1) = ensure-bind-eq-ok _ _ _ h in
      let (_, _, h2) =
        >>=-eq-ok (public_matches lib m.receiver_pubkey m.receiver_fingerprint) _ h1 in
      let (_, _, h3) = >>=-eq-ok (binary lib 32 m.server_x25519) _ h2 in
      in_domain Purpose.tcp_ack _ h3

  quic_ack-InDomain : Covers Purpose.quic_ack → InDomain Purpose.quic_ack
  unfolding quic_ack_transcript require
  quic_ack-InDomain (m, opened, retained, h) =
      let (_, h1) = ensure-bind-eq-ok _ _ _ h in
      let (_, _, h2) =
        >>=-eq-ok (public_matches lib m.receiver_pubkey m.receiver_fingerprint) _ h1 in
      in_domain Purpose.quic_ack _ h2

  tcp_rpc-InDomain : Covers Purpose.tcp_rpc → InDomain Purpose.tcp_rpc
  unfolding tcp_rpc_transcript
  tcp_rpc-InDomain (m, h) =
      let (_, _, h1) = >>=-eq-ok (tcp_request m) _ h in
      let (_, _, h2) = >>=-eq-ok (fingerprint m.sender_fingerprint) _ h1 in
      let (_, _, h3) = >>=-eq-ok (fingerprint m.receiver_fingerprint) _ h2 in
      let (_, _, h4) = >>=-eq-ok (public_matches lib m.sender_pubkey m.sender_fingerprint) _ h3 in
      let (_, _, h5) = >>=-eq-ok (unhex 32 m.challenge) _ h4 in
      let (_, _, h6) = >>=-eq-ok (unhex 16 m.nonce) _ h5 in in_domain Purpose.tcp_rpc _ h6

  quic_rpc-InDomain : Covers Purpose.quic_rpc → InDomain Purpose.quic_rpc
  unfolding quic_rpc_transcript
  quic_rpc-InDomain (m, binding, h) =
      let (_, _, h1) = >>=-eq-ok (quic_request m) _ h in
      let (_, _, h2) = >>=-eq-ok (fingerprint m.sender_fingerprint) _ h1 in
      let (_, _, h3) = >>=-eq-ok (fingerprint m.receiver_fingerprint) _ h2 in
      let (_, _, h4) = >>=-eq-ok (unhex 16 m.nonce) _ h3 in in_domain Purpose.quic_rpc _ h4

  tcp_result-InDomain : Covers Purpose.tcp_result → InDomain Purpose.tcp_result
  unfolding tcp_result_transcript require result_transcript
  tcp_result-InDomain (m, rpc, retained, raw, receiver, h) =
      let (_, h1) = ensure-bind-eq-ok _ _ _ h in
      let (key, _, h2) =
        >>=-eq-ok (public_matches lib m.receiver_pubkey m.receiver_fingerprint) _ h1 in
      let (request, _, h3) = >>=-eq-ok (tcp_request rpc) _ h2 in
      let (records, _, h4) = >>=-eq-ok (record_bytes lib m.records (max_records request)) _ h3 in
      let (covered, e, h5) =
        >>=-eq-ok (result_transcript (ascii "fang.tcp.rpc.result/v1") tcp retained key records) _
          h4 in
      in_domain Purpose.tcp_result _ (e ∙ ap ok (ap (λ t. t.0) (ok-injective h5)))

  quic_result-InDomain : Covers Purpose.quic_result → InDomain Purpose.quic_result
  unfolding quic_result_transcript require result_transcript
  quic_result-InDomain (m, rpc, retained, raw, receiver, h) =
      let (_, h1) = ensure-bind-eq-ok _ _ _ h in
      let (key, _, h2) =
        >>=-eq-ok (public_matches lib m.receiver_pubkey m.receiver_fingerprint) _ h1 in
      let (request, _, h3) = >>=-eq-ok (quic_request rpc) _ h2 in
      let (records, _, h4) = >>=-eq-ok (record_bytes lib m.records (max_records request)) _ h3 in
      let (covered, e, h5) =
        >>=-eq-ok (result_transcript (ascii "fang.quic.rpc.result/v1") quic retained key records) _
          h4 in
      in_domain Purpose.quic_result _ (e ∙ ap ok (ap (λ t. t.0) (ok-injective h5)))

  Covers-InDomain : (p : Purpose) → Covers p → InDomain p
  Covers-InDomain Purpose.tcp_open = tcp_open-InDomain
  Covers-InDomain Purpose.tcp_ack = tcp_ack-InDomain
  Covers-InDomain Purpose.quic_open = quic_open-InDomain
  Covers-InDomain Purpose.quic_ack = quic_ack-InDomain
  Covers-InDomain Purpose.tcp_rpc = tcp_rpc-InDomain
  Covers-InDomain Purpose.quic_rpc = quic_rpc-InDomain
  Covers-InDomain Purpose.tcp_result = tcp_result-InDomain
  Covers-InDomain Purpose.quic_result = quic_result-InDomain

  -- No signature serves two purposes: when the same bytes are what the signature of a message of
  -- one purpose covers and what that of a message of another covers, the purposes are the same.
  pub Covers-one_purpose : (p q : Purpose) → Covers p → Covers q → p ≡ q
  Covers-one_purpose p q c d =
      let (fields, h) = Covers-InDomain p c in
      let (fields', k) = Covers-InDomain q d in
      let (same, _) = transcript_injective (domain p) (domain q) fields fields' out h k in
      sym (purpose_of-domain p) ∙ ap purpose_of same ∙ purpose_of-domain q
