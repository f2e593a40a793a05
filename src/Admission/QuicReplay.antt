-- ===== src/Admission/QuicReplay.antt =====
-- `QuicReplayV3` (crates/werewolfd/src/admission.rs): the openings of a QUIC connection that are
-- already used, without eviction.
use werewolfproxy.Shared.{
  ℕ, ◌≡◌, sym, ap, ◌∙◌, Bool, true, false, not, ◌&&◌, ◌||◌, List, [], ◌∷◌, length, ltb, arith,
  &&-true,
}
use werewolfproxy.Shared.Bytes.{Bytes, bytes_eq, bytes_eq_refl}
use werewolfproxy.Shared.Results.{
  Result, ok, err, ◌>>=◌, ◌>>◌, >>=-eq-ok, ensure-bind-eq-ok, ok-injective,
}
use werewolfproxy.Handshake.Codes.{Str, Failure, rejected, require, fingerprint, unhex}

abbrev quic_reservations : ℕ
quic_reservations = 256

abbrev quic_opens : ℕ
quic_opens = 8

pub record QuicReservation : Type 0 where
  pub sender : Bytes
  pub nonce : Bytes

unfoldable pub reservation_eq : QuicReservation → QuicReservation → Bool
reservation_eq a b = bytes_eq a.sender b.sender && bytes_eq a.nonce b.nonce

-- `HashSet::contains`
unfoldable pub has_reservation : QuicReservation → List QuicReservation → Bool
unfolding reservation_eq
has_reservation key [] = false
has_reservation key (r ∷ rs) = reservation_eq key r || has_reservation key rs

-- `QuicReplayV3`, its semaphore being its number of available permits
pub record QuicReplay : Type 0 where
  pub opens : ℕ
  pub reservations : List QuicReservation
  pub limit : ℕ

-- `QuicReplayV3::default`
unfoldable pub fresh : QuicReplay
fresh = record { opens = quic_opens; reservations = []; limit = quic_reservations }

-- `QuicReplayV3::reserve`
unfoldable pub reserve : QuicReplay → Str → Str → Result Failure QuicReplay
unfolding require has_reservation
reserve replay sender nonce = do
  s ← fingerprint sender
  n ← unhex 16 nonce
  let key : QuicReservation = record { sender = s; nonce = n }
  require (
      ltb (length replay.reservations) replay.limit
      && not (has_reservation key replay.reservations))
  ok (record replay { reservations = key ∷ replay.reservations })

-- What comes of a connection's openings through any number of reservations, by any sender.
pub data Later (start : QuicReplay) : QuicReplay → Type 0 where
  here : Later start start
  reserved :
      {replay next : QuicReplay} (sender nonce : Str)
      → Later start replay
      → reserve replay sender nonce ≡ ok next
      → Later start next

-- What a reservation has checked, and the state after it.
record Reserved (replay : QuicReplay) (sender nonce : Str) (next : QuicReplay) : Type 0 where
  s : Bytes
  n : Bytes
  sender_eq : fingerprint sender ≡ ok s
  nonce_eq : unhex 16 nonce ≡ ok n
  room : ltb (length replay.reservations) replay.limit ≡ true
  next_eq :
      next ≡ record replay { reservations = record { sender = s; nonce = n } ∷ replay.reservations }

reserve-eq-ok :
    (replay : QuicReplay) (sender nonce : Str) (next : QuicReplay)
    → reserve replay sender nonce ≡ ok next
    → Reserved replay sender nonce next
unfolding reserve require
reserve-eq-ok replay sender nonce next h =
    let (s, e1, h1) = >>=-eq-ok (fingerprint sender) _ h in
    let (n, e2, h2) = >>=-eq-ok (unhex 16 nonce) _ h1 in
    let (test, h3) = ensure-bind-eq-ok _ _ _ h2 in
    let (room, new) = &&-true _ _ test in
    record {
      s = s;
      n = n;
      sender_eq = e1;
      nonce_eq = e2;
      room = room;
      next_eq = sym (ok-injective h3);
    }

reservation_eq_refl : (r : QuicReservation) → reservation_eq r r ≡ true
unfolding reservation_eq
reservation_eq_refl r = ground (arith, bytes_eq_refl r.sender, bytes_eq_refl r.nonce)

has_reservation_head :
    (r : QuicReservation) (rs : List QuicReservation) → has_reservation r (r ∷ rs) ≡ true
unfolding has_reservation
has_reservation_head r rs = ground (arith, reservation_eq_refl r)

has_reservation-cons :
    (key r : QuicReservation) (rs : List QuicReservation)
    → has_reservation key rs ≡ true
    → has_reservation key (r ∷ rs) ≡ true
unfolding has_reservation
has_reservation-cons key r rs h = ground arith

-- A reservation is never forgotten.
Later-has_reservation :
    (key : QuicReservation) {start replay : QuicReplay}
    → Later start replay
    → has_reservation key start.reservations ≡ true
    → has_reservation key replay.reservations ≡ true
Later-has_reservation key Later.here h = h
Later-has_reservation key (Later.reserved {replay} {next} sender nonce before step) h =
    let ih = Later-has_reservation key before h in
    let r = reserve-eq-ok replay sender nonce next step in
    ap (λ (x : QuicReplay). has_reservation key x.reservations) r.next_eq
    ∙ has_reservation-cons key _ replay.reservations ih

reserve_contained :
    (replay : QuicReplay) (sender nonce : Str) (s n : Bytes)
    → fingerprint sender ≡ ok s
    → unhex 16 nonce ≡ ok n
    → has_reservation (record { sender = s; nonce = n }) replay.reservations ≡ true
    → reserve replay sender nonce ≡ err rejected
unfolding reserve require
reserve_contained replay sender nonce s n e f h = ground (arith, e, f)

-- An opening is accepted once on a connection: after `reserve` has accepted a sender and a nonce,
-- it rejects them ever after, through any number of other reservations.
pub reserve_once :
    (replay next later : QuicReplay) (sender nonce : Str)
    → reserve replay sender nonce ≡ ok next
    → Later next later
    → reserve later sender nonce ≡ err rejected
reserve_once replay next later sender nonce h l =
    reserve_contained later sender nonce r.s r.n r.sender_eq r.nonce_eq
      (Later-has_reservation key l made)
  where
    r : Reserved replay sender nonce next
    r = reserve-eq-ok replay sender nonce next h

    key : QuicReservation
    key = record { sender = r.s; nonce = r.n }

    made : has_reservation key next.reservations ≡ true
    made =
        ap (λ (x : QuicReplay). has_reservation key x.reservations) r.next_eq
        ∙ has_reservation_head key replay.reservations
