-- ===== src/Tests/Admission.antt =====
-- Runs of the admission (crates/werewolfd/src/admission.rs).
use werewolfproxy.Shared.{ℕ, ◌+◌, ◌≡◌, refl, none, some, List, [], ◌∷◌, ◌++◌}
use werewolfproxy.Shared.Ascii.{ascii}
use werewolfproxy.Shared.Bytes.{Bytes, bytes_eq}
use werewolfproxy.Shared.Results.{ok, err}
use werewolfproxy.Handshake.Codes.{
  Str, rejected, fingerprint, require, strip_prefix, parts, upper_digit, unhex, unhex_pairs,
  lower_digit,
}
use werewolfproxy.Admission.Permits.{
  Admission, HandshakePermit, TargetWorkPermit, default, count_at, put, handshake, try_acquire,
  authenticated, drop_handshake, drop_work,
}
use werewolfproxy.Admission.Balance.{System, Step, Reached, idle}
use werewolfproxy.Admission.Numbers.{Balanced}
use werewolfproxy.Admission.Bounded.{Reached-Balanced, drop_total, Reached-idle}
use werewolfproxy.Admission.QuicReplay.{
  QuicReplay, QuicReservation, fresh, reserve, reservation_eq, has_reservation, Later, reserve_once,
}

abbrev peer_text : Str
peer_text = ascii "wwp1:01-23-45-67-89-AB-CD-EF"

abbrev peer_bytes : Bytes
peer_bytes = 0x01 ∷ 0x23 ∷ 0x45 ∷ 0x67 ∷ 0x89 ∷ 0xab ∷ 0xcd ∷ 0xef ∷ []

abbrev entered : Admission
entered = record default { global = 255 }

abbrev unnamed : HandshakePermit
unnamed = record { peer = none }

abbrev named : HandshakePermit
named = record { peer = some peer_bytes }

abbrev joined : Admission
joined = record entered {
  peers = put peer_bytes (some (count_at (entered.peers peer_bytes) + 1)) entered.peers;
}

enter_run : handshake default ≡ ok (entered, unnamed)
unfolding handshake try_acquire default
enter_run = refl

join_run : authenticated unnamed peer_text entered ≡ ok (joined, named)
unfolding authenticated default require fingerprint strip_prefix parts upper_digit
join_run = refl

abbrev one_entered : System
one_entered = record idle { admission = entered; handshakes = unnamed ∷ [] }

abbrev one_held : System
one_held = record idle { admission = joined; handshakes = named ∷ [] }

entered-Reached : Reached one_entered
entered-Reached = Reached.stepped Reached.started (Step.enter enter_run)

held-Reached : Reached one_held
held-Reached =
    Reached.stepped entered-Reached (Step.authenticate unnamed named [] [] peer_text refl join_run)

Reached-Balanced_example : Balanced one_held
Reached-Balanced_example = Reached-Balanced held-Reached

drop_total_example :
    ((p : HandshakePermit) (xs ys : List HandshakePermit)
      → one_held.handshakes ≡ xs ++ p ∷ ys
      → (a : Admission) × (drop_handshake p one_held.admission ≡ ok a))
    × ((w : TargetWorkPermit) (xs ys : List TargetWorkPermit)
        → one_held.works ≡ xs ++ w ∷ ys
        → (a : Admission) × (drop_work w one_held.admission ≡ ok a))
drop_total_example = drop_total one_held held-Reached

leave_run : drop_handshake unnamed entered ≡ ok default
unfolding drop_handshake default
leave_run = refl

idle-Reached : Reached idle
idle-Reached = Reached.stepped entered-Reached (Step.leave unnamed [] [] refl leave_run)

Reached-idle_example : idle.admission ≡ default
Reached-idle_example = Reached-idle idle idle-Reached refl refl refl

abbrev first_nonce : Str
first_nonce = ascii "00000000000000000000000000000001"

abbrev second_nonce : Str
second_nonce = ascii "00000000000000000000000000000002"

abbrev nonce_bytes : ℕ → Bytes
nonce_bytes n = 0 ∷ 0 ∷ 0 ∷ 0 ∷ 0 ∷ 0 ∷ 0 ∷ 0 ∷ 0 ∷ 0 ∷ 0 ∷ 0 ∷ 0 ∷ 0 ∷ 0 ∷ n ∷ []

abbrev reservation : ℕ → QuicReservation
reservation n = record { sender = peer_bytes; nonce = nonce_bytes n }

abbrev replay_one : QuicReplay
replay_one = record fresh { reservations = reservation 1 ∷ [] }

abbrev replay_two : QuicReplay
replay_two = record fresh { reservations = reservation 2 ∷ reservation 1 ∷ [] }

reserve_first : reserve fresh peer_text first_nonce ≡ ok replay_one
unfolding reserve fresh require fingerprint strip_prefix parts upper_digit unhex unhex_pairs
    lower_digit has_reservation
reserve_first = refl

reserve_second : reserve replay_one peer_text second_nonce ≡ ok replay_two
unfolding reserve fresh require fingerprint strip_prefix parts upper_digit unhex unhex_pairs
    lower_digit has_reservation reservation_eq bytes_eq
reserve_second = refl

reserve_once_example : reserve replay_two peer_text first_nonce ≡ err rejected
reserve_once_example =
    reserve_once fresh replay_one replay_two peer_text first_nonce reserve_first
      (Later.reserved peer_text second_nonce Later.here reserve_second)
