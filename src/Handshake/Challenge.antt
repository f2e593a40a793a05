-- ===== src/Handshake/Challenge.antt =====
-- `TcpChallengeContext` (crates/werewolfd/src/handshake.rs): a challenge is used at most once, before
-- its deadline. An `Instant` is a number of milliseconds; a random value is an argument.
use werewolfproxy.Shared.{
  ℕ, ◌+◌, ◌<◌, ◌≡◌, refl, sym, ap, ◌∙◌, Bool, true, false, not, ◌&&◌, Option, List, [], inl, inr,
  ◌∷◌, ltb, subst, arith, &&-true, ltb→lt,
}
use werewolfproxy.Shared.Ascii.{ascii}
use werewolfproxy.Shared.Bytes.{Bytes, bytes_eq, bytes_eq_sound}
use werewolfproxy.Shared.Results.{
  Result, ok, err, ◌>>=◌, ◌>>◌, Result-cases, ensure-bind-eq-ok, ok-injective,
}
use werewolfproxy.Handshake.Codes.{Str, Failure, rejected, require, or_rejected, hex}
use werewolfproxy.Handshake.Pelt.{Primitives, PeltIdentity, public_matches}
use werewolfproxy.Handshake.Messages.{TcpChallenge, TcpOpen, tcp, validate}

-- `READ_WINDOW`
abbrev pub read_window : ℕ
read_window = 5000

-- `TcpChallengeContext`
pub record TcpChallengeContext : Type 0 where
  pub message : TcpChallenge
  pub receiver : PeltIdentity
  pub deadline : ℕ
  pub consumed : Bool

-- `TcpChallengeContext::new`
unfoldable pub new_context :
    Primitives → Option Bytes → PeltIdentity → ℕ → Result Failure TcpChallengeContext
new_context lib random receiver now = do
  bytes ← or_rejected random
  let message : TcpChallenge = record {
    cmd = ascii "fang.tcp.challenge";
    protocol = tcp;
    receiver_fingerprint = receiver.fingerprint;
    challenge = hex bytes;
  }
  validate message
  key ← public_matches lib receiver.public_key_b64 receiver.fingerprint
  ok (record {
    message = message;
    receiver = receiver;
    deadline = now + read_window;
    consumed = false;
  })

-- `TcpChallengeContext::check_binding`
unfoldable pub check_binding : TcpChallengeContext → ℕ → Str → Str → Result Failure (Unit {0})
unfolding require
check_binding c now challenge receiver = require (
    not c.consumed
    && (ltb now c.deadline
        && (bytes_eq challenge c.message.challenge && bytes_eq receiver c.receiver.fingerprint)))

-- `TcpChallengeContext::consume_binding`
unfoldable pub consume_binding :
    TcpChallengeContext → ℕ → Str → Str → Result Failure TcpChallengeContext
unfolding check_binding
consume_binding c now challenge receiver = do
  check_binding c now challenge receiver
  ok (record c { consumed = true })

-- `TcpChallengeContext::check`
unfoldable pub check_open : TcpChallengeContext → ℕ → TcpOpen → Result Failure (Unit {0})
unfolding check_binding
check_open c now m = check_binding c now m.challenge m.receiver_fingerprint

-- `TcpChallengeContext::consume`
unfoldable pub consume : TcpChallengeContext → ℕ → TcpOpen → Result Failure TcpChallengeContext
unfolding consume_binding
consume c now m = consume_binding c now m.challenge m.receiver_fingerprint

-- An OPEN that arrives at a time.
abbrev pub Arrival : Type 0
Arrival = ℕ × TcpOpen

-- the arrivals that `consume` accepts, each with the context as the ones before left it
unfoldable pub accepted : TcpChallengeContext → List Arrival → List Arrival
accepted c [] = []
accepted c (a ∷ as_) = elim (consume c a.0 a.1) [
  | ok after ↦ a ∷ accepted after as_
  | err e ↦ accepted c as_
]

-- What the accepted ones of the arrivals are: none, or one in time that answers the challenge.
abbrev pub AtMostOnce : TcpChallengeContext → List Arrival → Type 0
AtMostOnce c [] = Unit {0}
AtMostOnce c (a ∷ []) =
    (a.0 < c.deadline)
    × (a.1.challenge ≡ c.message.challenge)
    × (a.1.receiver_fingerprint ≡ c.receiver.fingerprint)
AtMostOnce c (a ∷ b ∷ more) = ⊥

consume_consumed :
    (c : TcpChallengeContext) (now : ℕ) (m : TcpOpen)
    → c.consumed ≡ true
    → consume c now m ≡ err rejected
unfolding consume consume_binding check_binding require
consume_consumed c now m h = ground arith

accepted-rejected :
    (c : TcpChallengeContext) (a : Arrival) (as_ : List Arrival) (e : Failure)
    → consume c a.0 a.1 ≡ err e
    → accepted c (a ∷ as_) ≡ accepted c as_
unfolding accepted
accepted-rejected c a as_ e h = rw (accepted, h) refl

accepted-consumed :
    (c after : TcpChallengeContext) (a : Arrival) (as_ : List Arrival)
    → consume c a.0 a.1 ≡ ok after
    → accepted c (a ∷ as_) ≡ a ∷ accepted after as_
unfolding accepted
accepted-consumed c after a as_ h = rw (accepted, h) refl

accepted_none :
    (c : TcpChallengeContext) (as_ : List Arrival) → c.consumed ≡ true → accepted c as_ ≡ []
unfolding accepted
accepted_none c [] h = refl
accepted_none c (a ∷ as_) h =
    accepted-rejected c a as_ rejected (consume_consumed c a.0 a.1 h) ∙ accepted_none c as_ h

consume-eq-ok :
    (c after : TcpChallengeContext) (a : Arrival)
    → consume c a.0 a.1 ≡ ok after
    → (after.consumed ≡ true) × AtMostOnce c (a ∷ [])
unfolding consume consume_binding check_binding require
consume-eq-ok c after a h =
    let (test, h1) = ensure-bind-eq-ok _ _ _ h in
    let (fresh, t1) = &&-true _ _ test in
    let (early, t2) = &&-true (ltb a.0 c.deadline) _ t1 in
    let (same, to) = &&-true (bytes_eq a.1.challenge c.message.challenge) _ t2 in
    (
      ap (λ (x : TcpChallengeContext). x.consumed) (sym (ok-injective h1)),
      (ltb→lt _ _ early, bytes_eq_sound _ _ same, bytes_eq_sound _ _ to),
    )

-- However often a challenge is answered, at most one of the answers is accepted, and that one comes
-- before the deadline, carries the challenge and is meant for its receiver.
pub accepted_once :
    (c : TcpChallengeContext) (arrivals : List Arrival) → AtMostOnce c (accepted c arrivals)
unfolding accepted
accepted_once c [] = tt
accepted_once c (a ∷ as_) = elim (Result-cases (consume c a.0 a.1)) [
  | inl (after, e) ↦
      let (used, once) = consume-eq-ok c after a e in
      subst (AtMostOnce c)
        (sym (
          accepted-consumed c after a as_ e
          ∙ ap (λ (xs : List Arrival). a ∷ xs) (accepted_none after as_ used)))
        once
  | inr (failure, e) ↦
      subst (AtMostOnce c) (sym (accepted-rejected c a as_ failure e)) (accepted_once c as_)
]
