-- ===== src/Admission/Bounded.antt =====
-- The admission and the permits that are held stay in balance, whatever the order of the calls and
-- the drops (crates/werewolfd/src/admission.rs).
use mathlib.Core.Path.{fun_ext}
use werewolfproxy.Shared.{
  ◌≡◌, refl, sym, ap, ◌∙◌, subst, Option, List, [], ◌∷◌, ◌++◌, length, arith,
}
use werewolfproxy.Shared.Bytes.{Bytes}
use werewolfproxy.Shared.Results.{ok, ok-injective}
use werewolfproxy.Admission.Permits.{
  Admission, HandshakePermit, TargetWorkPermit, default, drop_handshake, drop_work,
}
use werewolfproxy.Admission.Balance.{held, entry, peer_of, target_of, System, Step, Reached}
use werewolfproxy.Admission.Numbers.{Balanced, idle-Balanced}
use werewolfproxy.Admission.Calls.{
  enter-Balanced, connect-Balanced, disconnect-Balanced, authenticate-Balanced, start_work-Balanced,
}
use werewolfproxy.Admission.Drops.{leave-Balanced, end_work-Balanced}

Step-Balanced : {s t : System} → Step s t → Balanced s → Balanced t
Step-Balanced {s} {t} (Step.enter {a} {p} h) b = enter-Balanced s a p b h
Step-Balanced {s} {t} (Step.connect {a} h) b = connect-Balanced s a b h
Step-Balanced {s} {t} (Step.disconnect {n} h) b = disconnect-Balanced s n b h
Step-Balanced {s} {t} (Step.authenticate {a} p q xs ys text split h) b =
    authenticate-Balanced s a p q xs ys text b split h
Step-Balanced {s} {t} (Step.start_work {a} p w xs ys text split h) b =
    start_work-Balanced s a p w text b h
Step-Balanced {s} {t} (Step.leave {a} p xs ys split h) b =
    let (a', e, b') = leave-Balanced s p xs ys b split in
    subst (λ (x : Admission). Balanced (record s { admission = x; handshakes = xs ++ ys }))
      (ok-injective (sym e ∙ h)) b'
Step-Balanced {s} {t} (Step.end_work {a} w xs ys split h) b =
    let (a', e, b') = end_work-Balanced s w xs ys b split in
    subst (λ (x : Admission). Balanced (record s { admission = x; works = xs ++ ys }))
      (ok-injective (sym e ∙ h)) b'

-- In every state that the node comes to, by any interleaving of calls and drops, the available
-- permits and the permits held make up the limits (256 handshakes, 128 QUIC contexts, 64 target
-- works), the counters have an entry for exactly the peers that hold a permit, with their number,
-- and no peer holds more than 16 handshakes or 8 target works.
pub Reached-Balanced : {s : System} → Reached s → Balanced s
Reached-Balanced Reached.started = idle-Balanced
Reached-Balanced (Reached.stepped before step) = Step-Balanced step (Reached-Balanced before)

-- No permit that is held can fail to be dropped: in every state that the node comes to, the drop of
-- a handshake permit or of a target work permit that is held does not panic.
pub drop_total :
    (s : System)
    → Reached s
    → ((p : HandshakePermit) (xs ys : List HandshakePermit)
        → s.handshakes ≡ xs ++ p ∷ ys
        → (a : Admission) × (drop_handshake p s.admission ≡ ok a))
      × ((w : TargetWorkPermit) (xs ys : List TargetWorkPermit)
          → s.works ≡ xs ++ w ∷ ys
          → (a : Admission) × (drop_work w s.admission ≡ ok a))
drop_total s reached =
    let b = Reached-Balanced reached in
    (
      λ p xs ys split. let (a, e, _) = leave-Balanced s p xs ys b split in (a, e),
      λ w xs ys split. let (a, e, _) = end_work-Balanced s w xs ys b split in (a, e),
    )

held-nil {ℓ} : {P : Type ℓ} (peer : P → Option Bytes) (key : Bytes) → held peer [] key ≡ 0
unfolding held
held-nil peer key = refl

default_ext :
    (a : Admission)
    → a.global ≡ 256
    → a.contexts ≡ 128
    → a.target_work ≡ 64
    → a.peers ≡ default.peers
    → a.target_peers ≡ default.target_peers
    → a.peer_limit ≡ 16
    → a ≡ default
unfolding default
default_ext a e1 e2 e3 e4 e5 e6 = cc

-- Nothing leaks: in every state that the node comes to where no permit is held, the admission is
-- what it was at the start, without an entry for any peer.
pub Reached-idle :
    (s : System)
    → Reached s
    → s.handshakes ≡ []
    → s.contexts ≡ 0
    → s.works ≡ []
    → s.admission ≡ default
unfolding default
Reached-idle s reached h c w = admission_eq
  where
    b : Balanced s
    b = Reached-Balanced reached

    peers_eq : s.admission.peers ≡ default.peers
    peers_eq = fun_ext (λ key.
        b.peers_counted key
        ∙ ap (λ (hs : List HandshakePermit). entry (held peer_of hs key)) h
        ∙ ap entry (held-nil peer_of key))

    targets_eq : s.admission.target_peers ≡ default.target_peers
    targets_eq = fun_ext (λ key.
        b.targets_counted key
        ∙ ap (λ (ws : List TargetWorkPermit). entry (held target_of ws key)) w
        ∙ ap entry (held-nil target_of key))

    global_eq : s.admission.global ≡ 256
    global_eq = omega (arith, b.global_eq, ap length h)

    contexts_eq : s.admission.contexts ≡ 128
    contexts_eq = omega (arith, b.contexts_eq, c)

    work_eq : s.admission.target_work ≡ 64
    work_eq = omega (arith, b.work_eq, ap length w)

    limit_eq : s.admission.peer_limit ≡ 16
    limit_eq = b.limit_eq

    admission_eq : s.admission ≡ default
    admission_eq =
        default_ext s.admission global_eq contexts_eq work_eq peers_eq targets_eq limit_eq
