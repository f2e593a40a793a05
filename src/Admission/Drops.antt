-- ===== src/Admission/Drops.antt =====
-- The drop of a permit that is held succeeds and keeps the balance
-- (crates/werewolfd/src/admission.rs).
use werewolfproxy.Shared.{
  ◌+◌, ◌≤◌, ◌≡◌, refl, sym, ap, ◌∙◌, List, ◌∷◌, ◌++◌, length, arith, Option-cases, inl, inr,
}
use werewolfproxy.Shared.Bytes.{Bytes}
use werewolfproxy.Shared.Results.{ok}
use werewolfproxy.Admission.Permits.{
  Admission, HandshakePermit, TargetWorkPermit, Counters, drop_handshake, drop_work,
}
use werewolfproxy.Admission.Balance.{held, Counts, release-Counts, System, peer_of, target_of}
use werewolfproxy.Admission.Numbers.{
  Balanced, length-insert, Counts-same, bounded-same, bounded_one_less, insert_unnamed,
  insert_named,
}

-- The drop of a handshake permit that is held succeeds, and the balance stays.
pub leave-Balanced :
    (s : System) (p : HandshakePermit) (xs ys : List HandshakePermit)
    → Balanced s
    → s.handshakes ≡ xs ++ p ∷ ys
    → (a : Admission) × (drop_handshake p s.admission ≡ ok a)
      × Balanced (record s { admission = a; handshakes = xs ++ ys })
unfolding drop_handshake
leave-Balanced s p xs ys b split = elim (Option-cases p.peer) [
  | inl e ↦
      let same = λ (k : Bytes).
        ap (λ (hs : List HandshakePermit). held peer_of hs k) split
        ∙ insert_unnamed peer_of xs p ys e k in
      (
        record s.admission { global = s.admission.global + 1 },
        rw (drop_handshake, e) refl,
        balanced s.admission.peers (Counts-same _ _ _ (λ (k : Bytes). sym (same k)) b.peers_counted)
            (bounded-same 16 _ _ (λ (k : Bytes). sym (same k)) b.peers_bounded),
      )
  | inr (key, e) ↦
      let one = λ (k : Bytes).
        ap (λ (hs : List HandshakePermit). held peer_of hs k) split
        ∙ insert_named peer_of xs p ys key e k in
      let (left, released, counted) =
        release-Counts s.admission.peers key (held peer_of (xs ++ ys)) (held peer_of s.handshakes)
          b.peers_counted one in
      (
        record s.admission { peers = left; global = s.admission.global + 1 },
        rw (drop_handshake, e) (rw released refl),
        balanced left counted (
            bounded_one_less 16 key (held peer_of (xs ++ ys)) (held peer_of s.handshakes) one
              b.peers_bounded),
      )
]
  where
    balanced :
        (left : Counters)
        → Counts left (held peer_of (xs ++ ys))
        → ((k : Bytes) → held peer_of (xs ++ ys) k ≤ 16)
        → Balanced (record s {
          admission = record s.admission { peers = left; global = s.admission.global + 1 };
          handshakes = xs ++ ys;
        })
    balanced left counted bounded = record {
      global_eq = omega (arith, b.global_eq, ap length split, length-insert xs p ys);
      contexts_eq = b.contexts_eq;
      work_eq = b.work_eq;
      limit_eq = b.limit_eq;
      peers_counted = counted;
      peers_bounded = bounded;
      targets_counted = b.targets_counted;
      targets_bounded = b.targets_bounded;
    }

-- The drop of a permit of target work that is held succeeds, and the balance stays.
pub end_work-Balanced :
    (s : System) (w : TargetWorkPermit) (xs ys : List TargetWorkPermit)
    → Balanced s
    → s.works ≡ xs ++ w ∷ ys
    → (a : Admission) × (drop_work w s.admission ≡ ok a)
      × Balanced (record s { admission = a; works = xs ++ ys })
unfolding drop_work
end_work-Balanced s w xs ys b split =
    let one = λ (k : Bytes).
      ap (λ (ws : List TargetWorkPermit). held target_of ws k) split
      ∙ insert_named target_of xs w ys w.peer refl k in
    let (left, released, counted) =
      release-Counts s.admission.target_peers w.peer (held target_of (xs ++ ys))
        (held target_of s.works) b.targets_counted one in
    (
      record s.admission { target_peers = left; target_work = s.admission.target_work + 1 },
      rw released refl,
      record {
        global_eq = b.global_eq;
        contexts_eq = b.contexts_eq;
        work_eq = omega (arith, b.work_eq, ap length split, length-insert xs w ys);
        limit_eq = b.limit_eq;
        peers_counted = b.peers_counted;
        peers_bounded = b.peers_bounded;
        targets_counted = counted;
        targets_bounded =
            bounded_one_less 8 w.peer (held target_of (xs ++ ys)) (held target_of s.works) one
              b.targets_bounded;
      },
    )
