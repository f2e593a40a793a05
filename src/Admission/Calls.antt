-- ===== src/Admission/Calls.antt =====
-- A call on the admission that succeeds keeps the balance
-- (crates/werewolfd/src/admission.rs).
use werewolfproxy.Shared.{
  ℕ, suc, ◌+◌, ◌<◌, ◌≡◌, refl, sym, ap, ◌∙◌, subst, true, Option, none, some, List, [], ◌∷◌, ◌++◌,
  length, arith, ltb, ltb→lt,
}
use werewolfproxy.Shared.Bytes.{Bytes, bytes_eq}
use werewolfproxy.Shared.Results.{ok, >>=-eq-ok, ensure-bind-eq-ok, ok-injective}
use werewolfproxy.Handshake.Codes.{Str, require, fingerprint}
use werewolfproxy.Admission.Permits.{
  Admission, HandshakePermit, TargetWorkPermit, count_at, put, is_peer, is_none, try_acquire,
  handshake, quic_context, drop_context, authenticated, peer_work, permit_work,
}
use werewolfproxy.Admission.Balance.{
  held, one_if, count-entry, OneMore, put-Counts, System, peer_of, target_of,
}
use werewolfproxy.Admission.Numbers.{
  Balanced, try_acquire-eq-ok, length-insert, Counts-same, bounded-same, bounded-OneMore,
  insert_unnamed, insert_named,
}

pub enter-Balanced :
    (s : System) (a : Admission) (p : HandshakePermit)
    → Balanced s
    → handshake s.admission ≡ ok (a, p)
    → Balanced (record s { admission = a; handshakes = p ∷ s.handshakes })
unfolding handshake
enter-Balanced s a p b h =
    let (left, e, h1) = >>=-eq-ok (try_acquire s.admission.global) _ h in
    let acquired = try_acquire-eq-ok s.admission.global left e in
    let none_more = insert_unnamed peer_of [] (record { peer = none }) s.handshakes refl in
    subst
      (λ (x : Admission × HandshakePermit).
        Balanced (record s { admission = x.0; handshakes = x.1 ∷ s.handshakes }))
      (ok-injective h1)
      (record {
        global_eq = omega (arith, b.global_eq, acquired);
        contexts_eq = b.contexts_eq;
        work_eq = b.work_eq;
        limit_eq = b.limit_eq;
        peers_counted = Counts-same _ _ _ none_more b.peers_counted;
        peers_bounded = bounded-same 16 _ _ none_more b.peers_bounded;
        targets_counted = b.targets_counted;
        targets_bounded = b.targets_bounded;
      })

pub connect-Balanced :
    (s : System) (a : Admission)
    → Balanced s
    → quic_context s.admission ≡ ok a
    → Balanced (record s { admission = a; contexts = s.contexts + 1 })
unfolding quic_context
connect-Balanced s a b h =
    let (left, e, h1) = >>=-eq-ok (try_acquire s.admission.contexts) _ h in
    let acquired = try_acquire-eq-ok s.admission.contexts left e in
    subst (λ (x : Admission). Balanced (record s { admission = x; contexts = s.contexts + 1 }))
      (ok-injective h1)
      (record {
        global_eq = b.global_eq;
        contexts_eq = omega (arith, b.contexts_eq, acquired);
        work_eq = b.work_eq;
        limit_eq = b.limit_eq;
        peers_counted = b.peers_counted;
        peers_bounded = b.peers_bounded;
        targets_counted = b.targets_counted;
        targets_bounded = b.targets_bounded;
      })

pub disconnect-Balanced :
    (s : System) (n : ℕ)
    → Balanced s
    → s.contexts ≡ suc n
    → Balanced (record s { admission = drop_context s.admission; contexts = n })
unfolding drop_context
disconnect-Balanced s n b h = record {
  global_eq = b.global_eq;
  contexts_eq = omega (arith, b.contexts_eq, h);
  work_eq = b.work_eq;
  limit_eq = b.limit_eq;
  peers_counted = b.peers_counted;
  peers_bounded = b.peers_bounded;
  targets_counted = b.targets_counted;
  targets_bounded = b.targets_bounded;
}

-- What `authenticated` has checked, and what it makes.
record Authenticated (p : HandshakePermit) (a a' : Admission) (q : HandshakePermit) : Type 0 where
  key : Bytes
  unnamed : p.peer ≡ none
  room : count_at (a.peers key) < a.peer_limit
  made :
      ◌≡◌ {A = Admission × HandshakePermit}
        (a', q)
        (
          record a { peers = put key (some (count_at (a.peers key) + 1)) a.peers },
          record { peer = some key },
        )

is_none-true {ℓ} : {A : Type ℓ} (o : Option A) → is_none o ≡ true → o ≡ none
is_none-true none h = refl
is_none-true (some a) h = cc

authenticated-eq-ok :
    (p : HandshakePermit) (text : Str) (a a' : Admission) (q : HandshakePermit)
    → authenticated p text a ≡ ok (a', q)
    → Authenticated p a a' q
unfolding authenticated require
authenticated-eq-ok p text a a' q h =
    let (free, h1) = ensure-bind-eq-ok (is_none p.peer) _ _ h in
    let (key, e, h2) = >>=-eq-ok (fingerprint text) _ h1 in
    let (room, h3) = ensure-bind-eq-ok (ltb (count_at (a.peers key)) a.peer_limit) _ _ h2 in
    record {
      key = key;
      unnamed = is_none-true p.peer free;
      room = ltb→lt _ _ room;
      made = sym (ok-injective h3);
    }

pub authenticate-Balanced :
    (s : System) (a : Admission) (p q : HandshakePermit) (xs ys : List HandshakePermit) (text : Str)
    → Balanced s
    → s.handshakes ≡ xs ++ p ∷ ys
    → authenticated p text s.admission ≡ ok (a, q)
    → Balanced (record s { admission = a; handshakes = xs ++ q ∷ ys })
authenticate-Balanced s a p q xs ys text b split h =
    subst
      (λ (x : Admission × HandshakePermit).
        Balanced (record s { admission = x.0; handshakes = xs ++ x.1 ∷ ys }))
      (sym r.made)
      (record {
        global_eq = omega (
          arith,
          b.global_eq,
          ap length split,
          length-insert xs p ys,
          length-insert xs (record { peer = some r.key }) ys,
        );
        contexts_eq = b.contexts_eq;
        work_eq = b.work_eq;
        limit_eq = b.limit_eq;
        peers_counted =
            put-Counts s.admission.peers r.key (held peer_of s.handshakes) _ b.peers_counted one;
        peers_bounded =
            bounded-OneMore 16 r.key (held peer_of s.handshakes) _ one room b.peers_bounded;
        targets_counted = b.targets_counted;
        targets_bounded = b.targets_bounded;
      })
  where
    r : Authenticated p s.admission a q
    r = authenticated-eq-ok p text s.admission a q h

    before : (k : Bytes) → held peer_of s.handshakes k ≡ held peer_of (xs ++ ys) k
    before k =
        ap (λ (hs : List HandshakePermit). held peer_of hs k) split
        ∙ insert_unnamed peer_of xs p ys r.unnamed k

    one :
        OneMore r.key
          (held peer_of (xs ++ record { peer = some r.key } ∷ ys))
          (held peer_of s.handshakes)
    one k =
        insert_named peer_of xs (record { peer = some r.key }) ys r.key refl k
        ∙ ap (λ (n : ℕ). one_if (bytes_eq k r.key) + n) (sym (before k))

    room : held peer_of s.handshakes r.key < 16
    room = omega (
      arith,
      r.room,
      b.limit_eq,
      ap count_at (b.peers_counted r.key),
      count-entry (held peer_of s.handshakes r.key),
    )

-- What a start of target work has checked, and what it makes.
record Working (a a' : Admission) (w : TargetWorkPermit) : Type 0 where
  left : ℕ
  key : Bytes
  acquired : a.target_work ≡ suc left
  room : count_at (a.target_peers key) < 8
  made :
      ◌≡◌ {A = Admission × TargetWorkPermit}
        (a', w)
        (
          record a {
            target_work = left;
            target_peers = put key (some (count_at (a.target_peers key) + 1)) a.target_peers;
          },
          record { peer = key },
        )

permit_work-eq-ok :
    (p : HandshakePermit) (text : Str) (a a' : Admission) (w : TargetWorkPermit)
    → permit_work p text a ≡ ok (a', w)
    → Working a a' w
unfolding permit_work peer_work require
permit_work-eq-ok p text a a' w h =
    let (key, e, h1) = >>=-eq-ok (fingerprint text) _ h in
    let (same, h2) = ensure-bind-eq-ok (is_peer key p.peer) _ _ h1 in
    let (left, e1, h3) = >>=-eq-ok (try_acquire a.target_work) _ h2 in
    let (room, h4) = ensure-bind-eq-ok _ _ _ h3 in
    record {
      left = left;
      key = key;
      acquired = try_acquire-eq-ok a.target_work left e1;
      room = ltb→lt _ _ room;
      made = sym (ok-injective h4);
    }

pub start_work-Balanced :
    (s : System) (a : Admission) (p : HandshakePermit) (w : TargetWorkPermit) (text : Str)
    → Balanced s
    → permit_work p text s.admission ≡ ok (a, w)
    → Balanced (record s { admission = a; works = w ∷ s.works })
start_work-Balanced s a p w text b h =
    subst
      (λ (x : Admission × TargetWorkPermit).
        Balanced (record s { admission = x.0; works = x.1 ∷ s.works }))
      (sym r.made)
      (record {
        global_eq = b.global_eq;
        contexts_eq = b.contexts_eq;
        work_eq = omega (arith, b.work_eq, r.acquired);
        limit_eq = b.limit_eq;
        peers_counted = b.peers_counted;
        peers_bounded = b.peers_bounded;
        targets_counted =
            put-Counts s.admission.target_peers r.key (held target_of s.works) _ b.targets_counted
              one;
        targets_bounded =
            bounded-OneMore 8 r.key (held target_of s.works) _ one room b.targets_bounded;
      })
  where
    r : Working s.admission a w
    r = permit_work-eq-ok p text s.admission a w h

    one :
        OneMore r.key (held target_of (record { peer = r.key } ∷ s.works)) (held target_of s.works)
    one = insert_named target_of [] (record { peer = r.key }) s.works r.key refl

    room : held target_of s.works r.key < 8
    room = omega (
      arith,
      r.room,
      ap count_at (b.targets_counted r.key),
      count-entry (held target_of s.works r.key),
    )
