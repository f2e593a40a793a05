-- ===== src/Fangs/Closing.antt =====
-- No child task of a terminated Fang escapes (crates/werewolfd/src/fang_registry.rs).
use werewolfproxy.Shared.{
  ℕ, ◌≡◌, refl, sym, ap, ◌∙◌, subst, Bool, true, false, ◌||◌, Option, none, some, List, [], ◌∷◌,
  ◌++◌, ◌==◌, if◌then◌else◌, arith, Bool-cases, inl, inr,
}
use werewolfproxy.Shared.Bytes.{bytes_eq, bytes_eq_sound}
use werewolfproxy.Handshake.Codes.{Str}
use werewolfproxy.Fangs.Tasks.{
  ChildTasks, World, set_children, abort, abort_each, spawn, close_admission, take_children,
  abort_children,
}
use werewolfproxy.Fangs.Registry.{
  FangRegistry, put_at, has_id, ids_using_peer, without_id, abort_found, abort_children_found,
  release_ids, terminate_ids, terminate_peer,
}

abbrev pub has_task : ℕ → List ℕ → Bool
has_task t [] = false
has_task t (u ∷ us) = (t == u) || has_task t us

abbrev Closed : ℕ → World → Type 0
Closed c w = ((w.children c).accepting ≡ false) × ((w.children c).handles ≡ [])

-- The task is a child of the tracker still, or it was aborted.
abbrev Tracked : ℕ → ℕ → World → Type 0
Tracked c t w = has_task t (w.children c).handles || has_task t w.aborted ≡ true

pub has_task-append :
    (t : ℕ) (us vs : List ℕ) → has_task t (us ++ vs) ≡ has_task t us || has_task t vs
has_task-append t [] vs = refl
has_task-append t (u ∷ us) vs = ground (arith, has_task-append t us vs)

pub abort_each-children : (ts : List ℕ) (w : World) → (abort_each ts w).children ≡ w.children
unfolding abort_each
abort_each-children [] w = refl
abort_each-children (t ∷ ts) w = abort_each-children ts (abort t w)

pub has_task-abort_each :
    (u : ℕ) (ts : List ℕ) (w : World)
    → has_task u (abort_each ts w).aborted ≡ has_task u w.aborted || has_task u ts
unfolding abort_each
has_task-abort_each u [] w = ground arith
has_task-abort_each u (t ∷ ts) w =
    ground (arith, has_task-abort_each u ts (abort t w), has_task-append u w.aborted (t ∷ []))

abbrev taken_from : ℕ → World → World × List ℕ
taken_from c w = take_children c (close_admission c w)

taken_from-children :
    (c d : ℕ) (w : World)
    → (taken_from c w).0.children d
      ≡ (if d == c then record { accepting = false; handles = [] } else w.children d)
unfolding close_admission take_children set_children
taken_from-children c d w = ground arith

taken_from-handles : (c : ℕ) (w : World) → (taken_from c w).1 ≡ (w.children c).handles
unfolding close_admission take_children set_children
taken_from-handles c w = ground arith

taken_from-aborted : (c : ℕ) (w : World) → (taken_from c w).0.aborted ≡ w.aborted
unfolding close_admission take_children set_children
taken_from-aborted c w = refl

abort_children-children :
    (c d : ℕ) (w : World)
    → (abort_children c w).children d
      ≡ (if d == c then record { accepting = false; handles = [] } else w.children d)
unfolding abort_children
abort_children-children c d w =
    ap (λ (f : ℕ → ChildTasks). f d) (abort_each-children (taken_from c w).1 (taken_from c w).0)
    ∙ taken_from-children c d w

abort_children-aborted :
    (c u : ℕ) (w : World)
    → has_task u (abort_children c w).aborted
      ≡ has_task u w.aborted || has_task u (w.children c).handles
unfolding abort_children
abort_children-aborted c u w =
    has_task-abort_each u (taken_from c w).1 (taken_from c w).0
    ∙ ap (λ (ts : List ℕ). has_task u ts || has_task u (taken_from c w).1) (taken_from-aborted c w)
    ∙ ap (λ (ts : List ℕ). has_task u w.aborted || has_task u ts) (taken_from-handles c w)

-- a tracker after its own closing, and after that of another
closed_children :
    (d c : ℕ) (w : World)
    → (c == d) ≡ true
    → (abort_children d w).children c ≡ record { accepting = false; handles = [] }
closed_children d c w e =
    abort_children-children d c w
    ∙ ap (λ (b : Bool). if b then record { accepting = false; handles = [] } else w.children c) e

other_children :
    (d c : ℕ) (w : World) → (c == d) ≡ false → (abort_children d w).children c ≡ w.children c
other_children d c w e =
    abort_children-children d c w
    ∙ ap (λ (b : Bool). if b then record { accepting = false; handles = [] } else w.children c) e

pub ==-sound : (c d : ℕ) → (c == d) ≡ true → c ≡ d
==-sound c d h = ground arith

abort_children-Closed : (d c : ℕ) (w : World) → (c == d) ≡ true → Closed c (abort_children d w)
abort_children-Closed d c w e = (
  ap (λ (t : ChildTasks). t.accepting) (closed_children d c w e),
  ap (λ (t : ChildTasks). t.handles) (closed_children d c w e),
)

Closed-abort_children : (c d : ℕ) (w : World) → Closed c w → Closed c (abort_children d w)
Closed-abort_children c d w (a, h) = elim (Bool-cases (c == d)) [
  | inl e ↦ abort_children-Closed d c w e
  | inr e ↦ (
    ap (λ (t : ChildTasks). t.accepting) (other_children d c w e) ∙ a,
    ap (λ (t : ChildTasks). t.handles) (other_children d c w e) ∙ h,
  )
]

Tracked-abort_children : (c d t : ℕ) (w : World) → Tracked c t w → Tracked c t (abort_children d w)
Tracked-abort_children c d t w h = elim (Bool-cases (c == d)) [
  | inl e ↦ ground (
    arith,
    abort_children-aborted d t w,
    ap (λ (n : ℕ). has_task t (w.children n).handles) (==-sound c d e),
    ap (λ (x : ChildTasks). has_task t x.handles) (closed_children d c w e),
  )
  | inr e ↦ ground (
    arith,
    abort_children-aborted d t w,
    ap (λ (x : ChildTasks). has_task t x.handles) (other_children d c w e),
  )
]

Closed-found :
    (c : ℕ) (task tracker : Option ℕ) (w : World)
    → Closed c w
    → Closed c (abort_children_found tracker (abort_found task w))
Closed-found c none none w h = h
Closed-found c none (some d) w h = Closed-abort_children c d w h
Closed-found c (some u) none w h = h
Closed-found c (some u) (some d) w h = Closed-abort_children c d (abort u w) h

Tracked-abort : (c t u : ℕ) (w : World) → Tracked c t w → Tracked c t (abort u w)
Tracked-abort c t u w h = ground (arith, has_task-append t w.aborted (u ∷ []))

Tracked-found :
    (c t : ℕ) (task tracker : Option ℕ) (w : World)
    → Tracked c t w
    → Tracked c t (abort_children_found tracker (abort_found task w))
Tracked-found c t none none w h = h
Tracked-found c t none (some d) w h = Tracked-abort_children c d t w h
Tracked-found c t (some u) none w h = Tracked-abort c t u w h
Tracked-found c t (some u) (some d) w h =
    Tracked-abort_children c d t (abort u w) (Tracked-abort c t u w h)

Closed-release_ids :
    (c : ℕ) (ids : List Str) (r : FangRegistry) (w : World)
    → Closed c w
    → Closed c (release_ids ids r w).1
unfolding release_ids
Closed-release_ids c [] r w h = h
Closed-release_ids c (id ∷ ids) r w h =
    Closed-release_ids c ids (without_id id r) _
      (Closed-found c (r.tasks id) (r.cancellations id) w h)

Tracked-release_ids :
    (c t : ℕ) (ids : List Str) (r : FangRegistry) (w : World)
    → Tracked c t w
    → Tracked c t (release_ids ids r w).1
unfolding release_ids
Tracked-release_ids c t [] r w h = h
Tracked-release_ids c t (id ∷ ids) r w h =
    Tracked-release_ids c t ids (without_id id r) _
      (Tracked-found c t (r.tasks id) (r.cancellations id) w h)

pub without_id-other :
    (id k : Str) (r : FangRegistry)
    → bytes_eq k id ≡ false
    → (without_id id r).cancellations k ≡ r.cancellations k
unfolding without_id put_at
without_id-other id k r h = ap (λ (b : Bool). if b then none else r.cancellations k) h

found-Closed :
    (c : ℕ) (task tracker : Option ℕ) (w : World)
    → tracker ≡ some c
    → Closed c (abort_children_found tracker (abort_found task w))
found-Closed c task tracker w e =
    subst (λ (o : Option ℕ). Closed c (abort_children_found o (abort_found task w))) (sym e)
      (abort_children-Closed c c (abort_found task w) (ground arith))

release_ids-Closed :
    (c : ℕ) (k : Str) (ids : List Str) (r : FangRegistry) (w : World)
    → has_id k ids ≡ true
    → r.cancellations k ≡ some c
    → Closed c (release_ids ids r w).1
unfolding release_ids has_id
release_ids-Closed c k [] r w h e = cc
release_ids-Closed c k (id ∷ ids) r w h e = elim (Bool-cases (bytes_eq k id)) [
  | inl same ↦
      let here = ap r.cancellations (sym (bytes_eq_sound k id same)) ∙ e in
      Closed-release_ids c ids (without_id id r) _
        (found-Closed c (r.tasks id) (r.cancellations id) w here)
  | inr other ↦
      release_ids-Closed c k ids (without_id id r) _ (later h other)
        (without_id-other id k r other ∙ e)
]
  where
    later : bytes_eq k id || has_id k ids ≡ true → bytes_eq k id ≡ false → has_id k ids ≡ true
    later a b = ground arith

spawn-Closed : (c t : ℕ) (w : World) → Closed c w → spawn c t w ≡ (w, false)
unfolding spawn
spawn-Closed c t w (a, h) = rw a refl

Closed-aborted : (c t : ℕ) (w : World) → Closed c w → Tracked c t w → has_task t w.aborted ≡ true
Closed-aborted c t w (a, h) tracked =
    ap (λ (ts : List ℕ). has_task t ts || has_task t w.aborted) (sym h) ∙ tracked

-- No child task escapes the termination of a peer: for each Fang that used the peer, every child
-- that its tracker held has been aborted, the tracker holds none any more, and it refuses every
-- child that a listener still tries to spawn.
pub terminate_peer_closed :
    (peer id : Str) (c : ℕ) (r : FangRegistry) (w : World)
    → has_id id (ids_using_peer r peer) ≡ true
    → r.cancellations id ≡ some c
    → let after = (terminate_peer peer r w).1 in
      ((t : ℕ) → has_task t (w.children c).handles ≡ true → has_task t after.aborted ≡ true)
      × ((after.children c).handles ≡ [])
      × ((t : ℕ) → spawn c t after ≡ (after, false))
unfolding terminate_peer terminate_ids
terminate_peer_closed peer id c r w h e =
    let ids = ids_using_peer r peer in
    let closed = release_ids-Closed c id ids r w h e in
    (
      (λ t held.
          Closed-aborted c t (release_ids ids r w).1 closed
            (Tracked-release_ids c t ids r w (tracked t held))),
      closed.1,
      λ t. spawn-Closed c t (release_ids ids r w).1 closed,
    )
  where
    tracked : (t : ℕ) → has_task t (w.children c).handles ≡ true → Tracked c t w
    tracked t held = ground arith
