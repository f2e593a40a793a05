-- ===== src/Fangs/Detaching.antt =====
-- No child task of a detached Fang escapes (crates/werewolfd/src/fang_registry.rs: `detach_ids`, and
-- `quiesce` of what it returns).
use werewolfproxy.Shared.{
  ℕ, ◌≡◌, refl, sym, ap, ◌∙◌, subst, Bool, true, false, ◌||◌, Option, none, some, List, [], ◌∷◌,
  ◌++◌, ◌==◌, arith, Bool-cases, inl, inr,
}
use werewolfproxy.Shared.Bytes.{bytes_eq, bytes_eq_sound}
use werewolfproxy.Handshake.Codes.{Str}
use werewolfproxy.Fangs.Tasks.{
  ChildTasks, World, set_children, abort_each, spawn, close_admission, take_children,
}
use werewolfproxy.Fangs.Registry.{
  FangRegistry, FangTermination, has_id, without_id, listed, close_found, detach_each, detach_ids,
  take_all, quiesce,
}
use werewolfproxy.Fangs.Closing.{
  has_task, has_task-append, abort_each-children, has_task-abort_each, ==-sound, without_id-other,
}

closed-handles :
    (d c : ℕ) (w : World) → ((close_admission d w).children c).handles ≡ (w.children c).handles
unfolding close_admission set_children
closed-handles d c w = elim (Bool-cases (c == d)) [
  | inl e ↦ rw e (ap (λ (n : ℕ). (w.children n).handles) (sym (==-sound c d e)))
  | inr e ↦ rw e refl
]

closed_shut : (c : ℕ) (w : World) → ((close_admission c w).children c).accepting ≡ false
unfolding close_admission set_children
closed_shut c w = ground arith

shut_closed :
    (d c : ℕ) (w : World)
    → (w.children c).accepting ≡ false
    → ((close_admission d w).children c).accepting ≡ false
unfolding close_admission set_children
shut_closed d c w h = elim (Bool-cases (c == d)) [ inl e ↦ rw e refl | inr e ↦ rw e h ]

found-handles :
    (o : Option ℕ) (c : ℕ) (w : World)
    → ((close_found o w).children c).handles ≡ (w.children c).handles
found-handles none c w = refl
found-handles (some d) c w = closed-handles d c w

found_shut :
    (o : Option ℕ) (c : ℕ) (w : World)
    → (w.children c).accepting ≡ false
    → ((close_found o w).children c).accepting ≡ false
found_shut none c w h = h
found_shut (some d) c w h = shut_closed d c w h

has_task-left : (c : ℕ) (us vs : List ℕ) → has_task c us ≡ true → has_task c (us ++ vs) ≡ true
has_task-left c us vs h = ground (arith, has_task-append c us vs)

has_task-right : (c : ℕ) (us vs : List ℕ) → has_task c vs ≡ true → has_task c (us ++ vs) ≡ true
has_task-right c us vs h = ground (arith, has_task-append c us vs)

listed-some : (c : ℕ) (o : Option ℕ) → o ≡ some c → has_task c (listed o) ≡ true
listed-some c none h = cc
listed-some c (some d) h = ground (arith, h)

-- What detaching leaves of a tracker, whichever identifiers are detached.
detach_each-handles :
    (c : ℕ) (ids : List Str) (r : FangRegistry) (w : World) (t : FangTermination)
    → ((detach_each ids r w t).1.children c).handles ≡ (w.children c).handles
unfolding detach_each
detach_each-handles c [] r w t = refl
detach_each-handles c (id ∷ ids) r w t =
    detach_each-handles c ids (without_id id r) _ _ ∙ found-handles (r.cancellations id) c w

detach_each_shut :
    (c : ℕ) (ids : List Str) (r : FangRegistry) (w : World) (t : FangTermination)
    → (w.children c).accepting ≡ false
    → ((detach_each ids r w t).1.children c).accepting ≡ false
unfolding detach_each
detach_each_shut c [] r w t h = h
detach_each_shut c (id ∷ ids) r w t h =
    detach_each_shut c ids (without_id id r) _ _ (found_shut (r.cancellations id) c w h)

detach_each_kept :
    (c : ℕ) (ids : List Str) (r : FangRegistry) (w : World) (t : FangTermination)
    → has_task c t.cancellations ≡ true
    → has_task c (detach_each ids r w t).2.cancellations ≡ true
unfolding detach_each
detach_each_kept c [] r w t h = h
detach_each_kept c (id ∷ ids) r w t h =
    detach_each_kept c ids (without_id id r) _ _
      (has_task-left c t.cancellations (listed (r.cancellations id)) h)

found_some_shut :
    (c : ℕ) (o : Option ℕ) (w : World)
    → o ≡ some c
    → ((close_found o w).children c).accepting ≡ false
found_some_shut c o w e =
    subst (λ (x : Option ℕ). ((close_found x w).children c).accepting ≡ false) (sym e)
      (closed_shut c w)

detach_each_found :
    (c : ℕ) (k : Str) (ids : List Str) (r : FangRegistry) (w : World) (t : FangTermination)
    → has_id k ids ≡ true
    → r.cancellations k ≡ some c
    → (((detach_each ids r w t).1.children c).accepting ≡ false)
      × (has_task c (detach_each ids r w t).2.cancellations ≡ true)
unfolding detach_each has_id
detach_each_found c k [] r w t h e = cc
detach_each_found c k (id ∷ ids) r w t h e = elim (Bool-cases (bytes_eq k id)) [
  | inl same ↦
      let here = ap r.cancellations (sym (bytes_eq_sound k id same)) ∙ e in
      (
        detach_each_shut c ids (without_id id r) _ _
            (found_some_shut c (r.cancellations id) w here),
        detach_each_kept c ids (without_id id r) _ _ (
            has_task-right c t.cancellations (listed (r.cancellations id))
              (listed-some c (r.cancellations id) here)),
      )
  | inr other ↦
      detach_each_found c k ids (without_id id r) _ _ (later h other)
        (without_id-other id k r other ∙ e)
]
  where
    later : bytes_eq k id || has_id k ids ≡ true → bytes_eq k id ≡ false → has_id k ids ≡ true
    later a b = ground arith

taken_same :
    (d c : ℕ) (w : World) → (c == d) ≡ true → ((take_children d w).0.children c).handles ≡ []
unfolding take_children set_children
taken_same d c w e = rw e refl

taken_other :
    (d c : ℕ) (w : World) → (c == d) ≡ false → (take_children d w).0.children c ≡ w.children c
unfolding take_children set_children
taken_other d c w e = rw e refl

taken-handles : (d : ℕ) (w : World) → (take_children d w).1 ≡ (w.children d).handles
unfolding take_children
taken-handles d w = refl

taken_empty :
    (d c : ℕ) (w : World)
    → (w.children c).handles ≡ []
    → ((take_children d w).0.children c).handles ≡ []
taken_empty d c w h = elim (Bool-cases (c == d)) [
  | inl e ↦ taken_same d c w e
  | inr e ↦ ap (λ (x : ChildTasks). x.handles) (taken_other d c w e) ∙ h
]

take_all_empty :
    (c : ℕ) (cs : List ℕ) (w : World)
    → (w.children c).handles ≡ []
    → ((take_all cs w).0.children c).handles ≡ []
unfolding take_all
take_all_empty c [] w h = h
take_all_empty c (d ∷ cs) w h = take_all_empty c cs _ (taken_empty d c w h)

take_all_found :
    (c : ℕ) (cs : List ℕ) (w : World)
    → has_task c cs ≡ true
    → (((take_all cs w).0.children c).handles ≡ [])
      × ((u : ℕ) → has_task u (w.children c).handles ≡ true → has_task u (take_all cs w).1 ≡ true)
unfolding take_all
take_all_found c [] w h = cc
take_all_found c (d ∷ cs) w h = elim (Bool-cases (c == d)) [
  | inl e ↦ (
    take_all_empty c cs _ (taken_same d c w e),
    λ u held. has_task-left u (take_children d w).1 _ (
        ap (has_task u) (taken-handles d w)
        ∙ ap (λ (n : ℕ). has_task u (w.children n).handles) (sym (==-sound c d e))
        ∙ held),
  )
  | inr e ↦
      let (none_left, all) = take_all_found c cs (take_children d w).0 (later h e) in
      (
        none_left,
        λ u held.
            has_task-right u (take_children d w).1 _
              (all u (ap (λ (x : ChildTasks). has_task u x.handles) (taken_other d c w e) ∙ held)),
      )
]
  where
    later : (c == d) || has_task c cs ≡ true → (c == d) ≡ false → has_task c cs ≡ true
    later a b = ground arith

quiesce_closed :
    (c : ℕ) (t : FangTermination) (w : World)
    → has_task c t.cancellations ≡ true
    → (((quiesce t w).children c).handles ≡ [])
      × ((u : ℕ)
          → has_task u (w.children c).handles ≡ true
          → has_task u (quiesce t w).aborted ≡ true)
unfolding quiesce
quiesce_closed c t w h =
    let started = abort_each t.listeners w in
    let taken = take_all t.cancellations started in
    let same = abort_each-children t.listeners w in
    let (none_left, all) = take_all_found c t.cancellations started h in
    (
      ap (λ (f : ℕ → ChildTasks). (f c).handles) (abort_each-children taken.1 taken.0) ∙ none_left,
      λ u held.
          has_task-abort_each u taken.1 taken.0
          ∙ or_right (has_task u taken.0.aborted) (has_task u taken.1)
              (all u (ap (λ (f : ℕ → ChildTasks). has_task u (f c).handles) same ∙ held)),
    )
  where
    or_right : (a b : Bool) → b ≡ true → a || b ≡ true
    or_right a b e = ground arith

spawn_shut : (c t : ℕ) (w : World) → (w.children c).accepting ≡ false → spawn c t w ≡ (w, false)
unfolding spawn
spawn_shut c t w a = rw a refl

-- No child task escapes the detaching of Fangs: once `detach_ids` has returned, the tracker of each of
-- these Fangs refuses every further child, and when what it returned has quiesced, every child that
-- the tracker held has been aborted and the tracker holds none.
pub quiesce-detach_ids :
    (ids : List Str) (id : Str) (c : ℕ) (r : FangRegistry) (w : World)
    → has_id id ids ≡ true
    → r.cancellations id ≡ some c
    → let detached = detach_ids ids r w in
      let after = quiesce detached.2 detached.1 in
      ((t : ℕ) → spawn c t detached.1 ≡ (detached.1, false))
      × ((t : ℕ) → has_task t (w.children c).handles ≡ true → has_task t after.aborted ≡ true)
      × ((after.children c).handles ≡ [])
unfolding detach_ids
quiesce-detach_ids ids id c r w h e =
    let start : FangTermination = record { listeners = []; cancellations = []; closed_count = 0 } in
    let out = detach_each ids r w start in
    let (shut, found) = detach_each_found c id ids r w start h e in
    let (none_left, all) = quiesce_closed c out.2 out.1 found in
    (
      λ t. spawn_shut c t out.1 shut,
      λ t held. all t (ap (has_task t) (detach_each-handles c ids r w start) ∙ held),
      none_left,
    )
