-- ===== src/Fangs/Tasks.antt =====
-- The child tasks of a Fang (`ChildTasks` and `FangCancellation` of
-- crates/werewolfd/src/fang_registry.rs). A task is a number, a shared tracker is a number that the
-- world maps to its state; the activation channel is not modelled, nor is the poisoning of a mutex.
use werewolfproxy.Shared.{ℕ, Bool, true, false, not, List, [], ◌∷◌, ◌++◌, ◌==◌, if◌then◌else◌}

-- `ChildTasks`
pub record ChildTasks : Type 0 where
  pub accepting : Bool
  pub handles : List ℕ

-- The trackers of child tasks, the tasks that have finished, and those that were aborted.
pub record World : Type 0 where
  pub children : ℕ → ChildTasks
  pub finished : ℕ → Bool
  pub aborted : List ℕ

unfoldable pub set_children : ℕ → ChildTasks → World → World
set_children c tasks w = record w { children = λ d. if d == c then tasks else w.children d }

-- `JoinHandle::abort`
abbrev pub abort : ℕ → World → World
abort t w = record w { aborted = w.aborted ++ t ∷ [] }

unfoldable pub abort_each : List ℕ → World → World
abort_each [] w = w
abort_each (t ∷ ts) w = abort_each ts (abort t w)

-- `retain(|child| !child.is_finished())`
unfoldable pub running : World → List ℕ → List ℕ
running w [] = []
running w (t ∷ ts) = let rest = running w ts in if w.finished t then rest else t ∷ rest

-- `FangCancellation::spawn` of the task `t`
unfoldable pub spawn : ℕ → ℕ → World → World × Bool
unfolding set_children running
spawn c t w = if not (w.children c).accepting then (w, false) else (
  set_children c (record (w.children c) { handles = running w (w.children c).handles ++ t ∷ [] }) w,
  true,
)

-- `FangCancellation::close_admission`
unfoldable pub close_admission : ℕ → World → World
unfolding set_children
close_admission c w = set_children c (record (w.children c) { accepting = false }) w

-- `FangCancellation::take_children`: the children, which the tracker has no more
unfoldable pub take_children : ℕ → World → World × List ℕ
unfolding set_children
take_children c w =
    (set_children c (record (w.children c) { handles = [] }) w, (w.children c).handles)

-- `FangCancellation::abort_children`
unfoldable pub abort_children : ℕ → World → World
unfolding close_admission take_children abort_each
abort_children c w = let taken = take_children c (close_admission c w) in abort_each taken.1 taken.0
