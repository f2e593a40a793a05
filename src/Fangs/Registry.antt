-- ===== src/Fangs/Registry.antt =====
-- `FangRegistry` and `FangTermination` (crates/werewolfd/src/fang_registry.rs). A map is a function
-- from identifiers; the awaiting of tasks that were aborted is not modelled.
use werewolfproxy.Shared.{
  ℕ, ◌+◌, Bool, true, false, ◌&&◌, ◌||◌, Option, none, some, List, [], ◌∷◌, ◌++◌, length,
  if◌then◌else◌,
}
use werewolfproxy.Shared.Bytes.{bytes_eq}
use werewolfproxy.Handshake.Codes.{Str}
use werewolfproxy.Fangs.Tasks.{
  World, abort, abort_each, close_admission, take_children, abort_children,
}

-- `FangState` (crates/werewolf-core/src/fang.rs)
pub data FangState : Type 0 where
  opening active closed : FangState

-- `FangRecord` (crates/werewolf-core/src/fang.rs)
pub record FangRecord : Type 0 where
  pub id : Str
  pub peer : Str
  pub local : Str
  pub remote : Str
  pub state : FangState

pub record Started : Type 0 where
  pub at : ℕ
  pub transport : Str
  pub also_uses : List Str

abbrev pub MapOf : Type 0 → Type 0
MapOf A = Str → Option A

unfoldable pub put_at : {A : Type 0} → Str → Option A → MapOf A → MapOf A
put_at id value map = λ k. if bytes_eq k id then value else map k

pub record FangRegistry : Type 0 where
  pub fangs : List FangRecord
  pub tasks : MapOf ℕ
  pub started : MapOf Started
  pub cancellations : MapOf ℕ

-- `ids.contains(&id)`
unfoldable pub has_id : Str → List Str → Bool
has_id id [] = false
has_id id (k ∷ ks) = bytes_eq id k || has_id id ks

-- `started.get(&fang.id).is_some_and(|started| started.also_uses.iter().any(..))`
unfoldable pub also_uses_peer : Str → Option Started → Bool
unfolding has_id
also_uses_peer peer none = false
also_uses_peer peer (some s) = has_id peer s.also_uses

-- the filter of `ids_using_peer`
unfoldable pub uses_peer : MapOf Started → Str → FangRecord → Bool
unfolding also_uses_peer
uses_peer started peer f = bytes_eq f.peer peer || also_uses_peer peer (started f.id)

-- `ids_using_peer`
unfoldable pub ids_of_users : MapOf Started → Str → List FangRecord → List Str
unfolding uses_peer
ids_of_users started peer [] = []
ids_of_users started peer (f ∷ fs) =
    let rest = ids_of_users started peer fs in
    if uses_peer started peer f then f.id ∷ rest else rest

unfoldable pub ids_using_peer : FangRegistry → Str → List Str
unfolding ids_of_users
ids_using_peer r peer = ids_of_users r.started peer r.fangs

-- `retain(|fang| !ids.contains(&fang.id))`
unfoldable pub retain_others : List Str → List FangRecord → List FangRecord
unfolding has_id
retain_others ids [] = []
retain_others ids (f ∷ fs) =
    let rest = retain_others ids fs in if has_id f.id ids then rest else f ∷ rest

abbrev pub abort_found : Option ℕ → World → World
abort_found none w = w
abort_found (some t) w = abort t w

abbrev pub abort_children_found : Option ℕ → World → World
abort_children_found none w = w
abort_children_found (some c) w = abort_children c w

-- the maps without the entries of an identifier
unfoldable pub without_id : Str → FangRegistry → FangRegistry
unfolding put_at
without_id id r = record r {
  tasks = put_at id none r.tasks;
  started = put_at id none r.started;
  cancellations = put_at id none r.cancellations;
}

-- the loop of `terminate_peer` and of `terminate_ids`
unfoldable pub release_ids : List Str → FangRegistry → World → FangRegistry × World
unfolding without_id abort_children
release_ids [] r w = (r, w)
release_ids (id ∷ ids) r w =
    release_ids ids (without_id id r)
      (abort_children_found (r.cancellations id) (abort_found (r.tasks id) w))

-- `terminate_ids`: with the number of them
unfoldable pub terminate_ids : List Str → FangRegistry → World → FangRegistry × World × ℕ
unfolding release_ids retain_others
terminate_ids ids r w =
    let released = release_ids ids r w in
    (record (released.0) { fangs = retain_others ids released.0.fangs }, released.1, length ids)

-- `terminate_peer`
unfoldable pub terminate_peer : Str → FangRegistry → World → FangRegistry × World × ℕ
unfolding terminate_ids ids_using_peer
terminate_peer peer r w = terminate_ids (ids_using_peer r peer) r w

-- `FangTermination`
pub record FangTermination : Type 0 where
  pub listeners : List ℕ
  pub cancellations : List ℕ
  pub closed_count : ℕ

-- `fangs.iter().any(|fang| &fang.id == id)`
unfoldable pub any_record : Str → List FangRecord → Bool
any_record id [] = false
any_record id (f ∷ fs) = bytes_eq f.id id || any_record id fs

abbrev pub listed : Option ℕ → List ℕ
listed none = []
listed (some t) = t ∷ []

abbrev pub close_found : Option ℕ → World → World
close_found none w = w
close_found (some c) w = close_admission c w

-- the loop of `detach_ids`
unfoldable pub detach_each :
    List Str → FangRegistry → World → FangTermination → FangRegistry × World × FangTermination
unfolding any_record without_id close_admission
detach_each [] r w t = (r, w, t)
detach_each (id ∷ ids) r w t =
    detach_each ids (without_id id r) (close_found (r.cancellations id) w) (record {
      listeners = t.listeners ++ listed (r.tasks id);
      cancellations = t.cancellations ++ listed (r.cancellations id);
      closed_count = if any_record id r.fangs then t.closed_count + 1 else t.closed_count;
    })

-- `detach_ids`
unfoldable pub detach_ids : List Str → FangRegistry → World → FangRegistry × World × FangTermination
unfolding detach_each retain_others
detach_ids ids r w =
    let detached =
      detach_each ids r w (record { listeners = []; cancellations = []; closed_count = 0 }) in
    (record (detached.0) { fangs = retain_others ids detached.0.fangs }, detached.1, detached.2)

-- the children that the trackers hold, which they have no more
unfoldable pub take_all : List ℕ → World → World × List ℕ
unfolding take_children
take_all [] w = (w, [])
take_all (c ∷ cs) w =
    let taken = take_children c w in let rest = take_all cs taken.0 in (rest.0, taken.1 ++ rest.1)

-- `FangTermination::quiesce`
unfoldable pub quiesce : FangTermination → World → World
unfolding take_all abort_each
quiesce t w =
    let taken = take_all t.cancellations (abort_each t.listeners w) in abort_each taken.1 taken.0

-- `push`
unfoldable pub push : FangRecord → FangRegistry → FangRegistry
push f r = record r { fangs = r.fangs ++ f ∷ [] }

-- `insert_task`, `insert_started` and `insert_cancellation`
unfoldable pub insert_task : Str → ℕ → FangRegistry → FangRegistry
unfolding put_at
insert_task id t r = record r { tasks = put_at id (some t) r.tasks }

unfoldable pub insert_started : Str → ℕ → Str → List Str → FangRegistry → FangRegistry
unfolding put_at
insert_started id at transport also_uses r = record r {
  started =
      put_at id (some (record { at = at; transport = transport; also_uses = also_uses })) r.started;
}

unfoldable pub insert_cancellation : Str → ℕ → FangRegistry → FangRegistry
unfolding put_at
insert_cancellation id c r = record r { cancellations = put_at id (some c) r.cancellations }

-- `find_id`
unfoldable pub find_id : Str → List FangRecord → Option FangRecord
find_id id [] = none
find_id id (f ∷ fs) = let rest = find_id id fs in if bytes_eq f.id id then some f else rest

abbrev is_active : FangState → Bool
is_active FangState.opening = false
is_active FangState.active = true
is_active FangState.closed = false

-- `has_active_local`
unfoldable pub has_active_local : Str → List FangRecord → Bool
has_active_local text [] = false
has_active_local text (f ∷ fs) =
    (bytes_eq f.local text && is_active f.state) || has_active_local text fs

-- the loop of `remove_finished`
unfoldable pub forget_ids : List Str → FangRegistry → FangRegistry
unfolding without_id
forget_ids [] r = r
forget_ids (id ∷ ids) r = forget_ids ids (without_id id r)

-- `remove_finished`
unfoldable pub remove_finished : List Str → FangRegistry → FangRegistry
unfolding forget_ids retain_others
remove_finished ids r = record (forget_ids ids r) {
  fangs = retain_others ids (forget_ids ids r).fangs;
}
