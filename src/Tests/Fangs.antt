-- ===== src/Tests/Fangs.antt =====
-- A run of the registry of Fangs (crates/werewolfd/src/fang_registry.rs): two Fangs, one of which
-- uses the peer that is terminated as its relay.
use werewolfproxy.Shared.{ℕ, ◌≡◌, refl, true, false, none, some, [], ◌∷◌, length}
use werewolfproxy.Shared.Ascii.{ascii}
use werewolfproxy.Shared.Bytes.{bytes_eq}
use werewolfproxy.Fangs.Tasks.{World, spawn}
use werewolfproxy.Fangs.Registry.{
  detach_ids, quiesce, FangRegistry, FangRecord, FangState, put_at, has_id, also_uses_peer,
  uses_peer, ids_of_users, ids_using_peer, retain_others, terminate_peer,
}
use werewolfproxy.Fangs.Termination.{Forgotten, terminate_peer_lem}
use werewolfproxy.Fangs.Detaching.{quiesce-detach_ids}
use werewolfproxy.Fangs.Closing.{has_task, terminate_peer_closed}

abbrev direct : FangRecord
direct = record {
  id = ascii "a";
  peer = ascii "wolf";
  local = ascii "127.0.0.1:1";
  remote = ascii "127.0.0.1:2";
  state = FangState.active;
}

abbrev relayed : FangRecord
relayed = record direct { id = ascii "b"; peer = ascii "fox" }

abbrev registry : FangRegistry
registry = record {
  fangs = direct ∷ relayed ∷ [];
  tasks = λ id. some 1;
  started = λ id. some (record { at = 0; transport = ascii "tcp"; also_uses = ascii "owl" ∷ [] });
  cancellations = put_at (ascii "b") (some 5) (λ id. none);
}

abbrev world : World
world = record {
  children = λ c. record { accepting = true; handles = 11 ∷ 12 ∷ [] };
  finished = λ t. false;
  aborted = [];
}

terminate_peer_lem_example :
    let after = terminate_peer (ascii "owl") registry world in
    let ids = ids_using_peer registry (ascii "owl") in
    (ids_using_peer after.0 (ascii "owl") ≡ [])
    × Forgotten ids registry.tasks after.0.tasks
    × Forgotten ids registry.started after.0.started
    × Forgotten ids registry.cancellations after.0.cancellations
    × (after.0.fangs ≡ retain_others ids registry.fangs)
    × (after.2 ≡ length ids)
terminate_peer_lem_example = terminate_peer_lem (ascii "owl") registry world

users_run : ids_using_peer registry (ascii "fox") ≡ ascii "b" ∷ []
unfolding ids_using_peer ids_of_users uses_peer also_uses_peer has_id bytes_eq
users_run = refl

uses_fox : has_id (ascii "b") (ids_using_peer registry (ascii "fox")) ≡ true
unfolding ids_using_peer ids_of_users uses_peer also_uses_peer has_id bytes_eq
uses_fox = refl

tracker_run : registry.cancellations (ascii "b") ≡ some 5
unfolding put_at bytes_eq
tracker_run = refl

terminate_peer_closed_example :
    let after = (terminate_peer (ascii "fox") registry world).1 in
    ((t : ℕ) → has_task t (world.children 5).handles ≡ true → has_task t after.aborted ≡ true)
    × ((after.children 5).handles ≡ [])
    × ((t : ℕ) → spawn 5 t after ≡ (after, false))
terminate_peer_closed_example =
    terminate_peer_closed (ascii "fox") (ascii "b") 5 registry world uses_fox tracker_run

one_id : has_id (ascii "b") (ascii "b" ∷ []) ≡ true
unfolding has_id bytes_eq
one_id = refl

quiesce-detach_ids_example :
    let detached = detach_ids (ascii "b" ∷ []) registry world in
    let after = quiesce detached.2 detached.1 in
    ((t : ℕ) → spawn 5 t detached.1 ≡ (detached.1, false))
    × ((t : ℕ) → has_task t (world.children 5).handles ≡ true → has_task t after.aborted ≡ true)
    × ((after.children 5).handles ≡ [])
quiesce-detach_ids_example =
    quiesce-detach_ids (ascii "b" ∷ []) (ascii "b") 5 registry world one_id tracker_run
