-- ===== src/Tests/Governance.antt =====
-- Runs of crates/werewolf-core/src/governance.rs on the small network.
use werewolfproxy.Shared.{
  ℕ, ◌+◌, ◌≡◌, ◌⊎◌, inr, ◌↔◌, refl, true, false, none, some, List, [], ◌∷◌, arith, get_elem?,
}
use werewolfproxy.Shared.Bytes.{bytes_eq, bytes_lt}
use werewolfproxy.Shared.Sorted.{contains, binary_search, insert_key, remove_key, increasing}
use werewolfproxy.Shared.Results.{ok, err}
use werewolfproxy.Governance.Types.{Key, Hash, Body, Outcome, GovError, refused, panicked}
use werewolfproxy.Governance.Encoding.{
  from_be, hash, encode_core, be_bytes, kind, encode_body, encode_keys,
}
use werewolfproxy.Governance.Rules.{
  check_signatures, verify_entries, strong_key, genesis_keys, check_genesis, check_admission,
  admissible_keys, check_revocation, valid_points, distinct_from,
}
use werewolfproxy.Governance.Chain.{
  apply, apply_first, apply_genesis, apply_next, on_dead, on_recorded, body_effect, extend, keys,
  keys_before, last?, last_before, revoke_keys, admit_keys, admits,
}
use werewolfproxy.Governance.HeadCheck.{
  check, first_at_zero, epochs_increase, all_full, none_revoked, PeerRecord, TrustLevel,
}
use werewolfproxy.Governance.WellFormed.{IsWellFormed, FitsMemory, check_iff}
use werewolfproxy.Governance.Invariant.{apply-check}
use werewolfproxy.Governance.Authority.{
  Authorised, applied-Authorised, fork-Authorised, check_signatures_iff,
}
use werewolfproxy.Governance.History.{
  Reaches, here, step_applied, step_fork, IsLater, Reaches-IsLater, death_is_final,
  fenced_until_death,
}
use werewolfproxy.Governance.Members.{revoked_never_admitted}
use werewolfproxy.Governance.Replay.{apply-apply}
use werewolfproxy.Governance.Total.{apply-no_panic}
use werewolfproxy.Tests.Network.{
  crypto, first_keys, member, newcomer, genesis_statement, genesis_head, activation_statement,
  active_head, admission_statement, member_head, revocation_statement, revoked_head,
  second_admission, last_head, conflicting_statement, fenced_head, death_statement, dead_head,
  statement,
}

run_genesis :
    apply crypto none genesis_statement (some genesis_head.hash) ≡ ok (Outcome.applied genesis_head)
unfolding apply apply_first apply_genesis check_genesis genesis_keys strong_key check_signatures
    verify_entries contains bytes_eq hash from_be encode_core be_bytes encode_body encode_keys kind
    apply_next extend keys last? body_effect
run_genesis = refl

run_activation :
    apply crypto (some genesis_head) activation_statement none ≡ ok (Outcome.applied active_head)
unfolding apply apply_first apply_genesis check_genesis genesis_keys strong_key check_signatures
    verify_entries contains bytes_eq hash from_be encode_core be_bytes encode_body encode_keys kind
    apply_next extend keys last? body_effect
run_activation = refl

run_admission :
    apply crypto (some active_head) admission_statement none ≡ ok (Outcome.applied member_head)
unfolding apply apply_first apply_genesis check_genesis genesis_keys strong_key check_signatures
    verify_entries contains bytes_eq hash from_be encode_core be_bytes encode_body encode_keys kind
    apply_next extend keys last? body_effect check_admission increasing admissible_keys
    binary_search admit_keys
run_admission = refl

run_revocation :
    apply crypto (some member_head) revocation_statement none ≡ ok (Outcome.applied revoked_head)
unfolding apply apply_first apply_genesis check_genesis genesis_keys strong_key check_signatures
    verify_entries contains bytes_eq hash from_be encode_core be_bytes encode_body encode_keys kind
    apply_next extend keys last? body_effect check_revocation increasing valid_points revoke_keys
    insert_key remove_key bytes_lt
run_revocation = refl

run_second_admission :
    apply crypto (some revoked_head) second_admission none ≡ ok (Outcome.applied last_head)
unfolding apply apply_first apply_genesis check_genesis genesis_keys strong_key check_signatures
    verify_entries contains bytes_eq hash from_be encode_core be_bytes encode_body encode_keys kind
    apply_next extend keys last? body_effect check_admission increasing admissible_keys
    binary_search bytes_lt admit_keys
run_second_admission = refl

run_death : apply crypto (some fenced_head) death_statement none ≡ ok (Outcome.applied dead_head)
unfolding apply apply_first apply_genesis check_genesis genesis_keys strong_key check_signatures
    verify_entries contains bytes_eq hash from_be encode_core be_bytes encode_body encode_keys kind
    apply_next extend keys last? body_effect
run_death = refl

run_conflict :
    apply crypto (some last_head) conflicting_statement none ≡ ok (Outcome.fork fenced_head)
unfolding apply apply_first apply_genesis check_genesis genesis_keys strong_key check_signatures
    verify_entries contains bytes_eq hash from_be encode_core be_bytes encode_body encode_keys kind
    apply_next extend keys last? body_effect on_recorded keys_before last_before
run_conflict = refl

run_fenced :
    apply crypto (some fenced_head) (statement 5 last_head.hash Body.activation) none
    ≡ err (refused GovError.forked)
unfolding apply apply_first apply_genesis check_genesis genesis_keys strong_key check_signatures
    verify_entries contains bytes_eq hash from_be encode_core be_bytes encode_body encode_keys kind
    apply_next extend keys last? body_effect
run_fenced = refl

run_behind_death :
    apply crypto (some dead_head) (statement 6 dead_head.hash Body.activation) none
    ≡ err (refused GovError.terminal)
unfolding apply apply_first apply_genesis check_genesis genesis_keys strong_key check_signatures
    verify_entries contains bytes_eq hash from_be encode_core be_bytes encode_body encode_keys kind
    apply_next extend keys last? body_effect on_dead
run_behind_death = refl

check-genesis_head : check genesis_head ≡ true
unfolding check first_at_zero epochs_increase all_full none_revoked last? distinct_from contains
    bytes_eq hash from_be encode_core be_bytes encode_body encode_keys kind increasing
check-genesis_head = refl

genesis_head-FitsMemory : FitsMemory genesis_head
genesis_head-FitsMemory = record { sequence_lt = omega arith; applied_lt = omega arith }

genesis_head-IsWellFormed : IsWellFormed genesis_head
genesis_head-IsWellFormed = (check_iff genesis_head genesis_head-FitsMemory).0 check-genesis_head

check-last_head : check last_head ≡ true
unfolding check first_at_zero epochs_increase all_full none_revoked last? distinct_from contains
    bytes_eq hash from_be encode_core be_bytes encode_body encode_keys kind increasing binary_search
    bytes_lt
check-last_head = refl

last_head-FitsMemory : FitsMemory last_head
last_head-FitsMemory = record { sequence_lt = omega arith; applied_lt = omega arith }

last_head-IsWellFormed : IsWellFormed last_head
last_head-IsWellFormed = (check_iff last_head last_head-FitsMemory).0 check-last_head

check-revoked_head : check revoked_head ≡ true
unfolding check first_at_zero epochs_increase all_full none_revoked last? distinct_from contains
    bytes_eq hash from_be encode_core be_bytes encode_body encode_keys kind increasing
check-revoked_head = refl

revoked_head-FitsMemory : FitsMemory revoked_head
revoked_head-FitsMemory = record { sequence_lt = omega arith; applied_lt = omega arith }

revoked_head-IsWellFormed : IsWellFormed revoked_head
revoked_head-IsWellFormed = (check_iff revoked_head revoked_head-FitsMemory).0 check-revoked_head

check-fenced_head : check fenced_head ≡ true
unfolding check first_at_zero epochs_increase all_full none_revoked last? distinct_from contains
    bytes_eq hash from_be encode_core be_bytes encode_body encode_keys kind increasing binary_search
    bytes_lt
check-fenced_head = refl

fenced_head-FitsMemory : FitsMemory fenced_head
fenced_head-FitsMemory = record { sequence_lt = omega arith; applied_lt = omega arith }

fenced_head-IsWellFormed : IsWellFormed fenced_head
fenced_head-IsWellFormed = (check_iff fenced_head fenced_head-FitsMemory).0 check-fenced_head

check-dead_head : check dead_head ≡ true
unfolding check first_at_zero epochs_increase all_full none_revoked last? distinct_from contains
    bytes_eq hash from_be encode_core be_bytes encode_body encode_keys kind increasing binary_search
    bytes_lt
check-dead_head = refl

dead_head-FitsMemory : FitsMemory dead_head
dead_head-FitsMemory = record { sequence_lt = omega arith; applied_lt = omega arith }

dead_head-IsWellFormed : IsWellFormed dead_head
dead_head-IsWellFormed = (check_iff dead_head dead_head-FitsMemory).0 check-dead_head

apply-check_example : check fenced_head ≡ true
apply-check_example =
    apply-check crypto (some last_head) conflicting_statement none fenced_head
      (last_head-FitsMemory, check-last_head) (inr run_conflict)

applied-Authorised_example :
    (second_admission.core.network_id ≡ revoked_head.network_id)
    × (second_admission.core.sequence ≡ revoked_head.sequence + 1)
    × (second_admission.core.previous ≡ revoked_head.hash)
    × ((ks : List Key) × (keys revoked_head ≡ ok ks) × Authorised crypto second_admission ks 7)
applied-Authorised_example =
    applied-Authorised crypto revoked_head last_head second_admission none revoked_head-IsWellFormed
      run_second_admission

fork-Authorised_example :
    (fenced_head ≡ record last_head { forked = true })
    × ((r : Hash) × (get_elem? last_head.applied conflicting_statement.core.sequence ≡ some r)
        × (bytes_eq r (hash crypto conflicting_statement.core) ≡ false))
    × ((ks : List Key) × (keys_before last_head conflicting_statement.core.sequence ≡ ok ks)
        × Authorised crypto conflicting_statement ks 7)
fork-Authorised_example =
    fork-Authorised crypto last_head fenced_head conflicting_statement none last_head-IsWellFormed
      run_conflict

check_signatures_iff_example :
    (check_signatures crypto death_statement first_keys 7 ≡ ok tt)
    ↔ Authorised crypto death_statement first_keys 7
check_signatures_iff_example = check_signatures_iff crypto death_statement first_keys 7

apply-no_panic_example : ¬ (apply crypto (some dead_head) death_statement none ≡ err panicked)
apply-no_panic_example =
    apply-no_panic crypto (some dead_head) death_statement none
      (dead_head-FitsMemory, check-dead_head)

apply-apply_example :
    apply crypto (some dead_head) death_statement none ≡ ok Outcome.already_applied
apply-apply_example =
    apply-apply crypto fenced_head dead_head death_statement none none fenced_head-IsWellFormed
      run_death

from_revoked : Reaches crypto revoked_head dead_head
from_revoked =
    step_applied death_statement none
      (step_fork conflicting_statement none
        (step_applied second_admission none here run_second_admission) run_conflict)
      run_death

Reaches-IsLater_example : IsLater crypto revoked_head dead_head
Reaches-IsLater_example = Reaches-IsLater crypto revoked_head dead_head from_revoked

death_is_final_example : dead_head ≡ dead_head
death_is_final_example = death_is_final crypto dead_head dead_head (λ e. cc) here

fenced_until_death_example : (dead_head ≡ fenced_head) ⊎ ((n : ℕ) × (dead_head.dead_at ≡ some n))
fenced_until_death_example =
    fenced_until_death crypto fenced_head dead_head refl
      (step_applied death_statement none here run_death)

contains-revoked : contains revoked_head.revoked member ≡ true
unfolding contains bytes_eq
contains-revoked = refl

revoked_never_admitted_example : admits dead_head member ≡ false
revoked_never_admitted_example =
    revoked_never_admitted crypto revoked_head dead_head member revoked_head-IsWellFormed (λ e. cc)
      contains-revoked from_revoked

abbrev peer : PeerRecord
peer = record {
  name = b'w' ∷ [];
  fingerprint = [];
  address = [];
  trust = TrustLevel.packmate;
  public_key_b64 = some newcomer;
}

admits-newcomer : admits last_head newcomer ≡ true
unfolding admits binary_search bytes_lt bytes_eq
admits-newcomer = refl
