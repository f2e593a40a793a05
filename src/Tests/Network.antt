-- ===== src/Tests/Network.antt =====
-- A small governance network to run crates/werewolf-core/src/governance.rs on: ten keys of one byte,
-- a toy signature that repeats the key, a toy hash, and a chain of signed statements.
use werewolfproxy.Shared.{ℕ, true, false, none, some, List, [], ◌∷◌, ◌++◌, length, ◌==◌}
use werewolfproxy.Shared.Bytes.{Bytes, bytes_eq}
use werewolfproxy.Governance.Types.{Crypto, Key, Hash, Head, Body, Statement}
use werewolfproxy.Governance.Encoding.{from_be, hash}
use werewolfproxy.Governance.Chain.{zero_hash}

-- the key of one zero byte is weak, and a signature is valid if it repeats the key
abbrev pub crypto : Crypto
crypto = record {
  is_point = λ k. length k == 1;
  is_weak = λ k. bytes_eq k (0 ∷ []);
  verify_strict = λ k message sig. bytes_eq k sig;
  blake3 = λ bs. from_be 1 bs ∷ [];
}

abbrev pub network : Bytes
network = 7 ∷ []

abbrev pub first_keys : List Key
first_keys =
    (1 ∷ [])
    ∷ (2 ∷ [])
    ∷ (3 ∷ [])
    ∷ (4 ∷ [])
    ∷ (5 ∷ [])
    ∷ (6 ∷ [])
    ∷ (7 ∷ [])
    ∷ (8 ∷ [])
    ∷ (9 ∷ [])
    ∷ (10 ∷ [])
    ∷ []

-- seven of the ten sign
abbrev pub seven_signatures : List (ℕ × Bytes)
seven_signatures =
    (0, 1 ∷ [])
    ∷ (1, 2 ∷ [])
    ∷ (2, 3 ∷ [])
    ∷ (4, 5 ∷ [])
    ∷ (5, 6 ∷ [])
    ∷ (7, 8 ∷ [])
    ∷ (9, 10 ∷ [])
    ∷ []

abbrev pub statement : ℕ → Hash → Body → Statement
statement n prev b = record {
  core = record { network_id = network; sequence = n; previous = prev; body = b };
  signatures = seven_signatures;
}

abbrev pub member : Key
member = 50 ∷ []

abbrev pub newcomer : Key
newcomer = 60 ∷ []

abbrev pub genesis_statement : Statement
genesis_statement = statement 0 zero_hash (Body.genesis 7 first_keys)

abbrev pub genesis_head : Head
genesis_head = record {
  network_id = network;
  sequence = 0;
  hash = hash crypto genesis_statement.core;
  threshold = 7;
  key_epochs = (0, first_keys) ∷ [];
  revoked = [];
  applied = hash crypto genesis_statement.core ∷ [];
  forked = false;
  roster = [];
  activated_at = none;
  dead_at = none;
}

-- The head behind a statement, with the fields that its body changed.
abbrev pub behind : Head → Statement → Head
behind head s = record head {
  sequence = s.core.sequence;
  hash = hash crypto s.core;
  applied = head.applied ++ hash crypto s.core ∷ [];
}

abbrev pub activation_statement : Statement
activation_statement = statement 1 genesis_head.hash Body.activation

abbrev pub active_head : Head
active_head = behind (record genesis_head { activated_at = some 1 }) activation_statement

abbrev pub admission_statement : Statement
admission_statement = statement 2 active_head.hash (Body.admission (member ∷ []))

abbrev pub member_head : Head
member_head = behind (record active_head { roster = member ∷ [] }) admission_statement

abbrev pub revocation_statement : Statement
revocation_statement = statement 3 member_head.hash (Body.revocation (member ∷ []))

abbrev pub revoked_head : Head
revoked_head =
    behind (record member_head { roster = []; revoked = member ∷ [] }) revocation_statement

abbrev pub second_admission : Statement
second_admission = statement 4 revoked_head.hash (Body.admission (newcomer ∷ []))

abbrev pub last_head : Head
last_head = behind (record revoked_head { roster = newcomer ∷ [] }) second_admission

-- another statement at sequence 4
abbrev pub conflicting_statement : Statement
conflicting_statement = statement 4 revoked_head.hash (Body.revocation (newcomer ∷ []))

abbrev pub fenced_head : Head
fenced_head = record last_head { forked = true }

abbrev pub death_statement : Statement
death_statement = statement 5 last_head.hash Body.death

abbrev pub dead_head : Head
dead_head = behind (record fenced_head { dead_at = some 5 }) death_statement
