-- ===== src/Tests/KeyCheck.antt =====
-- A run of the key check (crates/werewolf-core/src/governance/check.rs) with seven answers, where
-- every signature of 64 bytes is valid.
use werewolfproxy.Shared.{
  ℕ, zero, suc, ◌≡◌, ◌↔◌, ◌≤◌, refl, true, List, [], ◌∷◌, ◌++◌, length, All, map,
}
use werewolfproxy.Shared.Ascii.{ascii}
use werewolfproxy.Shared.Bytes.{Bytes, bytes_eq}
use werewolfproxy.Shared.Results.{ok, err}
use werewolfproxy.Handshake.Codes.{unhex_pairs, lower_digit}
use werewolfproxy.Governance.Types.{Crypto, Head}
use werewolfproxy.Governance.Chain.{keys, last?}
use werewolfproxy.Governance.KeyCheck.{
  Challenge, Answer, Verdict, CheckError, challenge_format, answer_format, strict_unhex,
  all_lower_hex, input, challenge_fields, has_index, key_at, insert_index, sort_indices,
  verify_answer, verify_answers, verify_check,
}
use werewolfproxy.Governance.Custody.{Up, Signed, verify_check_sound}
use werewolfproxy.Tests.Network.{genesis_head}

abbrev lenient : Crypto
lenient = record {
  is_point = λ k. true;
  is_weak = λ k. true;
  verify_strict = λ k message signature. true;
  blake3 = λ bs. [];
}

abbrev repeated : ℕ → Bytes → Bytes
repeated zero bs = []
repeated (suc n) bs = bs ++ repeated n bs

abbrev head : Head
head = record genesis_head { network_id = repeated 32 (9 ∷ []) }

abbrev challenge : Challenge
challenge = record {
  format = challenge_format;
  version = 1;
  network_id = repeated 32 (ascii "09");
  challenge = repeated 32 (ascii "ab");
}

abbrev answer_of : ℕ → Answer
answer_of i = record {
  format = answer_format;
  version = 1;
  network_id = challenge.network_id;
  challenge = challenge.challenge;
  index = i;
  signature = repeated 64 (ascii "c0");
}

abbrev answers : List Answer
answers = map answer_of (9 ∷ 0 ∷ 1 ∷ 7 ∷ 2 ∷ 4 ∷ 5 ∷ [])

abbrev indices : List ℕ
indices = 0 ∷ 1 ∷ 2 ∷ 4 ∷ 5 ∷ 7 ∷ 9 ∷ []

verify_run : verify_check lenient challenge head answers ≡ ok (indices, Verdict.at_least_7_usable)
unfolding verify_check challenge_fields strict_unhex all_lower_hex unhex_pairs lower_digit bytes_eq
    verify_answers verify_answer has_index key_at keys last? sort_indices insert_index
verify_run = refl

-- the same index twice rejects the whole check
verify_repeated :
    verify_check lenient challenge head (map answer_of (3 ∷ 3 ∷ [])) ≡ err CheckError.repeated_index
unfolding verify_check challenge_fields strict_unhex all_lower_hex unhex_pairs lower_digit bytes_eq
    verify_answers verify_answer has_index key_at keys last? sort_indices insert_index
verify_repeated = refl

verify_check_sound_example :
    (read : Bytes) × (challenge_fields challenge ≡ ok (head.network_id, read))
    × Up indices
    × (length indices ≡ length answers)
    × All (Signed lenient head (input head.network_id read)) indices
    × ((Verdict.at_least_7_usable ≡ Verdict.at_least_7_usable) ↔ (7 ≤ length indices))
verify_check_sound_example =
    verify_check_sound lenient challenge head answers indices Verdict.at_least_7_usable verify_run
