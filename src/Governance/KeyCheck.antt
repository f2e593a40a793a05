-- ===== src/Governance/KeyCheck.antt =====
-- The key check of crates/werewolf-core/src/governance/check.rs: challenges, answers and the verdict.
-- The JSON around them is not modelled; a random value is an argument.
use werewolfproxy.Shared.{
  ℕ, ◌*◌, Bool, true, false, not, ◌&&◌, ◌||◌, none, some, List, [], ◌∷◌, ◌++◌, length, get_elem?,
  ltb, leb, ◌==◌, if◌then◌else◌,
}
use werewolfproxy.Shared.Ascii.{ascii}
use werewolfproxy.Shared.Bytes.{Bytes, bytes_eq}
use werewolfproxy.Shared.Results.{Result, ok, err, ◌>>=◌, ◌>>◌, ensure}
use werewolfproxy.Overlay.NodeId.{to_hex}
use werewolfproxy.Governance.Types.{Crypto, Head, Key, key_count, threshold_required}
use werewolfproxy.Governance.Chain.{keys}
use werewolfproxy.Handshake.Codes.{Str, unhex_pairs}

-- b"werewolfproxy/governance/v1/key-check\0"
abbrev pub key_check_domain : Bytes
key_check_domain = ascii "werewolfproxy/governance/v1/key-check" ++ 0 ∷ []

abbrev pub challenge_format : Str
challenge_format = ascii "werewolf-key-check"

abbrev pub answer_format : Str
answer_format = ascii "werewolf-key-check-answer"

pub record Challenge : Type 0 where
  pub format : Str
  pub version : ℕ
  pub network_id : Str
  pub challenge : Str

pub record Answer : Type 0 where
  pub format : Str
  pub version : ℕ
  pub network_id : Str
  pub challenge : Str
  pub index : ℕ
  pub signature : Str

pub data Verdict : Type 0 where
  at_least_7_usable unverified : Verdict

-- the errors, by their message, and a panic
pub data CheckError : Type 0 where
  not_lower_hex not_challenge index_range other_network other_challenge repeated_index : CheckError
  bad_key bad_signature not_answer panicked : CheckError

-- the test of the digits in `unhex`
unfoldable pub all_lower_hex : Str → Bool
all_lower_hex [] = true
all_lower_hex (c ∷ cs) =
    ((leb b'0' c && leb c b'9') || (leb b'a' c && leb c b'f')) && all_lower_hex cs

abbrev or_not_hex {ℓ κ} : {E : Type κ} {A : Type ℓ} → Result E A → Result CheckError A
or_not_hex (ok a) = ok a
or_not_hex (err e) = err not_lower_hex

-- `unhex::<N>`
unfoldable pub strict_unhex : ℕ → Str → Result CheckError Bytes
unfolding all_lower_hex unhex_pairs
strict_unhex n text = do
  ensure ((length text == 2 * n) && all_lower_hex text) not_lower_hex
  or_not_hex (unhex_pairs text)

-- `input`
unfoldable pub input : Bytes → Bytes → Bytes
input network_id challenge = key_check_domain ++ network_id ++ challenge

-- `Challenge::new`
unfoldable pub new_challenge : Head → Bytes → Challenge
unfolding to_hex
new_challenge head random = record {
  format = challenge_format;
  version = 1;
  network_id = to_hex head.network_id;
  challenge = to_hex random;
}

-- `Challenge::fields`
unfoldable pub challenge_fields : Challenge → Result CheckError (Bytes × Bytes)
unfolding strict_unhex
challenge_fields c = do
  ensure (bytes_eq c.format challenge_format && c.version == 1) not_challenge
  network_id ← strict_unhex 32 c.network_id
  challenge ← strict_unhex 32 c.challenge
  ok (network_id, challenge)

-- `Challenge::answer`, with `key.sign` as an argument
unfoldable pub answer : Challenge → (Bytes → Bytes) → ℕ → Result CheckError Answer
unfolding challenge_fields input to_hex
answer c sign index = do
  read ← challenge_fields c
  ensure (ltb index key_count) index_range
  ok (record {
    format = answer_format;
    version = 1;
    network_id = c.network_id;
    challenge = c.challenge;
    index = index;
    signature = to_hex (sign (input read.0 read.1));
  })

-- `Answer::parse`, behind the JSON
unfoldable pub check_answer : Answer → Result CheckError Answer
unfolding strict_unhex
check_answer a = do
  ensure (bytes_eq a.format answer_format && a.version == 1) not_answer
  network_id ← strict_unhex 32 a.network_id
  challenge ← strict_unhex 32 a.challenge
  signature ← strict_unhex 64 a.signature
  ok a

-- `indices.contains(&index)`
unfoldable pub has_index : ℕ → List ℕ → Bool
has_index i [] = false
has_index i (j ∷ js) = (i == j) || has_index i js

-- `head.keys()[index]`
unfoldable pub key_at : Head → ℕ → Result CheckError Key
unfolding keys
key_at head index = elim (keys head) [
  | err e ↦ err panicked
  | ok current ↦ elim (get_elem? current index) [ none ↦ err panicked | some key ↦ ok key ]
]

-- `indices.sort_unstable()`
unfoldable pub insert_index : ℕ → List ℕ → List ℕ
insert_index i [] = i ∷ []
insert_index i (j ∷ js) = let rest = insert_index i js in if ltb j i then j ∷ rest else i ∷ j ∷ js

unfoldable pub sort_indices : List ℕ → List ℕ
unfolding insert_index
sort_indices [] = []
sort_indices (i ∷ is) = insert_index i (sort_indices is)

-- the verdict of a number of usable keys
abbrev pub verdict_of : ℕ → Verdict
verdict_of n = if leb threshold_required n then Verdict.at_least_7_usable else Verdict.unverified

module _ (crypto : Crypto) where
  open crypto use {is_point, verify_strict}

  -- the body of the loop of `Challenge::verify`: the index of a valid answer
  unfoldable pub verify_answer : Challenge → Head → Bytes → List ℕ → Answer → Result CheckError ℕ
  unfolding has_index key_at strict_unhex
  verify_answer c head message indices a = do
    ensure
        (bytes_eq a.format answer_format
          && ((a.version == 1)
              && (bytes_eq a.network_id c.network_id && bytes_eq a.challenge c.challenge)))
        other_challenge
    ensure (ltb a.index key_count && not (has_index a.index indices)) repeated_index
    key ← key_at head a.index
    ensure (is_point key) bad_key
    signature ← strict_unhex 64 a.signature
    ensure (verify_strict key message signature) bad_signature
    ok a.index

  -- the loop of `Challenge::verify`: the indices that it adds to `indices`
  unfoldable pub verify_answers :
      Challenge → Head → Bytes → List ℕ → List Answer → Result CheckError (List ℕ)
  verify_answers c head message indices [] = ok []
  verify_answers c head message indices (a ∷ as_) = do
    index ← verify_answer c head message indices a
    rest ← verify_answers c head message (indices ++ index ∷ []) as_
    ok (index ∷ rest)

  -- `Challenge::verify`
  unfoldable pub verify_check :
      Challenge → Head → List Answer → Result CheckError (List ℕ × Verdict)
  unfolding challenge_fields input sort_indices
  verify_check c head answers = do
    read ← challenge_fields c
    ensure (bytes_eq read.0 head.network_id) other_network
    indices ← verify_answers c head (input read.0 read.1) [] answers
    ok (sort_indices indices, verdict_of (length (sort_indices indices)))
