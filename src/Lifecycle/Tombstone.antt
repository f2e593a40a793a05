-- ===== src/Lifecycle/Tombstone.antt =====
-- `Tombstone` of crates/werewolf-core/src/tombstone.rs. The text form of a document is a parameter,
-- as are base64 and the hash of a statement.
use werewolfproxy.Shared.{
  ℕ, ◌*◌, Bool, true, false, not, ◌&&◌, ◌||◌, Option, none, some, [], ◌∷◌, length, ltb, leb, ◌==◌,
  if◌then◌else◌,
}
use werewolfproxy.Shared.Ascii.{ascii}
use werewolfproxy.Shared.Bytes.{Bytes, bytes_eq}
use werewolfproxy.Shared.Results.{Result, ok, err, ◌>>=◌, ◌>>◌, ensure}
use werewolfproxy.Overlay.NodeId.{to_hex}
use werewolfproxy.Handshake.Codes.{Str, str_is_empty}
use werewolfproxy.Governance.Types.{Crypto, Statement}
use werewolfproxy.Governance.Chain.{is_death}
use werewolfproxy.Governance.Encoding.{decode, encode, hash}

abbrev pub max_len : ℕ
max_len = 8 * 1024

abbrev pub tombstone_format : Str
tombstone_format = ascii "werewolf-tombstone"

abbrev pub max_software_len : ℕ
max_software_len = 64

pub data Kind : Type 0 where
  death retirement : Kind

pub data Destruction : Type 0 where
  incomplete complete : Destruction

pub record Tombstone : Type 0 where
  pub kind : Kind
  pub death_statement : Option Statement
  pub destruction : Destruction
  pub software : Str

pub record Document : Type 0 where
  pub format : Str
  pub version : ℕ
  pub kind : Str
  pub network_id : Option Str
  pub terminal_sequence : Option ℕ
  pub terminal_hash : Option Str
  pub death_statement : Option Str
  pub destruction : Str
  pub software : Str

-- `invalid()`, the one error
pub data TombstoneError : Type 0 where
  invalid : TombstoneError

abbrev pub or_invalid {ℓ} : {A : Type ℓ} → Option A → Result TombstoneError A
or_invalid none = err invalid
or_invalid (some a) = ok a

-- `software.bytes().all(|c| (0x20..=0x7e).contains(&c))`
unfoldable pub all_printable : Str → Bool
all_printable [] = true
all_printable (c ∷ cs) = (leb 0x20 c && leb c 0x7e) && all_printable cs

-- the test of `check_software`
unfoldable pub valid_software : Str → Bool
unfolding all_printable
valid_software software = not (
    str_is_empty software
    || (ltb max_software_len (length software) || not (all_printable software)))

-- `check_software`
unfoldable pub check_software : Str → Result TombstoneError (Unit {0})
unfolding valid_software
check_software software = ensure (valid_software software) invalid

abbrev pub kind_text : Kind → Str
kind_text Kind.death = ascii "death"
kind_text Kind.retirement = ascii "retirement"

abbrev pub destruction_text : Destruction → Str
destruction_text Destruction.incomplete = ascii "incomplete"
destruction_text Destruction.complete = ascii "complete"

-- `match doc.destruction.as_str()`
unfoldable pub destruction_of : Str → Result TombstoneError Destruction
destruction_of text =
    if bytes_eq text (ascii "incomplete")
    then ok Destruction.incomplete
    else if bytes_eq text (ascii "complete")
    then ok Destruction.complete
    else err invalid

-- `Option::map`
abbrev pub map_option {ℓ κ} : {A : Type ℓ} {B : Type κ} → (A → B) → Option A → Option B
map_option f none = none
map_option f (some a) = some (f a)

abbrev pub text_eq : Option Str → Option Str → Bool
text_eq none none = true
text_eq none (some b) = false
text_eq (some a) none = false
text_eq (some a) (some b) = bytes_eq a b

abbrev pub number_eq : Option ℕ → Option ℕ → Bool
number_eq none none = true
number_eq none (some b) = false
number_eq (some a) none = false
number_eq (some a) (some b) = a == b

abbrev pub is_absent {ℓ} : {A : Type ℓ} → Option A → Bool
is_absent none = true
is_absent (some a) = false

-- What the crates serde_json (`to_vec`, `from_slice`) and base64 compute.
pub record Formats : Type 0 where
  pub to_vec : Document → Option Bytes
  pub from_slice : Bytes → Option Document
  pub b64_encode : Bytes → Str
  pub b64_decode : Str → Option Bytes

module _ (formats : Formats) (crypto : Crypto) where
  open formats use {to_vec, from_slice, b64_encode, b64_decode}

  -- `Tombstone::document`
  unfoldable pub document : Tombstone → Document
  unfolding to_hex
  document t = record {
    format = tombstone_format;
    version = 1;
    kind = kind_text t.kind;
    network_id = map_option (λ s. to_hex s.core.network_id) t.death_statement;
    terminal_sequence = map_option (λ s. s.core.sequence) t.death_statement;
    terminal_hash = map_option (λ s. to_hex (hash crypto s.core)) t.death_statement;
    death_statement = map_option (λ s. b64_encode (encode s)) t.death_statement;
    destruction = destruction_text t.destruction;
    software = t.software;
  }

  -- `Tombstone::encode`
  unfoldable pub encode_tombstone : Tombstone → Result TombstoneError Bytes
  encode_tombstone t = do
    bytes ← or_invalid (to_vec (document t))
    ensure (leb (length bytes) max_len) invalid
    ok bytes

  -- `Tombstone::death`
  unfoldable pub make_death : Statement → Destruction → Str → Result TombstoneError Tombstone
  unfolding check_software encode_tombstone
  make_death statement destruction software = do
    ensure (is_death statement.core.body) invalid
    check_software software
    let t : Tombstone = record {
      kind = Kind.death;
      death_statement = some statement;
      destruction = destruction;
      software = software;
    }
    bytes ← encode_tombstone t
    ok t

  -- `Tombstone::retirement`
  unfoldable pub make_retirement : Destruction → Str → Result TombstoneError Tombstone
  unfolding check_software
  make_retirement destruction software = do
    check_software software
    ok (record {
      kind = Kind.retirement;
      death_statement = none;
      destruction = destruction;
      software = software;
    })

  -- `Statement::decode(&bytes).ok()`
  abbrev pub decoded : Bytes → Result TombstoneError Statement
  decoded bytes = elim (decode bytes) [ ok s ↦ ok s | err e ↦ err invalid ]

  -- the branch "death" of `Tombstone::parse`
  unfoldable pub parse_death : Document → Destruction → Result TombstoneError Tombstone
  unfolding make_death document
  parse_death doc destruction = do
    text ← or_invalid doc.death_statement
    bytes ← or_invalid (b64_decode text)
    statement ← decoded bytes
    t ← make_death statement destruction doc.software
    ensure
        (text_eq doc.network_id (document t).network_id
          && (number_eq doc.terminal_sequence (document t).terminal_sequence
              && text_eq doc.terminal_hash (document t).terminal_hash))
        invalid
    ok t

  -- the branch "retirement" of `Tombstone::parse`
  unfoldable pub parse_retirement : Document → Destruction → Result TombstoneError Tombstone
  unfolding make_retirement
  parse_retirement doc destruction = do
    ensure
        (is_absent doc.network_id
          && (is_absent doc.terminal_sequence
              && (is_absent doc.terminal_hash && is_absent doc.death_statement)))
        invalid
    make_retirement destruction doc.software

  -- `match doc.kind.as_str()`
  unfoldable pub parse_kind : Document → Destruction → Result TombstoneError Tombstone
  unfolding parse_death parse_retirement
  parse_kind doc destruction =
      if bytes_eq doc.kind (ascii "death")
      then parse_death doc destruction
      else if bytes_eq doc.kind (ascii "retirement")
      then parse_retirement doc destruction
      else err invalid

  -- `Tombstone::parse`
  unfoldable pub parse_tombstone : Bytes → Result TombstoneError Tombstone
  unfolding destruction_of parse_kind encode_tombstone
  parse_tombstone bytes = do
    ensure (leb (length bytes) max_len) invalid
    doc ← or_invalid (from_slice bytes)
    ensure (bytes_eq doc.format tombstone_format && doc.version == 1) invalid
    destruction ← destruction_of doc.destruction
    t ← parse_kind doc destruction
    again ← encode_tombstone t
    ensure (bytes_eq again bytes) invalid
    ok t
