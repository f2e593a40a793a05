-- ===== src/Tests/Lifecycle.antt =====
-- A tombstone of a dead network through the encoder and the parser
-- (crates/werewolf-core/src/tombstone.rs), with a format that knows this one document.
use werewolfproxy.Shared.{◌≤◌, ◌≡◌, refl, subst, none, some, length}
use werewolfproxy.Shared.Ascii.{ascii}
use werewolfproxy.Shared.Bytes.{Bytes}
use werewolfproxy.Shared.Results.{ok}
use werewolfproxy.Governance.Types.{Body, Statement}
use werewolfproxy.Governance.Encoding.{
  take_bytes, read_u8, read_be, read_end, read_entries, decode_body, from_be, encode, decode,
  encode_core, encode_body, encode_entries, be_bytes, kind,
}
use werewolfproxy.Lifecycle.Tombstone.{
  Kind, Destruction, Tombstone, Formats, document, encode_tombstone, parse_tombstone,
  valid_software, all_printable,
}
use werewolfproxy.Lifecycle.Consistent.{
  IsConsistent, parse_tombstone_canonical, parse_tombstone-encode_tombstone,
}
use werewolfproxy.Tests.Network.{crypto}
use werewolfproxy.Tests.Encoding.{admission}

abbrev last_statement : Statement
last_statement = record {
  core = record admission.core { body = Body.death };
  signatures = admission.signatures;
}

abbrev remains : Tombstone
remains = record {
  kind = Kind.death;
  death_statement = some last_statement;
  destruction = Destruction.complete;
  software = ascii "werewolfd 1.0";
}

abbrev written : Bytes
written = ascii "{...}"

abbrev plain : Formats
plain = record {
  to_vec = λ doc. some written;
  from_slice = λ bytes. none;
  b64_encode = λ bytes. bytes;
  b64_decode = λ text. some text;
}

abbrev formats : Formats
formats = record plain { from_slice = λ bytes. some (document plain crypto remains) }

remains-IsConsistent : IsConsistent remains
unfolding valid_software all_printable
remains-IsConsistent = (refl, refl)

encode_run : encode_tombstone formats crypto remains ≡ ok written
unfolding encode_tombstone
encode_run = refl

read_run : formats.from_slice written ≡ some (document formats crypto remains)
unfolding document
read_run = refl

decode_run : decode (encode last_statement) ≡ ok last_statement
unfolding decode encode encode_core be_bytes encode_body encode_entries read_u8 take_bytes read_be
    from_be decode_body kind read_end read_entries
decode_run = refl

some-injective : {a b : Statement} → some a ≡ some b → a ≡ b
some-injective e = cc

readable : (s : Statement) → some last_statement ≡ some s → decode (encode s) ≡ ok s
readable s e = subst (λ (x : Statement). decode (encode x) ≡ ok x) (some-injective e) decode_run

parse_run : parse_tombstone formats crypto written ≡ ok remains
parse_run =
    parse_tombstone-encode_tombstone formats crypto remains written remains-IsConsistent encode_run
      read_run (λ b. refl) readable

parse_tombstone-encode_tombstone_example : parse_tombstone formats crypto written ≡ ok remains
parse_tombstone-encode_tombstone_example =
    parse_tombstone-encode_tombstone formats crypto remains written remains-IsConsistent encode_run
      read_run (λ b. refl) readable

parse_tombstone_canonical_example :
    IsConsistent remains
    × (encode_tombstone formats crypto remains ≡ ok written)
    × (length written ≤ 8192)
parse_tombstone_canonical_example =
    parse_tombstone_canonical formats crypto written remains parse_run
