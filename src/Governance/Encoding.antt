-- ===== src/Governance/Encoding.antt =====
-- The canonical encoding of statements and its strict reader
-- (crates/werewolf-core/src/governance.rs: `encode`, `decode`, `signing_input`, `hash`, `Reader`).
use werewolfproxy.Shared.{
  ℕ, zero, suc, ◌+◌, ◌/◌, ◌%◌, ◌^◌, ◌*◌, List, [], ◌∷◌, ◌++◌, length, take, drop, ltb, leb, ◌==◌,
  if◌then◌else◌,
}
use werewolfproxy.Shared.Bytes.{Bytes}
use werewolfproxy.Shared.Results.{Result, ok, err, ◌>>=◌, ◌>>◌, ensure}
use werewolfproxy.Governance.Types.{
  version, max_statement_len, Key, Hash, Body, Core, Statement, GovError, Crypto,
}

-- `to_be_bytes` of a number of `w` bytes.
unfoldable pub be_bytes : ℕ → ℕ → Bytes
be_bytes zero n = []
be_bytes (suc w) n = (n / 256 ^ w % 256) ∷ be_bytes w n

-- `from_be_bytes`, behind the digits that `acc` holds.
unfoldable pub from_be : ℕ → Bytes → ℕ
from_be acc [] = acc
from_be acc (b ∷ bs) = from_be (acc * 256 + b) bs

-- b"werewolfproxy/governance/v1/sign\0"
abbrev pub sign_domain : Bytes
sign_domain =
    b'w' ∷ b'e' ∷ b'r' ∷ b'e' ∷ b'w' ∷ b'o' ∷ b'l' ∷ b'f' ∷ b'p' ∷ b'r' ∷ b'o' ∷ b'x' ∷ b'y' ∷ b'/'
    ∷ b'g' ∷ b'o' ∷ b'v' ∷ b'e' ∷ b'r' ∷ b'n' ∷ b'a' ∷ b'n' ∷ b'c' ∷ b'e' ∷ b'/' ∷ b'v' ∷ b'1'
    ∷ b'/' ∷ b's' ∷ b'i' ∷ b'g' ∷ b'n' ∷ 0 ∷ []

-- b"werewolfproxy/governance/v1/hash\0"
abbrev pub hash_domain : Bytes
hash_domain =
    b'w' ∷ b'e' ∷ b'r' ∷ b'e' ∷ b'w' ∷ b'o' ∷ b'l' ∷ b'f' ∷ b'p' ∷ b'r' ∷ b'o' ∷ b'x' ∷ b'y' ∷ b'/'
    ∷ b'g' ∷ b'o' ∷ b'v' ∷ b'e' ∷ b'r' ∷ b'n' ∷ b'a' ∷ b'n' ∷ b'c' ∷ b'e' ∷ b'/' ∷ b'v' ∷ b'1'
    ∷ b'/' ∷ b'h' ∷ b'a' ∷ b's' ∷ b'h' ∷ 0 ∷ []

-- `Body::kind`
unfoldable pub kind : Body → ℕ
kind (Body.genesis t ks) = 0
kind (Body.rotation es) = 1
kind (Body.revocation ks) = 2
kind (Body.admission ks) = 3
kind Body.activation = 4
kind Body.death = 5

unfoldable pub encode_keys : List Key → Bytes
encode_keys [] = []
encode_keys (k ∷ ks) = k ++ encode_keys ks

-- `(index, bytes)` entries, as rotations and signatures write them.
unfoldable pub encode_entries : List (ℕ × Bytes) → Bytes
encode_entries [] = []
encode_entries ((i, k) ∷ es) = i ∷ (k ++ encode_entries es)

-- `Body::encode`; `as u8` and `as u16` keep the low bits.
unfoldable pub encode_body : Body → Bytes
encode_body (Body.genesis t ks) = t ∷ (length ks % 256) ∷ encode_keys ks
encode_body (Body.rotation es) = (length es % 256) ∷ encode_entries es
encode_body (Body.revocation ks) = be_bytes 2 (length ks % 65536) ++ encode_keys ks
encode_body (Body.admission ks) = be_bytes 2 (length ks % 65536) ++ encode_keys ks
encode_body Body.activation = []
encode_body Body.death = []

-- `Core::encode`
unfoldable pub encode_core : Core → Bytes
encode_core c =
    let body = encode_body c.body in
    version
    ∷ (c.network_id
        ++ (be_bytes 8 c.sequence
            ++ (c.previous ++ (kind c.body ∷ (be_bytes 2 (length body % 65536) ++ body)))))

-- `Statement::encode`
unfoldable pub encode : Statement → Bytes
encode s = encode_core s.core ++ ((length s.signatures % 256) ∷ encode_entries s.signatures)

-- `Core::signing_input`
unfoldable pub signing_input : Core → Bytes
signing_input c = sign_domain ++ encode_core c

-- `Core::hash`; the two `update` calls hash the concatenation.
unfoldable pub hash : Crypto → Core → Hash
hash crypto c = crypto.blake3 (hash_domain ++ encode_core c)

-- `Reader::take`: what was read, and what is left.
unfoldable pub take_bytes : ℕ → Bytes → Result GovError (Bytes × Bytes)
take_bytes n bs = if ltb (length bs) n then err GovError.malformed else ok (take n bs, drop n bs)

-- `Reader::u8`
unfoldable pub read_u8 : Bytes → Result GovError (ℕ × Bytes)
read_u8 [] = err GovError.malformed
read_u8 (b ∷ bs) = ok (b, bs)

-- `Reader::u16` and `Reader::u64`
unfoldable pub read_be : ℕ → Bytes → Result GovError (ℕ × Bytes)
unfolding take_bytes
read_be w bs = do (digits, rest) ← take_bytes w bs; ok (from_be 0 digits, rest)

-- `Reader::end`
unfoldable pub read_end : Bytes → Result GovError (Unit {0})
read_end [] = ok tt
read_end (b ∷ bs) = err GovError.malformed

-- `(0..count).map(|_| r.array()).collect()` for `[u8; 32]`
unfoldable pub read_keys : ℕ → Bytes → Result GovError (List Key × Bytes)
read_keys zero bs = ok ([], bs)
read_keys (suc n) bs = do
  (k, rest) ← take_bytes 32 bs
  (ks, rest') ← read_keys n rest
  ok (k ∷ ks, rest')

-- `(0..count).map(|_| Ok((r.u8()?, r.array()?))).collect()` for entries of `w` bytes
unfoldable pub read_entries : ℕ → ℕ → Bytes → Result GovError (List (ℕ × Bytes) × Bytes)
read_entries w zero bs = ok ([], bs)
read_entries w (suc n) bs = do
  (i, rest) ← read_u8 bs
  (k, rest') ← take_bytes w rest
  (es, rest'') ← read_entries w n rest'
  ok ((i, k) ∷ es, rest'')

unfoldable pub decode_genesis : Bytes → Result GovError Body
decode_genesis bs = do
  (t, r) ← read_u8 bs
  (count, r') ← read_u8 r
  (ks, r'') ← read_keys count r'
  read_end r''
  ok (Body.genesis t ks)

unfoldable pub decode_rotation : Bytes → Result GovError Body
decode_rotation bs = do
  (count, r) ← read_u8 bs
  (es, r') ← read_entries 32 count r
  read_end r'
  ok (Body.rotation es)

unfoldable pub decode_members : (List Key → Body) → Bytes → Result GovError Body
decode_members make bs = do
  (count, r) ← read_be 2 bs
  (ks, r') ← read_keys count r
  read_end r'
  ok (make ks)

unfoldable pub decode_empty : Body → Bytes → Result GovError Body
decode_empty b bs = do read_end bs; ok b

-- `Body::decode`
unfoldable pub decode_body : ℕ → Bytes → Result GovError Body
unfolding decode_genesis decode_rotation decode_members decode_empty
decode_body k bs =
    if k == 0
    then decode_genesis bs
    else if k == 1
    then decode_rotation bs
    else if k == 2
    then decode_members Body.revocation bs
    else if k == 3
    then decode_members Body.admission bs
    else if k == 4
    then decode_empty Body.activation bs
    else if k == 5
    then decode_empty Body.death bs
    else err GovError.unknown_kind

-- What `Statement::decode` reads behind the version byte.
unfoldable pub decode_fields : Bytes → Result GovError Statement
decode_fields bs = do
  (network_id, r1) ← take_bytes 32 bs
  (sequence, r2) ← read_be 8 r1
  (previous, r3) ← take_bytes 32 r2
  (k, r4) ← read_u8 r3
  (body_len, r5) ← read_be 2 r4
  (body_bytes, r6) ← take_bytes body_len r5
  body ← decode_body k body_bytes
  (count, r7) ← read_u8 r6
  (signatures, r8) ← read_entries 64 count r7
  read_end r8
  ok (record {
    core = record {
      network_id = network_id;
      sequence = sequence;
      previous = previous;
      body = body;
    };
    signatures = signatures;
  })

-- `Statement::decode`
unfoldable pub decode : Bytes → Result GovError Statement
unfolding decode_fields
decode bs = do
  ensure (leb (length bs) max_statement_len) GovError.too_large
  (v, rest) ← read_u8 bs
  ensure (v == version) GovError.unknown_version
  decode_fields rest
