-- ===== src/Lifecycle/Consistent.antt =====
-- What `Tombstone::parse` accepts (crates/werewolf-core/src/tombstone.rs).
use werewolfproxy.Shared.{
  ℕ, ◌≤◌, ◌≡◌, refl, sym, ap, ◌∙◌, subst, Bool, true, false, Option, none, some, length, leb, ◌==◌,
  arith, ◌⊎◌, leb→le, inl, inr, if◌then◌else◌,
}
use werewolfproxy.Shared.Ascii.{ascii}
use werewolfproxy.Shared.Bytes.{Bytes, bytes_eq, bytes_eq_sound, bytes_eq_refl}
use werewolfproxy.Shared.Results.{Result, ok, err, >>=-eq-ok, ensure-bind-eq-ok, ok-injective}
use werewolfproxy.Governance.Types.{Crypto, Statement}
use werewolfproxy.Governance.Chain.{is_death}
use werewolfproxy.Governance.Encoding.{decode, encode, hash}
use werewolfproxy.Overlay.NodeId.{to_hex}
use werewolfproxy.Lifecycle.Tombstone.{
  Kind, Destruction, Tombstone, Document, TombstoneError, Formats, or_invalid, valid_software,
  check_software, destruction_text, destruction_of, document, encode_tombstone, make_death,
  make_retirement, parse_death, parse_retirement, parse_kind, parse_tombstone, decoded,
}

-- A death has a death statement, a retirement has none.
abbrev pub HasStatement : Kind → Option Statement → Type 0
HasStatement Kind.death none = ⊥
HasStatement Kind.death (some s) = is_death s.core.body ≡ true
HasStatement Kind.retirement none = Unit {0}
HasStatement Kind.retirement (some s) = ⊥

abbrev pub IsConsistent : Tombstone → Type 0
IsConsistent t = HasStatement t.kind t.death_statement × (valid_software t.software ≡ true)

chosen :
    (a b : Bool) (x y : Result TombstoneError Tombstone) (t : Tombstone)
    → (if a then x else if b then y else err TombstoneError.invalid) ≡ ok t
    → (x ≡ ok t) ⊎ (y ≡ ok t)
chosen true b x y t h = inl h
chosen false true x y t h = inr h
chosen false false x y t h = cc

==-refl : (n : ℕ) → (n == n) ≡ true
==-refl n = ground arith

module _ (formats : Formats) (crypto : Crypto) where
  make_death-IsConsistent :
      (s : Statement) (d : Destruction) (software : Bytes) (t : Tombstone)
      → make_death formats crypto s d software ≡ ok t
      → IsConsistent t
  unfolding make_death check_software
  make_death-IsConsistent s d software t h =
      let (dead, h1) = ensure-bind-eq-ok (is_death s.core.body) _ _ h in
      let (valid, h2) = ensure-bind-eq-ok (valid_software software) _ _ h1 in
      let (bytes, e, h3) = >>=-eq-ok (encode_tombstone formats crypto _) _ h2 in
      subst IsConsistent (ok-injective h3) (dead, valid)

  make_retirement-IsConsistent :
      (d : Destruction) (software : Bytes) (t : Tombstone)
      → make_retirement formats crypto d software ≡ ok t
      → IsConsistent t
  unfolding make_retirement check_software
  make_retirement-IsConsistent d software t h =
      let (valid, h1) = ensure-bind-eq-ok (valid_software software) _ _ h in
      subst IsConsistent (ok-injective h1) (tt, valid)

  parse_death-IsConsistent :
      (doc : Document) (d : Destruction) (t : Tombstone)
      → parse_death formats crypto doc d ≡ ok t
      → IsConsistent t
  unfolding parse_death
  parse_death-IsConsistent doc d t h =
      let (text, e, h1) = >>=-eq-ok (or_invalid doc.death_statement) _ h in
      let (bytes, f, h2) = >>=-eq-ok (or_invalid (formats.b64_decode text)) _ h1 in
      let (s, g, h3) = >>=-eq-ok (decoded formats crypto bytes) _ h2 in
      let (made, k, h4) = >>=-eq-ok (make_death formats crypto s d doc.software) _ h3 in
      let (_, h5) = ensure-bind-eq-ok _ _ _ h4 in
      make_death-IsConsistent s d doc.software t (k ∙ h5)

  parse_retirement-IsConsistent :
      (doc : Document) (d : Destruction) (t : Tombstone)
      → parse_retirement formats crypto doc d ≡ ok t
      → IsConsistent t
  unfolding parse_retirement
  parse_retirement-IsConsistent doc d t h =
      let (_, h1) = ensure-bind-eq-ok _ _ _ h in make_retirement-IsConsistent d doc.software t h1

  encoded_size :
      (t : Tombstone) (bytes : Bytes)
      → encode_tombstone formats crypto t ≡ ok bytes
      → leb (length bytes) 8192 ≡ true
  unfolding encode_tombstone
  encoded_size t bytes h =
      let (out, e, h1) = >>=-eq-ok (or_invalid (formats.to_vec (document formats crypto t))) _ h in
      let (small, h2) = ensure-bind-eq-ok (leb (length out) 8192) _ _ h1 in
      ap (λ (b : Bytes). leb (length b) 8192) (sym (ok-injective h2)) ∙ small

  parse_kind-IsConsistent :
      (doc : Document) (d : Destruction) (t : Tombstone)
      → parse_kind formats crypto doc d ≡ ok t
      → IsConsistent t
  unfolding parse_kind
  parse_kind-IsConsistent doc d t h =
      elim (chosen (bytes_eq doc.kind (ascii "death")) (bytes_eq doc.kind (ascii "retirement")) _ _
        t h) [
          | inl e ↦ parse_death-IsConsistent doc d t e
          | inr e ↦ parse_retirement-IsConsistent doc d t e
        ]

  -- Parsing accepts only the canonical bytes of a consistent tombstone, and at most 8 KiB of them: what
  -- it returns encodes to the bytes that were read.
  pub parse_tombstone_canonical :
      (bytes : Bytes) (t : Tombstone)
      → parse_tombstone formats crypto bytes ≡ ok t
      → IsConsistent t × (encode_tombstone formats crypto t ≡ ok bytes) × (length bytes ≤ 8192)
  unfolding parse_tombstone
  parse_tombstone_canonical bytes t h =
      let (small, h1) = ensure-bind-eq-ok (leb (length bytes) 8192) _ _ h in
      let (doc, e, h2) = >>=-eq-ok (or_invalid (formats.from_slice bytes)) _ h1 in
      let (_, h3) = ensure-bind-eq-ok _ _ _ h2 in
      let (d, f, h4) = >>=-eq-ok (destruction_of doc.destruction) _ h3 in
      let (read, g, h5) = >>=-eq-ok (parse_kind formats crypto doc d) _ h4 in
      let (again, k, h6) = >>=-eq-ok (encode_tombstone formats crypto read) _ h5 in
      let (same, h7) = ensure-bind-eq-ok (bytes_eq again bytes) _ _ h6 in
      (
        parse_kind-IsConsistent doc d t (g ∙ h7),
        ap (encode_tombstone formats crypto) (sym (ok-injective h7))
            ∙ k
            ∙ ap ok (bytes_eq_sound again bytes same),
        leb→le (length bytes) 8192 small,
      )

  abbrev tombstone : Kind → Option Statement → Destruction → Bytes → Tombstone
  tombstone k o d software = record {
    kind = k;
    death_statement = o;
    destruction = d;
    software = software;
  }

  decoded-eq-ok : (b : Bytes) (s : Statement) → decode b ≡ ok s → decoded formats crypto b ≡ ok s
  decoded-eq-ok b s h = ground (arith, h)

  make_death-eq-ok :
      (s : Statement) (d : Destruction) (software bytes : Bytes)
      → is_death s.core.body ≡ true
      → valid_software software ≡ true
      → encode_tombstone formats crypto (tombstone Kind.death (some s) d software) ≡ ok bytes
      → make_death formats crypto s d software ≡ ok (tombstone Kind.death (some s) d software)
  unfolding make_death check_software
  make_death-eq-ok s d software bytes dead valid e = rw (dead, valid, e) refl

  -- the reading of the document that a tombstone has
  parse_kind-document :
      (k : Kind) (o : Option Statement) (d : Destruction) (software bytes : Bytes)
      → HasStatement k o
      → valid_software software ≡ true
      → encode_tombstone formats crypto (tombstone k o d software) ≡ ok bytes
      → ((b : Bytes) → formats.b64_decode (formats.b64_encode b) ≡ some b)
      → ((s : Statement) → o ≡ some s → decode (encode s) ≡ ok s)
      → parse_kind formats crypto (document formats crypto (tombstone k o d software)) d
        ≡ ok (tombstone k o d software)
  unfolding parse_kind parse_death parse_retirement make_death make_retirement check_software
      document bytes_eq
  parse_kind-document Kind.death none d software bytes has valid e law readable = absurd has
  parse_kind-document Kind.death (some s) d software bytes has valid e law readable =
      rw (law (encode s)) (
        rw (decoded-eq-ok (encode s) s (readable s refl)) (
          rw (make_death-eq-ok s d software bytes has valid e) (
            rw
              (
                bytes_eq_refl (to_hex s.core.network_id),
                bytes_eq_refl (to_hex (hash crypto s.core)),
                ==-refl s.core.sequence,
              )
              refl)))
  parse_kind-document Kind.retirement none d software bytes has valid e law readable = rw valid refl
  parse_kind-document Kind.retirement (some s) d software bytes has valid e law readable =
      absurd has

  destruction_of-text : (d : Destruction) → destruction_of (destruction_text d) ≡ ok d
  unfolding destruction_of bytes_eq
  destruction_of-text Destruction.incomplete = refl
  destruction_of-text Destruction.complete = refl

  -- Parsing reads back what was encoded, for every consistent tombstone whose document the reader of
  -- documents reads back, when base64 decodes what it encoded and the statement decodes from its
  -- encoding (as a typed one within its bound does when its counts fit one byte).
  pub parse_tombstone-encode_tombstone :
      (t : Tombstone) (bytes : Bytes)
      → IsConsistent t
      → encode_tombstone formats crypto t ≡ ok bytes
      → formats.from_slice bytes ≡ some (document formats crypto t)
      → ((b : Bytes) → formats.b64_decode (formats.b64_encode b) ≡ some b)
      → ((s : Statement) → t.death_statement ≡ some s → decode (encode s) ≡ ok s)
      → parse_tombstone formats crypto bytes ≡ ok t
  unfolding parse_tombstone bytes_eq document
  parse_tombstone-encode_tombstone t bytes (has, valid) e read law readable =
      let known =
        parse_kind-document t.kind t.death_statement t.destruction t.software bytes has valid e law
          readable in
      rw (size, read)
        (rw (destruction_of-text t.destruction) (rw known (rw (e, bytes_eq_refl bytes) refl)))
    where
      size : leb (length bytes) 8192 ≡ true
      size = encoded_size t bytes e
