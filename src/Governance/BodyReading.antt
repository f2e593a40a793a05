-- ===== src/Governance/BodyReading.antt =====
-- What `Body::decode` (crates/werewolf-core/src/governance.rs) accepts.
use native.Mathlib.Nat.{mod-eq_of_lt}
use mathlib.Core.List.{append-nil}
use werewolfproxy.Shared.{ℕ, ◌%◌, ◌≡◌, refl, sym, ap, ◌∙◌, List, [], ◌∷◌, ◌++◌, length, arith}
use werewolfproxy.Shared.Bytes.{Bytes}
use werewolfproxy.Shared.Results.{ok, >>=-eq-ok}
use werewolfproxy.Governance.Types.{Key, Body}
use werewolfproxy.Governance.Encoding.{
  be_bytes, read_u8, read_be, read_end, read_keys, read_entries, encode_keys, encode_entries,
  encode_body, decode_body, decode_genesis, decode_rotation, decode_members, decode_empty, kind,
}
use werewolfproxy.Governance.Reading.{
  AreBytes, read_be-eq-ok, read_u8-eq-ok, read_end-eq-ok, read_keys-eq-ok, read_entries-eq-ok,
  small-cons,
}

decode_genesis-eq-ok :
    (bs : Bytes) (b : Body)
    → AreBytes bs
    → decode_genesis bs ≡ ok b
    → (encode_body b ≡ bs) × (kind b ≡ 0)
unfolding decode_genesis encode_body kind
decode_genesis-eq-ok bs b small h =
    let (t, e, h1) = >>=-eq-ok (read_u8 bs) _ h in
    let (n, e1, h2) = >>=-eq-ok (read_u8 t.1) _ h1 in
    let (ks, e2, h3) = >>=-eq-ok (read_keys n.0 n.1) _ h2 in
    let (u, e3, h4) = >>=-eq-ok (read_end ks.1) _ h3 in
    let (split, len) = read_keys-eq-ok n.0 n.1 ks e2 in
    let t_split = read_u8-eq-ok bs t e in
    let n_split = read_u8-eq-ok t.1 n e1 in
    let n_lt = (small-cons t.1 n (small-cons bs t small t_split).1 n_split).0 in
    let b_eq : Body.genesis t.0 ks.0 ≡ b = cc h4 in
    let done : encode_keys ks.0 ≡ n.1 =
      sym (append-nil (encode_keys ks.0))
      ∙ ap (λ (r : Bytes). encode_keys ks.0 ++ r) (sym (read_end-eq-ok ks.1 e3))
      ∙ split in
    rw (← b_eq) (rw len (rw (mod-eq_of_lt n_lt) (rw done (rw n_split t_split))), refl)

decode_rotation-eq-ok :
    (bs : Bytes) (b : Body)
    → AreBytes bs
    → decode_rotation bs ≡ ok b
    → (encode_body b ≡ bs) × (kind b ≡ 1)
unfolding decode_rotation encode_body kind
decode_rotation-eq-ok bs b small h =
    let (n, e1, h2) = >>=-eq-ok (read_u8 bs) _ h in
    let (es, e2, h3) = >>=-eq-ok (read_entries 32 n.0 n.1) _ h2 in
    let (u, e3, h4) = >>=-eq-ok (read_end es.1) _ h3 in
    let (split, len) = read_entries-eq-ok 32 n.0 n.1 es e2 in
    let n_split = read_u8-eq-ok bs n e1 in
    let n_lt = (small-cons bs n small n_split).0 in
    let b_eq : Body.rotation es.0 ≡ b = cc h4 in
    let done : encode_entries es.0 ≡ n.1 =
      sym (append-nil (encode_entries es.0))
      ∙ ap (λ (r : Bytes). encode_entries es.0 ++ r) (sym (read_end-eq-ok es.1 e3))
      ∙ split in
    rw (← b_eq) (rw len (rw (mod-eq_of_lt n_lt) (rw done n_split)), refl)

-- The bytes of a member list, of a revocation or an admission.
decode_members-eq-ok :
    (make : List Key → Body) (bs : Bytes) (b : Body)
    → AreBytes bs
    → decode_members make bs ≡ ok b
    → (ks : List Key) × (make ks ≡ b) × (be_bytes 2 (length ks % 65536) ++ encode_keys ks ≡ bs)
unfolding decode_members
decode_members-eq-ok make bs b small h =
    let (n, e1, h2) = >>=-eq-ok (read_be 2 bs) _ h in
    let (ks, e2, h3) = >>=-eq-ok (read_keys n.0 n.1) _ h2 in
    let (u, e3, h4) = >>=-eq-ok (read_end ks.1) _ h3 in
    let (split, len) = read_keys-eq-ok n.0 n.1 ks e2 in
    let (n_split, n_small, n_lt) = read_be-eq-ok 2 bs n small e1 in
    let done : encode_keys ks.0 ≡ n.1 =
      sym (append-nil (encode_keys ks.0))
      ∙ ap (λ (r : Bytes). encode_keys ks.0 ++ r) (sym (read_end-eq-ok ks.1 e3))
      ∙ split in
    (ks.0, cc h4, rw len (rw (mod-eq_of_lt n_lt) (rw done n_split)))

decode_revocation-eq-ok :
    (bs : Bytes) (b : Body)
    → AreBytes bs
    → decode_members Body.revocation bs ≡ ok b
    → (encode_body b ≡ bs) × (kind b ≡ 2)
unfolding encode_body kind
decode_revocation-eq-ok bs b small h =
    let (ks, e, split) = decode_members-eq-ok Body.revocation bs b small h in rw (← e) (split, refl)

decode_admission-eq-ok :
    (bs : Bytes) (b : Body)
    → AreBytes bs
    → decode_members Body.admission bs ≡ ok b
    → (encode_body b ≡ bs) × (kind b ≡ 3)
unfolding encode_body kind
decode_admission-eq-ok bs b small h =
    let (ks, e, split) = decode_members-eq-ok Body.admission bs b small h in rw (← e) (split, refl)

decode_empty-eq-ok :
    (e : Body) (bs : Bytes) (b : Body) → decode_empty e bs ≡ ok b → (b ≡ e) × (bs ≡ [])
unfolding decode_empty read_end
decode_empty-eq-ok e [] b h = (cc, refl)
decode_empty-eq-ok e (x ∷ xs) b h = cc

decode_activation-eq-ok :
    (bs : Bytes) (b : Body)
    → decode_empty Body.activation bs ≡ ok b
    → (encode_body b ≡ bs) × (kind b ≡ 4)
unfolding encode_body kind
decode_activation-eq-ok bs b h =
    let (e, f) = decode_empty-eq-ok Body.activation bs b h in rw e (sym f, refl)

decode_death-eq-ok :
    (bs : Bytes) (b : Body)
    → decode_empty Body.death bs ≡ ok b
    → (encode_body b ≡ bs) × (kind b ≡ 5)
unfolding encode_body kind
decode_death-eq-ok bs b h = let (e, f) = decode_empty-eq-ok Body.death bs b h in rw e (sym f, refl)

pub decode_body-eq-ok :
    (k : ℕ) (bs : Bytes) (b : Body)
    → AreBytes bs
    → decode_body k bs ≡ ok b
    → (encode_body b ≡ bs) × (kind b ≡ k)
decode_body-eq-ok k bs b small h =
    unfold decode_body in
    ground (
      arith,
      decode_genesis-eq-ok bs b small,
      decode_rotation-eq-ok bs b small,
      decode_revocation-eq-ok bs b small,
      decode_admission-eq-ok bs b small,
      decode_activation-eq-ok bs b,
      decode_death-eq-ok bs b,
    )
