-- ===== src/Handshake/Requests.antt =====
-- The wire form of an RPC request has one spelling (crates/werewolfd/src/handshake/rpc.rs).
use werewolfproxy.Shared.{
  ℕ, ◌≤◌, ◌≡◌, ◌↔◌, refl, sym, ap, ◌∙◌, true, ◌&&◌, [], ◌∷◌, length, leb, ◌==◌, arith, Bool-cases,
  inl, inr, le→leb, leb→le, &&-true,
}
use werewolfproxy.Shared.Ascii.{ascii}
use werewolfproxy.Shared.Bytes.{bytes_eq, bytes_eq_sound}
use werewolfproxy.Shared.Results.{ok, >>=-eq-ok, ensure-bind-eq-ok, ok-injective}
use werewolfproxy.Overlay.Routing.{max_k}
use werewolfproxy.Handshake.Codes.{Str, require, hex, unhex, str_is_empty}
use werewolfproxy.Handshake.Canonical.{AreBytes, unhex_iff}
use werewolfproxy.Handshake.Rpc.{
  RpcRequest, fields, parse, parse_find_node, parse_governance, parse_bare, max_governance_k,
}

-- What the Rust types and the limits say of a request.
abbrev pub IsRequest : RpcRequest → Type 0
IsRequest RpcRequest.ping = Unit
IsRequest (RpcRequest.find_node target k) =
    (1 ≤ k) × (k ≤ 20) × (length target ≡ 32) × AreBytes target
IsRequest RpcRequest.services = Unit
IsRequest (RpcRequest.governance head k) = (1 ≤ k) × (k ≤ 4) × (length head ≡ 32) × AreBytes head

parse-fields : (r : RpcRequest) → IsRequest r → parse (fields r).0 (fields r).1 (fields r).2 ≡ ok r
unfolding parse fields bytes_eq hex
parse-fields RpcRequest.ping v = refl
parse-fields (RpcRequest.find_node target k) (low, high, len, small) =
    rw (le→leb 1 k low, le→leb k 20 high)
      (rw ((unhex_iff 32 (hex target) target).1 (refl, len, small)) refl)
parse-fields RpcRequest.services v = refl
parse-fields (RpcRequest.governance head k) (low, high, len, small) =
    rw (le→leb 1 k low, le→leb k 4 high)
      (rw ((unhex_iff 32 (hex head) head).1 (refl, len, small)) refl)

-- A request is read from these three strings and numbers.
abbrev Reads : RpcRequest → Str → Str → ℕ → Type 0
Reads r op target k =
    ((fields r).0 ≡ op) × ((fields r).1 ≡ target) × ((fields r).2 ≡ k) × IsRequest r

empty_of : (s : Str) → str_is_empty s ≡ true → [] ≡ s
empty_of [] h = refl
empty_of (c ∷ s) h = cc

bare-Reads :
    (q r : RpcRequest) (op target : Str) (k : ℕ)
    → fields q ≡ (op, [], 0)
    → IsRequest q
    → parse_bare q target k ≡ ok r
    → Reads r op target k
unfolding parse_bare require
bare-Reads q r op target k f v h =
    let (e, h1) = ensure-bind-eq-ok (str_is_empty target && k == 0) _ _ h in
    let (blank, none) = &&-true (str_is_empty target) (k == 0) e in
    rw (← (ok-injective h1)) (
      ap (λ (x : Str × Str × ℕ). x.0) f,
      ap (λ (x : Str × Str × ℕ). x.1) f ∙ empty_of target blank,
      ap (λ (x : Str × Str × ℕ). x.2) f ∙ ground arith,
      v,
    )

find_node-Reads :
    (r : RpcRequest) (op target : Str) (k : ℕ)
    → ascii "find_node" ≡ op
    → parse_find_node target k ≡ ok r
    → Reads r op target k
unfolding parse_find_node require fields hex
find_node-Reads r op target k o h =
    let (e, h1) = ensure-bind-eq-ok (leb 1 k && leb k max_k) _ _ h in
    let (low, high) = &&-true (leb 1 k) (leb k max_k) e in
    let (id, u, h2) = >>=-eq-ok (unhex 32 target) _ h1 in
    let (spelled, len, small) = (unhex_iff 32 target id).0 u in
    rw (← (ok-injective h2)) (o, spelled, refl, (leb→le 1 k low, leb→le k 20 high, len, small))

governance-Reads :
    (r : RpcRequest) (op target : Str) (k : ℕ)
    → ascii "governance" ≡ op
    → parse_governance target k ≡ ok r
    → Reads r op target k
unfolding parse_governance require fields hex
governance-Reads r op target k o h =
    let (e, h1) = ensure-bind-eq-ok (leb 1 k && leb k max_governance_k) _ _ h in
    let (low, high) = &&-true (leb 1 k) (leb k max_governance_k) e in
    let (id, u, h2) = >>=-eq-ok (unhex 32 target) _ h1 in
    let (spelled, len, small) = (unhex_iff 32 target id).0 u in
    rw (← (ok-injective h2)) (o, spelled, refl, (leb→le 1 k low, leb→le k 4 high, len, small))

parse-Reads :
    (op target : Str) (k : ℕ) (r : RpcRequest) → parse op target k ≡ ok r → Reads r op target k
parse-Reads op target k r h = elim (Bool-cases (bytes_eq op (ascii "ping"))) [
  | inl e ↦
      bare-Reads RpcRequest.ping r op target k (unfold fields in (λ i. (sym (is _ e) i, [], 0))) tt
        (unfold parse in ground arith)
  | inr e ↦ elim (Bool-cases (bytes_eq op (ascii "find_node"))) [
    | inl f ↦ find_node-Reads r op target k (sym (is _ f)) (unfold parse in ground arith)
    | inr f ↦ elim (Bool-cases (bytes_eq op (ascii "services"))) [
      | inl g ↦
          bare-Reads RpcRequest.services r op target k
            (unfold fields in (λ i. (sym (is _ g) i, [], 0))) tt (unfold parse in ground arith)
      | inr g ↦ elim (Bool-cases (bytes_eq op (ascii "governance"))) [
        | inl k' ↦ governance-Reads r op target k (sym (is _ k')) (unfold parse in ground arith)
        | inr k' ↦ absurd (unfold parse in ground arith)
      ]
    ]
  ]
]
  where
    is : (s : Str) → bytes_eq op s ≡ true → op ≡ s
    is s e = bytes_eq_sound op s e

-- `RpcRequest::parse` accepts exactly the strings and numbers that `fields` writes of a request whose
-- id or head has 32 bytes and whose count is from 1 to 20, or from 1 to 4 of governance statements:
-- each request has one wire form.
pub parse_iff :
    (op target : Str) (k : ℕ) (r : RpcRequest)
    → (parse op target k ≡ ok r)
      ↔ (((fields r).0 ≡ op) × ((fields r).1 ≡ target) × ((fields r).2 ≡ k) × IsRequest r)
parse_iff op target k r =
    (parse-Reads op target k r, λ (o, t, n, v). rw (← o) (rw (← t) (rw (← n) (parse-fields r v))))
