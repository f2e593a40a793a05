-- ===== src/Admission/Balance.antt =====
-- The permits that are held, and their balance with the state of the admission
-- (crates/werewolfd/src/admission.rs).
use werewolfproxy.Shared.{
  ℕ, zero, suc, ◌+◌, ◌≡◌, refl, sym, ap, ◌∙◌, Bool, true, false, Option, none, some, List, [], ◌∷◌,
  ◌++◌, arith, Bool-cases, inl, inr,
}
use werewolfproxy.Shared.Bytes.{Bytes, bytes_eq, bytes_eq_sound, bytes_eq_refl}
use werewolfproxy.Shared.Results.{ok}
use werewolfproxy.Handshake.Codes.{Str}
use werewolfproxy.Admission.Permits.{
  Admission, HandshakePermit, TargetWorkPermit, Counters, count_at, put, is_peer, decrement,
  release, default, handshake, quic_context, drop_context, authenticated, permit_work,
  drop_handshake, drop_work,
}

abbrev pub one_if : Bool → ℕ
one_if true = 1
one_if false = 0

-- how many of the permits are a peer's
unfoldable pub held {ℓ} : {P : Type ℓ} → (P → Option Bytes) → List P → Bytes → ℕ
held peer [] key = 0
held peer (p ∷ ps) key = one_if (is_peer key (peer p)) + held peer ps key

-- the entry that a number of permits has in the counters: none for no permit
abbrev pub entry : ℕ → Option ℕ
entry zero = none
entry (suc n) = some (suc n)

-- The counters have exactly the entries of these numbers.
abbrev pub Counts : Counters → (Bytes → ℕ) → Type 0
Counts counters number = (key : Bytes) → counters key ≡ entry (number key)

-- `more` has one more permit than `fewer`, a permit of the peer `key`.
abbrev pub OneMore : Bytes → (Bytes → ℕ) → (Bytes → ℕ) → Type 0
OneMore key more fewer = (k : Bytes) → more k ≡ one_if (bytes_eq k key) + fewer k

pub held-insert {ℓ} :
    {P : Type ℓ} (peer : P → Option Bytes) (xs : List P) (p : P) (ys : List P) (key : Bytes)
    → held peer (xs ++ p ∷ ys) key ≡ one_if (is_peer key (peer p)) + held peer (xs ++ ys) key
unfolding held
held-insert peer [] p ys key = refl
held-insert peer (x ∷ xs) p ys key = omega (arith, held-insert peer xs p ys key)

pub count-entry : (n : ℕ) → count_at (entry n) ≡ n
count-entry zero = refl
count-entry (suc n) = refl

put_same :
    (key : Bytes) (value : Option ℕ) (counters : Counters) (k : Bytes)
    → bytes_eq k key ≡ true
    → put key value counters k ≡ value
unfolding put
put_same key value counters k e = rw e refl

put_other :
    (key : Bytes) (value : Option ℕ) (counters : Counters) (k : Bytes)
    → bytes_eq k key ≡ false
    → put key value counters k ≡ counters k
unfolding put
put_other key value counters k e = rw e refl

pub OneMore-same :
    (key : Bytes) (more fewer : Bytes → ℕ) (k : Bytes)
    → OneMore key more fewer
    → bytes_eq k key ≡ true
    → more k ≡ suc (fewer key)
OneMore-same key more fewer k one e =
    one k
    ∙ ap (λ (b : Bool). one_if b + fewer k) e
    ∙ ap (λ (x : Bytes). 1 + fewer x) (bytes_eq_sound k key e)
    ∙ omega arith

pub OneMore-other :
    (key : Bytes) (more fewer : Bytes → ℕ) (k : Bytes)
    → OneMore key more fewer
    → bytes_eq k key ≡ false
    → more k ≡ fewer k
OneMore-other key more fewer k one e = one k ∙ ap (λ (b : Bool). one_if b + fewer k) e ∙ omega arith

pub put-Counts :
    (counters : Counters) (key : Bytes) (fewer more : Bytes → ℕ)
    → Counts counters fewer
    → OneMore key more fewer
    → Counts (put key (some (count_at (counters key) + 1)) counters) more
put-Counts counters key fewer more c one k = elim (Bool-cases (bytes_eq k key)) [
  | inl e ↦
      put_same key _ counters k e
      ∙ ap (λ (o : Option ℕ). some (count_at o + 1)) (c key)
      ∙ ap (λ (n : ℕ). some (n + 1)) (count-entry (fewer key))
      ∙ ap (λ (n : ℕ). some n) (omega arith)
      ∙ sym (ap entry (OneMore-same key more fewer k one e))
  | inr e ↦
      put_other key _ counters k e ∙ c k ∙ sym (ap entry (OneMore-other key more fewer k one e))
]

decrement-suc : (n : ℕ) → decrement (suc n) ≡ ok (entry n)
unfolding decrement
decrement-suc zero = refl
decrement-suc (suc n) = refl

pub release-Counts :
    (counters : Counters) (key : Bytes) (fewer more : Bytes → ℕ)
    → Counts counters more
    → OneMore key more fewer
    → (left : Counters) × (release key counters ≡ ok left) × Counts left fewer
unfolding release
release-Counts counters key fewer more c one =
    (put key (entry (fewer key)) counters, released, counted)
  where
    found : counters key ≡ some (suc (fewer key))
    found = c key ∙ ap entry (OneMore-same key more fewer key one (bytes_eq_refl key))

    released : release key counters ≡ ok (put key (entry (fewer key)) counters)
    released = rw (release, found) (rw (decrement-suc (fewer key)) refl)

    counted : Counts (put key (entry (fewer key)) counters) fewer
    counted k = elim (Bool-cases (bytes_eq k key)) [
      | inl e ↦
          put_same key _ counters k e
          ∙ ap (λ (x : Bytes). entry (fewer x)) (sym (bytes_eq_sound k key e))
      | inr e ↦ put_other key _ counters k e ∙ c k ∙ ap entry (OneMore-other key more fewer k one e)
    ]

-- The state of the admission with the permits that are held of it.
pub record System : Type 0 where
  pub admission : Admission
  pub handshakes : List HandshakePermit
  pub contexts : ℕ
  pub works : List TargetWorkPermit

abbrev pub peer_of : HandshakePermit → Option Bytes
peer_of p = p.peer

abbrev pub target_of : TargetWorkPermit → Option Bytes
target_of w = some w.peer

-- One call on the admission that succeeds, or the drop of a permit that is held.
pub data Step : System → System → Type 0 where
  enter :
      {s : System} {a : Admission} {p : HandshakePermit}
      → handshake s.admission ≡ ok (a, p)
      → Step s (record s { admission = a; handshakes = p ∷ s.handshakes })
  connect :
      {s : System} {a : Admission}
      → quic_context s.admission ≡ ok a
      → Step s (record s { admission = a; contexts = s.contexts + 1 })
  disconnect :
      {s : System} {n : ℕ}
      → s.contexts ≡ suc n
      → Step s (record s { admission = drop_context s.admission; contexts = n })
  authenticate :
      {s : System} {a : Admission} (p q : HandshakePermit) (xs ys : List HandshakePermit)
      (text : Str)
      → s.handshakes ≡ xs ++ p ∷ ys
      → authenticated p text s.admission ≡ ok (a, q)
      → Step s (record s { admission = a; handshakes = xs ++ q ∷ ys })
  start_work :
      {s : System} {a : Admission} (p : HandshakePermit) (w : TargetWorkPermit)
      (xs ys : List HandshakePermit) (text : Str)
      → s.handshakes ≡ xs ++ p ∷ ys
      → permit_work p text s.admission ≡ ok (a, w)
      → Step s (record s { admission = a; works = w ∷ s.works })
  leave :
      {s : System} {a : Admission} (p : HandshakePermit) (xs ys : List HandshakePermit)
      → s.handshakes ≡ xs ++ p ∷ ys
      → drop_handshake p s.admission ≡ ok a
      → Step s (record s { admission = a; handshakes = xs ++ ys })
  end_work :
      {s : System} {a : Admission} (w : TargetWorkPermit) (xs ys : List TargetWorkPermit)
      → s.works ≡ xs ++ w ∷ ys
      → drop_work w s.admission ≡ ok a
      → Step s (record s { admission = a; works = xs ++ ys })

abbrev pub idle : System
idle = record { admission = default; handshakes = []; contexts = 0; works = [] }

-- What the node comes to from the start, in any interleaving of calls and drops.
pub data Reached : System → Type 0 where
  started : Reached idle
  stepped : {s t : System} → Reached s → Step s t → Reached t
