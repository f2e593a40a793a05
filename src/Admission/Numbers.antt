-- ===== src/Admission/Numbers.antt =====
-- The numbers of permits that are held, as permits come and go
-- (crates/werewolfd/src/admission.rs).
use werewolfproxy.Shared.{
  ℕ, zero, suc, ◌+◌, ◌≤◌, ◌<◌, ◌≡◌, refl, sym, ap, ◌∙◌, Option, none, some, List, [], ◌∷◌, ◌++◌,
  length, arith, Bool-cases, inl, inr,
}
use werewolfproxy.Shared.Bytes.{Bytes, bytes_eq, bytes_eq_sound}
use werewolfproxy.Shared.Results.{ok, ok-injective}
use werewolfproxy.Admission.Permits.{Counters, is_peer, default, try_acquire}
use werewolfproxy.Admission.Balance.{
  held, held-insert, one_if, entry, Counts, OneMore, OneMore-same, OneMore-other, System, peer_of,
  target_of, idle,
}

-- The semaphores and the counters agree with the permits held, and no peer holds too many.
pub record Balanced (s : System) : Type 0 where
  pub global_eq : s.admission.global + length s.handshakes ≡ 256
  pub contexts_eq : s.admission.contexts + s.contexts ≡ 128
  pub work_eq : s.admission.target_work + length s.works ≡ 64
  pub limit_eq : s.admission.peer_limit ≡ 16
  pub peers_counted : Counts s.admission.peers (held peer_of s.handshakes)
  pub peers_bounded : (key : Bytes) → held peer_of s.handshakes key ≤ 16
  pub targets_counted : Counts s.admission.target_peers (held target_of s.works)
  pub targets_bounded : (key : Bytes) → held target_of s.works key ≤ 8

pub try_acquire-eq-ok : (n m : ℕ) → try_acquire n ≡ ok m → n ≡ suc m
unfolding try_acquire
try_acquire-eq-ok zero m h = cc
try_acquire-eq-ok (suc n) m h = ap suc (ok-injective h)

pub idle-Balanced : Balanced idle
unfolding held default
idle-Balanced = record {
  global_eq = refl;
  contexts_eq = refl;
  work_eq = refl;
  limit_eq = refl;
  peers_counted = λ key. refl;
  peers_bounded = λ key. omega arith;
  targets_counted = λ key. refl;
  targets_bounded = λ key. omega arith;
}

pub length-insert {ℓ} :
    {P : Type ℓ} (xs : List P) (p : P) (ys : List P)
    → length (xs ++ p ∷ ys) ≡ suc (length (xs ++ ys))
length-insert [] p ys = refl
length-insert (x ∷ xs) p ys = ap suc (length-insert xs p ys)

pub Counts-same :
    (counters : Counters) (n m : Bytes → ℕ)
    → ((key : Bytes) → m key ≡ n key)
    → Counts counters n
    → Counts counters m
Counts-same counters n m same c key = c key ∙ ap entry (sym (same key))

pub bounded-same :
    (bound : ℕ) (n m : Bytes → ℕ)
    → ((key : Bytes) → m key ≡ n key)
    → ((key : Bytes) → n key ≤ bound)
    → (key : Bytes) → m key ≤ bound
bounded-same bound n m same b key = omega (arith, same key, b key)

-- One more permit of a peer that had fewer than the bound keeps the bound.
pub bounded-OneMore :
    (bound : ℕ) (key : Bytes) (fewer more : Bytes → ℕ)
    → OneMore key more fewer
    → fewer key < bound
    → ((k : Bytes) → fewer k ≤ bound)
    → (k : Bytes) → more k ≤ bound
bounded-OneMore bound key fewer more one room b k = elim (Bool-cases (bytes_eq k key)) [
  | inl e ↦
      let here = ap fewer (bytes_eq_sound k key e) in
      omega (arith, room, OneMore-same key more fewer k one e, here)
  | inr e ↦ omega (arith, b k, OneMore-other key more fewer k one e)
]

pub bounded_one_less :
    (bound : ℕ) (key : Bytes) (fewer more : Bytes → ℕ)
    → OneMore key more fewer
    → ((k : Bytes) → more k ≤ bound)
    → (k : Bytes) → fewer k ≤ bound
bounded_one_less bound key fewer more one b k = elim (Bool-cases (bytes_eq k key)) [
  | inl e ↦ omega (arith, b k, OneMore-same key more fewer k one e)
  | inr e ↦ omega (arith, b k, OneMore-other key more fewer k one e)
]

-- the numbers of a list with a permit of no peer, and with a permit of a peer
pub insert_unnamed {ℓ} :
    {P : Type ℓ} (peer : P → Option Bytes) (xs : List P) (p : P) (ys : List P)
    → peer p ≡ none
    → (key : Bytes) → held peer (xs ++ p ∷ ys) key ≡ held peer (xs ++ ys) key
insert_unnamed peer xs p ys e key =
    held-insert peer xs p ys key
    ∙ ap (λ (o : Option Bytes). one_if (is_peer key o) + held peer (xs ++ ys) key) e
    ∙ nothing
  where
    nothing : one_if (is_peer key none) + held peer (xs ++ ys) key ≡ held peer (xs ++ ys) key
    nothing = unfold is_peer in omega arith

pub insert_named {ℓ} :
    {P : Type ℓ} (peer : P → Option Bytes) (xs : List P) (p : P) (ys : List P) (k : Bytes)
    → peer p ≡ some k
    → OneMore k (held peer (xs ++ p ∷ ys)) (held peer (xs ++ ys))
insert_named peer xs p ys k e key =
    unfold is_peer in
    held-insert peer xs p ys key
    ∙ ap (λ (o : Option Bytes). one_if (is_peer key o) + held peer (xs ++ ys) key) e
