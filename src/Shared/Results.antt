-- ===== src/Shared/Results.antt =====
-- `Result<A, E>` with `?` as the bind of a `do` block.
use mathlib.Core.Path.{◌≡◌, refl}
use mathlib.Core.Bool.{Bool, true, false}
use mathlib.Core.Logic.{◌⊎◌, inl, inr}

pub data Result {ℓ κ} (E : Type κ) (A : Type ℓ) : Type (ℓ ⊔ κ) where
  ok : A → Result E A
  err : E → Result E A

-- An early `return Err(e)`, taken unless the test holds.
abbrev pub ensure {μ} : {E : Type μ} → Bool → E → Result E (Unit {0})
ensure test failure = elim test [ true ↦ ok tt | false ↦ err failure ]

-- `?`: go on with the value, or return the error.
infixl 5 ◌>>=◌ ◌>>◌
abbrev pub ◌>>=◌ {ℓ κ μ} :
    {E : Type μ} {A : Type ℓ} {B : Type κ} → Result E A → (A → Result E B) → Result E B
result >>= next = elim result [ ok value ↦ next value | err failure ↦ err failure ]

-- `?` on a call that is made for its error only
abbrev pub ◌>>◌ {κ μ} : {E : Type μ} {B : Type κ} → Result E (Unit {0}) → Result E B → Result E B
first >> second = first >>= λ done. second

-- Inversion of a successful `?`.
pub >>=-eq-ok {ℓ κ μ} :
    {E : Type μ} {A : Type ℓ} {B : Type κ} (result : Result E A) (next : A → Result E B)
    {outcome : B}
    → (result >>= next) ≡ ok outcome
    → (value : A) × (result ≡ ok value) × (next value ≡ ok outcome)
>>=-eq-ok (ok value) next success = (value, refl, success)
>>=-eq-ok (err failure) next success = cc

pub ensure-eq-ok {μ} : {E : Type μ} (b : Bool) (e : E) {u : Unit {0}} → ensure b e ≡ ok u → b ≡ true
ensure-eq-ok true e h = refl
ensure-eq-ok false e h = cc

pub ok-injective {ℓ μ} :
    {E : Type μ} {A : Type ℓ} {a b : A} → (let r : Result E A = ok a in r) ≡ ok b → a ≡ b
ok-injective p = cc

-- Inversion of a successful early return.
pub ensure-bind-eq-ok {ℓ μ} :
    {E : Type μ} {A : Type ℓ} (b : Bool) (e : E) (m : Result E A) {a : A}
    → (ensure b e >> m) ≡ ok a
    → (b ≡ true) × (m ≡ ok a)
ensure-bind-eq-ok true e m h = (refl, h)
ensure-bind-eq-ok false e m h = cc

pub Result-cases {ℓ μ} :
    {E : Type μ} {A : Type ℓ} (r : Result E A) → ((a : A) × (r ≡ ok a)) ⊎ ((e : E) × (r ≡ err e))
Result-cases (ok a) = inl (a, refl)
Result-cases (err e) = inr (e, refl)
