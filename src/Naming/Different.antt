-- ===== src/Naming/Different.antt =====
-- The search for repeated texts that crates/werewolf-core/src/service.rs makes over the names of
-- services and over the peers of one service, and lemmas for such loops.
use werewolfproxy.Shared.{◌≡◌, refl, ◌↔◌, Bool, false, ◌||◌, List, [], ◌∷◌, ◌++◌, All, arith}
use werewolfproxy.Shared.Bytes.{bytes_eq}
use werewolfproxy.Shared.Sorted.{contains}
use werewolfproxy.Naming.Text.{Text}

-- `.iter().enumerate().any(|(i, x)| xs[..i].contains(x))`, `seen` being `xs[..i]`
unfoldable pub any_repeated : List Text → List Text → Bool
any_repeated seen [] = false
any_repeated seen (x ∷ xs) = contains seen x || any_repeated (seen ++ x ∷ []) xs

-- No two of the texts are equal.
abbrev pub AllDifferent : List Text → Type 0
AllDifferent [] = Unit
AllDifferent (x ∷ xs) = All (λ (y : Text). bytes_eq x y ≡ false) xs × AllDifferent xs

abbrev pub NoneIn : List Text → List Text → Type 0
NoneIn seen xs = All (λ (x : Text). contains seen x ≡ false) xs

contains-append_end :
    (seen : List Text) (x y : Text)
    → contains (seen ++ x ∷ []) y ≡ (contains seen y || bytes_eq x y)
unfolding contains
contains-append_end [] x y = ground arith
contains-append_end (z ∷ seen) x y = ground (arith, contains-append_end seen x y)

pub NoneIn-append_split :
    (seen : List Text) (x : Text) (xs : List Text)
    → NoneIn (seen ++ x ∷ []) xs
    → NoneIn seen xs × All (λ (y : Text). bytes_eq x y ≡ false) xs
NoneIn-append_split seen x [] h = (tt, tt)
NoneIn-append_split seen x (y ∷ ys) h =
    let (a, b) = NoneIn-append_split seen x ys h.1 in
    (
      (ground (arith, contains-append_end seen x y, h.0), a),
      (ground (arith, contains-append_end seen x y, h.0), b),
    )

pub NoneIn-append :
    (seen : List Text) (x : Text) (xs : List Text)
    → NoneIn seen xs
    → All (λ (y : Text). bytes_eq x y ≡ false) xs
    → NoneIn (seen ++ x ∷ []) xs
NoneIn-append seen x [] h k = tt
NoneIn-append seen x (y ∷ ys) h k =
    (ground (arith, contains-append_end seen x y, h.0, k.0), NoneIn-append seen x ys h.1 k.1)

any_repeated_sound :
    (seen xs : List Text) → any_repeated seen xs ≡ false → NoneIn seen xs × AllDifferent xs
unfolding any_repeated
any_repeated_sound seen [] h = (tt, tt)
any_repeated_sound seen (x ∷ xs) h =
    let (a, b) = any_repeated_sound (seen ++ x ∷ []) xs (ground arith) in
    let (c, d) = NoneIn-append_split seen x xs a in ((ground arith, c), (d, b))

any_repeated_complete :
    (seen xs : List Text) → NoneIn seen xs → AllDifferent xs → any_repeated seen xs ≡ false
unfolding any_repeated
any_repeated_complete seen [] h k = refl
any_repeated_complete seen (x ∷ xs) h k =
    rw (h.0, any_repeated_complete (seen ++ x ∷ []) xs (NoneIn-append seen x xs h.1 k.0) k.1) refl

pub NoneIn-empty : (xs : List Text) → NoneIn [] xs
unfolding contains
NoneIn-empty [] = tt
NoneIn-empty (x ∷ xs) = (refl, NoneIn-empty xs)

pub any_repeated-AllDifferent : (xs : List Text) → (any_repeated [] xs ≡ false) ↔ AllDifferent xs
any_repeated-AllDifferent xs =
    (λ h. (any_repeated_sound [] xs h).1, λ d. any_repeated_complete [] xs (NoneIn-empty xs) d)
