-- ===== src/Tests/SmallBytes.antt =====
-- Deciding that the numbers of a concrete byte string are bytes.
use werewolfproxy.Shared.{ℕ, ◌≡◌, ◌<◌, Bool, true, ◌&&◌, [], ◌∷◌, All, ltb, arith, &&-true}
use werewolfproxy.Shared.Bytes.{Bytes}

abbrev pub all_small : Bytes → Bool
all_small [] = true
all_small (b ∷ bs) = ltb b 256 && all_small bs

pub all_small-All : (bs : Bytes) → all_small bs ≡ true → All (λ (b : ℕ). b < 256) bs
all_small-All [] h = tt
all_small-All (b ∷ bs) h = (
  ground (arith, &&-true (ltb b 256) (all_small bs)),
  all_small-All bs (&&-true (ltb b 256) (all_small bs) h).1,
)
