-- ===== src/Prelude/Stores.antt =====
-- Reading a list with a default behind a write.
use Prim.Native.Nat.{ℕ, zero, suc, ◌≤◌}
use mathlib.Core.Path.{◌≡◌, refl}
use mathlib.Core.List.{List, [], ◌∷◌}
use native.Mathlib.Omega.{arith}
use uestc_shixvn_mini_web_se.Prelude.Lists.{length, get_or, set}
use uestc_shixvn_mini_web_se.Prelude.Tests.{ltb, ◌==◌, if◌then◌else◌}

pub get_or-set {ℓ} :
    {A : Type ℓ} (xs : List A) (j i : ℕ) (v d : A)
    → get_or (set xs j v) i d
      ≡ (if i == j then (if ltb j (length xs) then v else d) else get_or xs i d)
get_or-set [] j i v d = ground arith
get_or-set (x ∷ xs) zero zero v d = ground arith
get_or-set (x ∷ xs) zero (suc i) v d = ground arith
get_or-set (x ∷ xs) (suc j) zero v d = ground arith
get_or-set (x ∷ xs) (suc j) (suc i) v d = ground (arith, get_or-set xs j i v d)

pub get_or-beyond {ℓ} :
    {A : Type ℓ} (xs : List A) (i : ℕ) (d : A) → length xs ≤ i → get_or xs i d ≡ d
get_or-beyond [] i d h = refl
get_or-beyond (x ∷ xs) zero d h = absurd (omega arith)
get_or-beyond (x ∷ xs) (suc i) d h = get_or-beyond xs i d (omega arith)
