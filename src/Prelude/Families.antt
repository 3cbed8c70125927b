-- ===== src/Prelude/Families.antt =====
-- Families that are indexed by numbers, changed at one index.
use Prim.Native.Nat.{ℕ}
use mathlib.Core.Path.{◌≡◌}
use mathlib.Core.Logic.{◌≢◌, ◌⊎◌, inl, inr, ite, if_pos, if_neg}
use native.Mathlib.Decide.{ℕ_discrete}

abbrev pub replace {ℓ} : {A : Type ℓ} → (ℕ → A) → (i : ℕ) → A → ℕ → A
replace f i a j = ite (ℕ_discrete i j) a (f j)

pub replace_cases {ℓ} :
    {A : Type ℓ} (f : ℕ → A) (i : ℕ) (a : A) (j : ℕ)
    → ((i ≡ j) × (replace f i a j ≡ a)) ⊎ ((i ≢ j) × (replace f i a j ≡ f j))
replace_cases f i a j = elim (ℕ_discrete i j) [
  | yes same ↦ inl (same, if_pos (ℕ_discrete i j) same a (f j))
  | no other ↦ inr (other, if_neg (ℕ_discrete i j) other a (f j))
]
