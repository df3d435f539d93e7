-- ===== src/Prelude/Numbers.antt =====
-- A number of the source that need not be a natural one.
use Prim.Native.Nat.{ℕ}
-- `other` is negative, fractional or not finite.
use mathlib.Core.Path.{◌≡◌, refl}
use mathlib.Core.Logic.{◌⊎◌, inl, inr}

pub data Number : Type 0 where
  natural : ℕ → Number
  other : Number

pub Number-cases : (x : Number) → (x ≡ other) ⊎ ((n : ℕ) × (x ≡ natural n))
Number-cases other = inl refl
Number-cases (natural n) = inr (n, refl)
