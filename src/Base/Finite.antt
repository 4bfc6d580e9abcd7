-- ===== src/Base/Finite.antt =====
-- Checks of all the numbers below a bound.
use homemade_risc_v_64_vecto.Base.{
  ℕ, zero, suc, ◌<◌, ◌≡◌, ◌==◌, ==_iff, ◌&&◌, Bool, true, Bool-cases, inl, inr, arith,
}

abbrev pub all_below : ℕ → (ℕ → Bool) → Bool
all_below zero f = true
all_below (suc n) f = f n && all_below n f

pub all_below_sound : (n : ℕ) (f : ℕ → Bool) (i : ℕ) → all_below n f ≡ true → i < n → f i ≡ true
all_below_sound zero f i h k = elim k [ ]
all_below_sound (suc n) f i h k = elim (Bool-cases (i == n)) [
  | inl e ↦ rw ((==_iff i n).0 e) (ground arith)
  | inr e ↦ all_below_sound n f i (ground arith) (ground arith)
]
