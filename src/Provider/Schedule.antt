-- ===== src/Provider/Schedule.antt =====
-- A schedule that completes every goroutine of a batch: the last call first.
use gonesis.Prelude.{ℕ, zero, suc, ◌<◌, List, [], ◌∷◌, inl, inr, arith}
use native.Mathlib.Decide.{ℕ_discrete}
use gonesis.Provider.Batch.{Occurs}

-- The indices below `n`, the last one first.
abbrev pub down_from : ℕ → List ℕ
down_from zero = []
down_from (suc n) = n ∷ down_from n

pub down_from-Occurs : (n i : ℕ) → i < n → Occurs i (down_from n)
down_from-Occurs zero i h = elim h [ ]
down_from-Occurs (suc n) i h = elim (ℕ_discrete i n) [
  | yes e ↦ inl e
  | no ne ↦ inr (down_from-Occurs n i (omega arith))
]
