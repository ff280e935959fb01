-- ===== src/Prelude/Outcomes.antt =====
-- The outcome of a call in a program that may panic and loop.

-- A call returns, panics, or needs more rounds.
pub data Outcome {ℓ} (A : Type ℓ) : Type ℓ where
  done : A → Outcome A
  panics : Outcome A
  out_of_fuel : Outcome A

abbrev pub and_then {ℓ κ} : {A : Type ℓ} {B : Type κ} → Outcome A → (A → Outcome B) → Outcome B
and_then (done a) k = k a
and_then panics k = panics
and_then out_of_fuel k = out_of_fuel
