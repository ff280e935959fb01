-- ===== src/Callout/Tick.antt =====
-- The countdown brings every deadline one tick nearer, and the calls made are those due.
use hostable_32v.Prelude.{
  ℕ, suc, ◌+◌, ◌-◌, ◌≡◌, refl, [], ◌∷◌, arith, ◌==◌, map, inl, inr, Bool-cases, ap,
}
use hostable_32v.Callout.{Table, count_down}
use hostable_32v.Callout.Due.{deadline, due_from, due, sooner}

sooner-due_from : (b : ℕ) (table : Table) → map sooner (due_from (suc b) table) ≡ due_from b table
sooner-due_from b [] = refl
sooner-due_from b (e ∷ es) =
    let first : suc b + e.c_time - 1 ≡ b + e.c_time = omega arith in
    let next : suc b + e.c_time ≡ suc (b + e.c_time) = omega arith in
    rw (first, next, sooner-due_from (b + e.c_time) es) refl

-- The countdown of the clock brings every deadline one tick nearer; one that has come stays.
pub due-count_down : (table : Table) → due (count_down table) ≡ map sooner (due table)
unfolding count_down
due-count_down [] = refl
due-count_down (e ∷ es) = elim (Bool-cases (e.c_time == 0)) [
  | inl z ↦ let now : 0 + e.c_time ≡ 0 = ground arith in rw (z, now, due-count_down es) refl
  | inr late ↦
      let s : 0 + e.c_time ≡ suc (0 + (e.c_time - 1)) = ground arith in
      rw (late, s, sooner-due_from (0 + (e.c_time - 1)) es)
        (ap (λ k. deadline k e.c_arg e.c_func ∷ due_from (0 + (e.c_time - 1)) es) (omega arith))
]
