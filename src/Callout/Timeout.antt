-- ===== src/Callout/Timeout.antt =====
-- UNIX_timeout keeps the table in the order of the deadlines, and what it does with a full table.
use hostable_32v.Prelude.{
  ℕ, suc, ◌+◌, ◌-◌, ◌≤◌, ◌<◌, ◌≡◌, refl, true, false, [], ◌∷◌, arith, leb, ltb, if◌then◌else◌,
  length, none, some, ◌⊎◌, inl, inr, Bool-cases, ap, ◌∙◌,
}
use hostable_32v.Callout.{Callo, Table, ok, panic, overrun, shift, place, timeout}
use hostable_32v.Callout.Due.{deadline, due_from, due, insert, total}

-- The entry was placed: the deadlines from `b` on have got the new one.
pub record Placed (t fun arg : ℕ) (table r : Table) : Type 0 where
  pub dues : (b : ℕ) → due_from b r ≡ insert (deadline (b + t) arg fun) (due_from b table)
  pub one_more : length r ≡ suc (length table)

Placed-later :
    {t fun arg : ℕ} (e : Callo) {es r : Table}
    → e.c_time ≤ t
    → Placed (t - e.c_time) fun arg es r
    → Placed t fun arg (e ∷ es) (e ∷ r)
Placed-later {t} {fun} {arg} e {es} {r} h p = record {
  dues = λ b.
      let same : b + e.c_time + (t - e.c_time) ≡ b + t = omega arith in
      let test : leb (b + e.c_time) (b + t) ≡ true = ground arith in
      rw (test, p.dues (b + e.c_time), same) refl;
  one_more = omega (arith, p.one_more);
}

Placed-here :
    (t fun arg : ℕ) (table : Table)
    → ((e : Callo) (es : Table) → table ≡ e ∷ es → t < e.c_time)
    → Placed t fun arg table (shift t fun arg table)
Placed-here t fun arg [] h = record { dues = λ b. refl; one_more = refl }
Placed-here t fun arg (e ∷ es) h = record {
  dues = λ b.
      let late = h e es refl in
      let test : leb (b + e.c_time) (b + t) ≡ false = ground arith in
      let same : b + t + (e.c_time - t) ≡ b + e.c_time = omega arith in rw (test, same) refl;
  one_more = refl;
}

pub place-Placed :
    (i t fun arg : ℕ) (table : Table)
    → i + length table < 19
    → (r : Table) × (place i t fun arg table ≡ some r) × Placed t fun arg table r
unfolding place
place-Placed i t fun arg [] h =
    (shift t fun arg [], ground arith, Placed-here t fun arg [] (λ e es eq. cc))
place-Placed i t fun arg (e ∷ es) h = elim (Bool-cases (leb e.c_time t)) [
  | inl on ↦
      let (r, eq, p) = place-Placed (i + 1) (t - e.c_time) fun arg es (omega arith) in
      (e ∷ r, rw (on, eq) refl, Placed-later e (ground arith) p)
  | inr stop ↦ (
    shift t fun arg (e ∷ es),
    rw stop (ground arith),
    Placed-here t fun arg (e ∷ es) (λ f fs eq. ground (arith, eq)),
  )
]

pub timeout-some :
    (table r : Table) (fun arg tim : ℕ)
    → place 0 tim fun arg table ≡ some r
    → timeout table fun arg tim ≡ (if ltb 19 (length r) then overrun else ok r)
unfolding timeout
timeout-some table r fun arg tim e = rw (e, timeout) refl

-- While fewer than NCALL - 1 calls are pending, timeout returns, and the call is due in `tim`
-- ticks, after the calls that are due no later; every other call is due when it was.
pub timeout-due :
    (table : Table) (fun arg tim : ℕ)
    → length table < 19
    → (table' : Table) × (timeout table fun arg tim ≡ ok table')
      × (due table' ≡ insert (deadline tim arg fun) (due table))
      × (length table' ≡ suc (length table))
timeout-due table fun arg tim h =
    let (r, eq, p) = place-Placed 0 tim fun arg table (omega arith) in
    let fits : ltb 19 (length r) ≡ false = ground (arith, p.one_more) in
    let now : 0 + tim ≡ tim = omega arith in
    (
      r,
      timeout-some table r fun arg tim eq ∙ rw fits refl,
      p.dues 0 ∙ ap (λ k. insert (deadline k arg fun) (due table)) now,
      p.one_more,
    )

timeout-none :
    (table : Table) (fun arg tim : ℕ)
    → place 0 tim fun arg table ≡ none
    → timeout table fun arg tim ≡ panic
unfolding timeout
timeout-none table fun arg tim e = rw (e, timeout) refl

-- Entry by entry: either the place is found before the table's end, or every call is due by then.
place-full :
    (i t fun arg : ℕ) (table : Table)
    → i + length table ≡ 19
    → ((place i t fun arg table ≡ none) × (total table ≤ t))
      ⊎ ((r : Table) × (place i t fun arg table ≡ some r)
          × (length r ≡ suc (length table))
          × (t < total table))
unfolding place total
place-full i t fun arg [] h = inl (ground arith, omega arith)
place-full i t fun arg (e ∷ es) h = elim (Bool-cases (leb e.c_time t)) [
  | inl on ↦ elim (place-full (i + 1) (t - e.c_time) fun arg es (omega arith)) [
    | inl (eq, last) ↦ inl (rw (on, eq) refl, ground arith)
    | inr (r, eq, len, early) ↦ inr (e ∷ r, rw (on, eq) refl, omega (arith, len), ground arith)
  ]
  | inr stop ↦ inr (shift t fun arg (e ∷ es), rw stop (ground arith), refl, ground arith)
]

-- With NCALL - 1 calls pending timeout does not return: it panics where the new call is due last,
-- and otherwise it moves the end of the table past the array, which its test does not notice.
pub timeout-full :
    (table : Table) (fun arg tim : ℕ)
    → length table ≡ 19
    → ((timeout table fun arg tim ≡ panic) × (total table ≤ tim))
      ⊎ ((timeout table fun arg tim ≡ overrun) × (tim < total table))
timeout-full table fun arg tim h = elim (place-full 0 tim fun arg table (omega arith)) [
  | inl (eq, last) ↦ inl (timeout-none table fun arg tim eq, last)
  | inr (r, eq, len, early) ↦
      let over : ltb 19 (length r) ≡ true = ground (arith, len) in
      inr (timeout-some table r fun arg tim eq ∙ rw over refl, early)
]
