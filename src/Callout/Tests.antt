-- ===== src/Callout/Tests.antt =====
-- The callout table at concrete inputs.
use hostable_32v.Prelude.{ℕ, ◌≤◌, ◌<◌, ◌≡◌, refl, false, [], ◌∷◌, arith, length, ◌⊎◌, replicate}
use hostable_32v.Callout.{
  Callo, Table, ok, panic, overrun, place, timeout, count_down, serve, Handlers, call_loop, ticked,
  compact, clock_callouts,
}
use hostable_32v.Callout.Due.{deadline, due, insert, total}
use hostable_32v.Callout.Timeout.{timeout-due, timeout-full}
use hostable_32v.Callout.Ripe.{ripe}
use hostable_32v.Callout.Calls.{Clocked, clock-Clocked}

abbrev callo : ℕ → ℕ → ℕ → Callo
callo t a f = record { c_time = t; c_arg = a; c_func = f }

-- Due in 1, 1 and 5 ticks.
abbrev three : Table
three = callo 1 0 7 ∷ callo 0 1 8 ∷ callo 4 2 9 ∷ []

-- Function 7 asks to be called again 3 ticks later.
abbrev again : Handlers
again e = record { fun = 7; arg = e.c_arg; tim = 3 } ∷ []

timeout_sorts_in :
    timeout three 6 3 1 ≡ ok (callo 1 0 7 ∷ callo 0 1 8 ∷ callo 0 3 6 ∷ callo 4 2 9 ∷ [])
unfolding timeout place
timeout_sorts_in = refl

clock_calls_two :
    clock_callouts again false three
    ≡ ticked (callo 0 0 7 ∷ callo 0 1 8 ∷ []) (callo 3 0 7 ∷ callo 0 1 7 ∷ callo 1 2 9 ∷ [])
unfolding clock_callouts count_down call_loop serve timeout place compact
clock_calls_two = refl

timeout-due_example :
    (table' : Table) × (timeout three 6 3 1 ≡ ok table')
    × (due table' ≡ insert (deadline 1 3 6) (due three))
    × (length table' ≡ 4)
timeout-due_example = timeout-due three 6 3 1 (omega arith)

timeout-full_example :
    ((timeout (replicate 19 (callo 1 0 7)) 8 0 5 ≡ panic)
      × (total (replicate 19 (callo 1 0 7)) ≤ 5))
    ⊎ ((timeout (replicate 19 (callo 1 0 7)) 8 0 5 ≡ overrun)
        × (5 < total (replicate 19 (callo 1 0 7))))
timeout-full_example = timeout-full (replicate 19 (callo 1 0 7)) 8 0 5 refl

timeout_overruns : timeout (replicate 19 (callo 1 0 7)) 8 0 5 ≡ overrun
unfolding timeout place
timeout_overruns = refl

clock-Clocked_example : Clocked again three (clock_callouts again false three)
unfolding count_down ripe
clock-Clocked_example = clock-Clocked again three (λ e. (omega arith, tt)) (omega arith)
