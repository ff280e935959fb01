-- ===== src/Callout.antt =====
-- The callout table of clock.c and h/callo.h: UNIX_timeout, and the part of UNIX_clock that counts
-- the table down and makes the calls.
pub mod Due
pub mod Timeout
pub mod Tick
pub mod Ripe
pub mod Calls
mod Tests
use hostable_32v.Prelude.{
  ℕ, zero, suc, ◌+◌, ◌-◌, Bool, true, false, Option, none, some, List, [], ◌∷◌, ltb, leb, ◌==◌,
  if◌then◌else◌, length, get_elem?, drop,
}

-- `struct callo`. The function and its argument are opaque numbers.
pub record Callo : Type 0 where
  pub c_time : ℕ
  pub c_arg : ℕ
  pub c_func : ℕ

-- The entries of `callout` before the first with no `c_func`. Their times are never negative: a
-- time is decremented only when positive. The time of the entry that ends the table is never used.
abbrev pub Table : Type 0
Table = List Callo

abbrev pub ncall : ℕ
ncall = 20

-- UNIX_timeout returns with a table, panics, or writes the end of the table past the array.
pub data Outcome : Type 0 where
  ok : Table → Outcome
  panic : Outcome
  overrun : Outcome

-- What follows the panic test, for the entry at index `i` that the first loop has stopped at: the
-- entries from there on go up by one and the new one takes their place.
abbrev pub shift : ℕ → ℕ → ℕ → Table → Table
shift t fun arg [] = record { c_time = t; c_arg = arg; c_func = fun } ∷ []
shift t fun arg (e ∷ es) =
    record { c_time = t; c_arg = arg; c_func = fun } ∷ record e { c_time = e.c_time - t } ∷ es

-- The first loop of UNIX_timeout, from index `i` on, and what follows it; `none` is the panic.
pub place : ℕ → ℕ → ℕ → ℕ → Table → Option Table
place i t fun arg [] = if leb (ncall - 1) i then none else some (shift t fun arg [])
place i t fun arg (e ∷ es) =
    let later = place (i + 1) (t - e.c_time) fun arg es in
    if leb e.c_time t
    then elim later [ none ↦ none | some r ↦ some (e ∷ r) ]
    else if leb (ncall - 1) i
    then none
    else some (shift t fun arg (e ∷ es))

-- UNIX_timeout. The loop that moves the entries moves the end of the table too: the slot it goes to
-- is the array's only while NCALL - 1 entries or fewer are in use.
unfoldable pub timeout : Table → ℕ → ℕ → ℕ → Outcome
timeout table fun arg tim = elim (place 0 tim fun arg table) [
  | none ↦ panic
  | some r ↦ if ltb (ncall - 1) (length r) then overrun else ok r
]

-- The countdown of UNIX_clock: the first entry whose time is not 0 is decremented.
unfoldable pub count_down : Table → Table
count_down [] = []
count_down (e ∷ es) =
    if e.c_time == 0 then e ∷ count_down es else record e { c_time = e.c_time - 1 } ∷ es

-- A call of UNIX_timeout that a called function makes.
pub record Request : Type 0 where
  pub fun : ℕ
  pub arg : ℕ
  pub tim : ℕ

pub serve : List Request → Table → Outcome
serve [] table = ok table
serve (r ∷ rs) table = elim (timeout table r.fun r.arg r.tim) [
  | ok table' ↦ serve rs table'
  | panic ↦ panic
  | overrun ↦ overrun
]

-- What the functions in the table do is not in clock.c: here, which timeouts each call asks for.
abbrev pub Handlers : Type 0
Handlers = Callo → List Request

-- The calls made, and the table that they leave with the index of the first entry not called.
pub data Called : Type 0 where
  called : List Callo → ℕ → Table → Called
  stopped : Outcome → Called
  out_of_fuel : Called

abbrev pub also : Callo → Called → Called
also e (called es i table) = called (e ∷ es) i table
also e (stopped o) = stopped o
also e out_of_fuel = out_of_fuel

-- The loop over `p1`, the entry at index `i`, that makes the calls.
pub call_loop : ℕ → Handlers → ℕ → Table → Called
call_loop zero hs i table = out_of_fuel
call_loop (suc fuel) hs i table = elim (get_elem? table i) [
  | none ↦ called [] i table
  | some e ↦ elim (e.c_time == 0) [
    | true ↦ elim (serve (hs e) table) [
      | ok table' ↦ also e (call_loop fuel hs (i + 1) table')
      | panic ↦ stopped panic
      | overrun ↦ stopped overrun
    ]
    | false ↦ called [] i table
  ]
]

-- The callout part of UNIX_clock: `high` is its BASEPRI(ps), at which no call is made. The second
-- loop moves the entries from `p1` on to the front. There are at most NCALL rounds.
pub data Ticked : Type 0 where
  ticked : List Callo → Table → Ticked
  broken : Ticked

pub compact : Called → Ticked
compact (called es i table) = ticked es (drop i table)
compact (stopped o) = broken
compact out_of_fuel = broken

unfoldable pub clock_callouts : Handlers → Bool → Table → Ticked
clock_callouts hs high [] = ticked [] []
clock_callouts hs high (e ∷ es) =
    let table = count_down (e ∷ es) in
    if high then ticked [] table else compact (call_loop (ncall + 1) hs 0 table)
