-- ===== src/Callout/Due.antt =====
-- The abstract view of the callout table: when each call is due, counted in ticks from now.
use hostable_32v.Prelude.{ℕ, ◌+◌, ◌-◌, List, [], ◌∷◌, leb, ◌==◌, if◌then◌else◌}
use hostable_32v.Callout.{Table, Request}

pub record Deadline : Type 0 where
  pub at : ℕ
  pub arg : ℕ
  pub fun : ℕ

abbrev pub deadline : ℕ → ℕ → ℕ → Deadline
deadline at arg fun = record { at = at; arg = arg; fun = fun }

-- The deadlines of a table whose first entry counts from `b` ticks on.
abbrev pub due_from : ℕ → Table → List Deadline
due_from b [] = []
due_from b (e ∷ es) = deadline (b + e.c_time) e.c_arg e.c_func ∷ due_from (b + e.c_time) es

abbrev pub due : Table → List Deadline
due = due_from 0

-- A deadline goes behind those that are not later.
abbrev pub insert : Deadline → List Deadline → List Deadline
insert d [] = d ∷ []
insert d (e ∷ es) = if leb e.at d.at then e ∷ insert d es else d ∷ e ∷ es

abbrev pub insert_all : List Request → List Deadline → List Deadline
insert_all [] ds = ds
insert_all (r ∷ rs) ds = insert_all rs (insert (deadline r.tim r.arg r.fun) ds)

-- One tick nearer, but never before now.
abbrev pub sooner : Deadline → Deadline
sooner d = record d { at = d.at - 1 }

-- The deadline of the last entry.
unfoldable pub total : Table → ℕ
total [] = 0
total (e ∷ es) = e.c_time + total es

-- The deadlines that have come, at the front, and those after them.
abbrev pub reached : List Deadline → List Deadline
reached [] = []
reached (d ∷ ds) = if d.at == 0 then d ∷ reached ds else []

abbrev pub waiting : List Deadline → List Deadline
waiting [] = []
waiting (d ∷ ds) = if d.at == 0 then waiting ds else d ∷ ds
