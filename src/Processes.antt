-- ===== src/Processes.antt =====
-- The processes of h/proc.h: their priorities, sleeping and waking and the queue of those that can
-- run, of slp.c.
pub mod Signals
mod Invariant
mod Wakeup
mod Bits
mod Deliver
mod Send
mod Next
mod Switch
mod Sleep
mod Act
mod Tests
pub use hostable_32v.Prelude.{Outcome, done, panics, out_of_fuel, and_then}
use hostable_32v.Prelude.{
  ℕ, zero, suc, ◌+◌, ◌-◌, ◌*◌, ◌/◌, ◌%◌, Bool, true, false, not, ◌&&◌, ◌||◌, Option, none, some,
  List, [], ◌∷◌, ltb, leb, ◌==◌, if◌then◌else◌, member, remove, override,
}

-- `struct proc`. An address is a number, 0 for none; the flags of `p_flag` are apart, and `p_sig`
-- is the pattern of its 16 bits.
pub record Proc : Type 0 where
  pub p_stat : ℕ
  pub s_load : Bool
  pub s_swap : Bool
  pub s_trc : Bool
  pub p_pri : ℕ
  pub p_time : ℕ
  pub p_cpu : ℕ
  pub p_nice : ℕ
  pub p_sig : ℕ
  pub p_pgrp : ℕ
  pub p_pid : ℕ
  pub p_ppid : ℕ
  pub p_wchan : ℕ

-- The process table, the list that begins at `runq`, the scheduling flags, and of `u` the current
-- process, what it does about each signal, and the error.
pub record Sched : Type 0 where
  pub proc : ℕ → Proc
  pub runq : List ℕ
  pub curpri : ℕ
  pub runrun : ℕ
  pub runout : ℕ
  pub runin : ℕ
  pub u_procp : ℕ
  pub u_signal : ℕ → ℕ
  pub u_error : ℕ

abbrev pub nproc : ℕ
nproc = 125

abbrev pub ssleep : ℕ
ssleep = 1

abbrev pub srun : ℕ
srun = 3

abbrev pub szomb : ℕ
szomb = 5

abbrev pub pzero : ℕ
pzero = 25

abbrev pub nzero : ℕ
nzero = 20

abbrev pub puser : ℕ
puser = 50

-- The addresses of the variables `runout` and `runin`.
abbrev pub runout_at : ℕ
runout_at = 1

abbrev pub runin_at : ℕ
runin_at = 2

abbrev pub put : ℕ → Proc → Sched → Sched
put p v s = record s { proc = override s.proc p v }

-- `runrun++` on a char.
abbrev pub run_again : Sched → Sched
run_again s = record s { runrun = (s.runrun + 1) % 256 }

-- UNIX_setrq.
unfoldable pub setrq : ℕ → Sched → Sched
setrq p s = if member p s.runq then s else record s { runq = p ∷ s.runq }

-- `p->p_wchan = 0; p->p_stat = SRUN;`
abbrev pub ready : Proc → Proc
ready v = record v { p_wchan = 0; p_stat = srun }

-- UNIX_setrun after its panic and up to its test of `runout`.
unfoldable pub setrun_start : ℕ → Sched → Sched
setrun_start p s =
    let s₁ = setrq p (put p (ready (s.proc p)) s) in
    if ltb (s₁.proc p).p_pri s₁.curpri then run_again s₁ else s₁

-- UNIX_setrun, where `wake` is its call of UNIX_wakeup.
unfoldable pub setrun_with : (Sched → Outcome Sched) → ℕ → Sched → Outcome Sched
setrun_with wake p s =
    if ((s.proc p).p_stat == 0) || ((s.proc p).p_stat == szomb)
    then panics
    else if not ((setrun_start p s).runout == 0) && not ((setrun_start p s).proc p).s_load
    then wake (record (setrun_start p s) { runout = 0 })
    else done (setrun_start p s)

-- The loop of UNIX_wakeup, with `k` processes to go from the process `i` on.
unfoldable pub wakeup_from : (Sched → Outcome Sched) → ℕ → ℕ → ℕ → Sched → Outcome Sched
wakeup_from wake zero i chan s = done s
wakeup_from wake (suc k) i chan s =
    and_then
      (if ((s.proc i).p_wchan == chan) && not ((s.proc i).p_stat == szomb)
        then setrun_with wake i s
        else done s)
      (wakeup_from wake k (suc i) chan)

-- UNIX_wakeup, which UNIX_setrun calls again, at most `fuel` deep.
unfoldable pub wakeup : ℕ → ℕ → Sched → Outcome Sched
wakeup zero chan s = out_of_fuel
wakeup (suc fuel) chan s = wakeup_from (wakeup fuel runout_at) nproc 0 chan s

-- UNIX_setrun.
abbrev pub setrun : ℕ → ℕ → Sched → Outcome Sched
setrun fuel p s = setrun_with (wakeup fuel runout_at) p s

-- UNIX_setpri.
unfoldable pub priority : Proc → ℕ
priority v = let p = v.p_cpu % 256 / 16 + (puser + v.p_nice - nzero) in if ltb 127 p then 127 else p

unfoldable pub setpri : ℕ → Sched → Sched
setpri p s =
    let n = priority (s.proc p) in
    put p (record (s.proc p) { p_pri = n }) (if ltb n s.curpri then run_again s else s)

-- The search of UNIX_swtch: the process `pp` found so far, and its priority.
pub best : (ℕ → Proc) → List ℕ → Option ℕ → ℕ → Option ℕ
best f [] pp n = pp
best f (p ∷ ps) pp n =
    if ((f p).p_stat == srun) && (f p).s_load && ltb (f p).p_pri n
    then best f ps (some p) (f p).p_pri
    else best f ps pp n

-- UNIX_swtch after its search, up to the resumption of the process that it picks or (`none`) its
-- call of UNIX_idle.
unfoldable pub switch_to : Sched → Option ℕ → Option ℕ × Sched
switch_to s none = (none, record s { runrun = 0 })
switch_to s (some p) = (
  some p,
  record (put p (record (s.proc p) { s_swap = false }) s) {
    runrun = 0;
    runq = remove p s.runq;
    curpri = (s.proc p).p_pri;
  },
)

-- UNIX_swtch from its search on.
unfoldable pub swtch : Sched → Option ℕ × Sched
swtch s = switch_to s (best s.proc s.runq none 128)

-- UNIX_qswtch, up to the same point.
unfoldable pub qswtch : Sched → Option ℕ × Sched
qswtch s = swtch (setrq s.u_procp s)
