-- ===== src/Processes/Signals.antt =====
-- The signals of sig.c, and the sleep of slp.c that they interrupt.
use hostable_32v.Prelude.{
  ℕ, zero, suc, ◌+◌, ◌-◌, ◌*◌, ◌/◌, ◌%◌, Bool, not, ◌&&◌, ◌||◌, ltb, leb, ◌==◌, if◌then◌else◌,
  override,
}
use hostable_32v.Processes.{
  Proc, Sched, Outcome, done, out_of_fuel, and_then, nproc, ssleep, srun, pzero, puser, runin_at,
  put, wakeup, setrun,
}

abbrev pub nsig : ℕ
nsig = 17

-- Bit `i` of a word: its value, and the word with it set and cleared.
unfoldable pub has_bit : ℕ → ℕ → Bool
has_bit n zero = n % 2 == 1
has_bit n (suc i) = has_bit (n / 2) i

unfoldable pub set_bit : ℕ → ℕ → ℕ
set_bit n zero = n / 2 * 2 + 1
set_bit n (suc i) = set_bit (n / 2) i * 2 + n % 2

unfoldable pub clear_bit : ℕ → ℕ → ℕ
clear_bit n zero = n / 2 * 2
clear_bit n (suc i) = clear_bit (n / 2) i * 2 + n % 2

-- The process with the signal pending, and no lower priority than PUSER.
unfoldable pub marked : ℕ → Proc → Proc
marked sig v = record v {
  p_sig = if sig == 0 then v.p_sig else set_bit v.p_sig (sig - 1);
  p_pri = if ltb puser v.p_pri then puser else v.p_pri;
}

-- UNIX_psignal.
unfoldable pub psignal : ℕ → ℕ → ℕ → Sched → Outcome Sched
psignal fuel p sig s =
    let v₁ = marked sig (s.proc p) in
    if leb nsig sig
    then done s
    else if (v₁.p_stat == ssleep) && ltb pzero v₁.p_pri
    then setrun fuel p (put p v₁ s)
    else done (put p v₁ s)

-- The loop of UNIX_signal, with `k` processes to go from the process `i` on.
unfoldable pub signal_from : ℕ → ℕ → ℕ → ℕ → ℕ → Sched → Outcome Sched
signal_from fuel zero i pgrp sig s = done s
signal_from fuel (suc k) i pgrp sig s =
    and_then (if (s.proc i).p_pgrp == pgrp then psignal fuel i sig s else done s)
      (signal_from fuel k (suc i) pgrp sig)

-- UNIX_signal.
unfoldable pub signal : ℕ → ℕ → ℕ → Sched → Outcome Sched
signal fuel pgrp sig s = if pgrp == 0 then done s else signal_from fuel nproc 0 pgrp sig s

-- The loop of UNIX_fsig, with `k` signals to go from the signal `i` on.
unfoldable pub fsig_from : ℕ → ℕ → ℕ → ℕ
fsig_from zero i n = 0
fsig_from (suc k) i n = if n % 2 == 1 then i else fsig_from k (suc i) (n / 2)

-- UNIX_fsig of a process with these signals pending.
abbrev pub fsig : ℕ → ℕ
fsig p_sig = fsig_from 16 1 p_sig

-- The loop of UNIX_issig on `p_sig`: the signal that it returns, and what is left of `p_sig`.
unfoldable pub issig_loop : ℕ → (ℕ → ℕ) → Bool → ℕ → Outcome (ℕ × ℕ)
issig_loop zero u_signal trc p_sig = out_of_fuel
issig_loop (suc fuel) u_signal trc p_sig =
    let n = fsig p_sig in
    let rest = issig_loop fuel u_signal trc (clear_bit p_sig (n - 1)) in
    if p_sig == 0
    then done (0, p_sig)
    else if (u_signal n % 2 == 0) || trc
    then done (n, p_sig)
    else rest

-- UNIX_issig: the signal, and the state after it.
unfoldable pub issig : ℕ → Sched → Outcome (ℕ × Sched)
issig fuel s =
    let v = s.proc s.u_procp in
    and_then (issig_loop fuel s.u_signal v.s_trc v.p_sig)
      (λ (n, p_sig). done (n, put s.u_procp (record v { p_sig = p_sig }) s))

-- What UNIX_psig comes to: its return, UNIX_sendsig of a handler, UNIX_exit, or UNIX_core and then
-- UNIX_exit.
pub data Action : Type 0 where
  returns : Sched → Action
  sends : ℕ → ℕ → Sched → Action
  exits : ℕ → Sched → Action
  dumps : ℕ → Sched → Action

-- `p->p_sig &= ~(1<<(n-1))` for the current process.
abbrev pub unmark : ℕ → Sched → Sched
unmark n s =
    put s.u_procp (record (s.proc s.u_procp) { p_sig = clear_bit (s.proc s.u_procp).p_sig (n - 1) })
      s

-- `u.u_signal[n] = 0`, but for SIGINS and SIGTRC.
abbrev pub reset_signal : ℕ → Sched → Sched
reset_signal n s = record s {
  u_signal = if (n == 4) || (n == 5) then s.u_signal else override s.u_signal n 0;
}

-- The cases of its switch: SIGQUIT, SIGINS, SIGTRC, SIGIOT, SIGEMT, SIGFPT, SIGBUS, SIGSEG, SIGSYS.
abbrev pub dumps_core : ℕ → Bool
dumps_core n = (leb 3 n && leb n 8) || (leb 10 n && leb n 12)

-- UNIX_psig after its UNIX_stop.
unfoldable pub psig : Sched → Action
psig s =
    let n = fsig (s.proc s.u_procp).p_sig in
    let s₁ = unmark n s in
    if n == 0
    then returns s
    else if not (s.u_signal n == 0)
    then sends (s.u_signal n) n (record (reset_signal n s₁) { u_error = 0 })
    else if dumps_core n
    then dumps n s₁
    else exits n s₁

-- UNIX_sleep comes to UNIX_swtch, or leaves for `u_qsav`.
pub data Slept : Type 0 where
  switches : Sched → Slept
  resumes : Sched → Slept

-- UNIX_sleep up to its UNIX_swtch.
unfoldable pub sleep : ℕ → ℕ → ℕ → Sched → Outcome Slept
sleep fuel chan pri s =
    let rp = s.u_procp in
    let s₁ = put rp (record (s.proc rp) { p_stat = ssleep; p_wchan = chan; p_pri = pri }) s in
    if ltb pzero pri
    then and_then (issig fuel s₁) (λ (n, s₂).
      if not (n == 0)
      then done (resumes (put rp (record (s₂.proc rp) { p_wchan = 0; p_stat = srun }) s₂))
      else if not (s₂.runin == 0)
      then and_then (wakeup fuel runin_at (record s₂ { runin = 0 })) (λ s₃. done (switches s₃))
      else done (switches s₂))
    else done (switches s₁)

-- UNIX_sleep after its UNIX_swtch: whether it leaves for `u_qsav`.
unfoldable pub sleep_end : ℕ → ℕ → Sched → Outcome Slept
sleep_end fuel pri s =
    if ltb pzero pri
    then and_then (issig fuel s)
        (λ (n, s₁). done (if not (n == 0) then resumes s₁ else switches s₁))
    else done (switches s)
