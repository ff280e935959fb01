-- ===== src/Processes/Tests.antt =====
-- Processes and signals at concrete inputs.
use hostable_32v.Prelude.{
  distinct, ℕ, ◌<◌, ◌≡◌, refl, true, false, [], ◌∷◌, arith, ◌==◌, if◌then◌else◌,
}
use hostable_32v.Processes.{Proc, Sched, done, wakeup, swtch}
use hostable_32v.Processes.Signals.{clear_bit, fsig_from, issig_loop, signal, sleep}
use hostable_32v.Processes.Invariant.{IsTable}
use hostable_32v.Processes.Wakeup.{Wakes, wakeup-Wakes}
use hostable_32v.Processes.Send.{Sent, signal-Sent}
use hostable_32v.Processes.Switch.{Switched, swtch-Switched}
use hostable_32v.Processes.Sleep.{Sleeps, sleep-Sleeps}
use hostable_32v.Processes.Act.{Delivered, psig-Delivered}

abbrev unused : Proc
unused = record {
  p_stat = 0;
  s_load = false;
  s_swap = false;
  s_trc = false;
  p_pri = 0;
  p_time = 0;
  p_cpu = 0;
  p_nice = 20;
  p_sig = 0;
  p_pgrp = 0;
  p_pid = 0;
  p_ppid = 0;
  p_wchan = 0;
}

-- Process 0 sleeps on `runout`, process 1 runs with the signals 2 and 15 pending, of which it ignores
-- 2, process 2 sleeps on the address 1000 and is swapped out, and process 3 is on the queue.
abbrev table : ℕ → Proc
table i =
    if i == 0
    then record unused { p_stat = 1; s_load = true; p_wchan = 1 }
    else if i == 1
    then record unused {
      p_stat = 3;
      s_load = true;
      p_pri = 50;
      p_cpu = 80;
      p_sig = 16386;
      p_pgrp = 7;
    }
    else if i == 2
    then record unused { p_stat = 1; p_pri = 40; p_pgrp = 7; p_wchan = 1000 }
    else if i == 3
    then record unused { p_stat = 3; s_load = true; p_pri = 60 }
    else unused

abbrev system : Sched
system = record {
  proc = table;
  runq = 3 ∷ [];
  curpri = 50;
  runrun = 0;
  runout = 1;
  runin = 0;
  u_procp = 1;
  u_signal = λ n. if n == 2 then 1 else 0;
  u_error = 0;
}

system-IsTable : IsTable system
unfolding distinct
system-IsTable = record {
  asleep = λ i nz. ground (arith, nz);
  running = λ i m. ground (arith, m);
  not_waiting = λ i m. ground (arith, m);
  inside = λ i m. ground (arith, m);
  once = refl;
}

system_low : (q : ℕ) → (system.proc q).p_pri < 128
system_low q = ground arith

wakeup-Wakes_example : Wakes 1000 0 system (wakeup 2 1000 system)
wakeup-Wakes_example = wakeup-Wakes 0 1000 system (λ e. omega arith) system-IsTable

signal-Sent_example : Sent 0 7 2 system (signal 1 7 2 system)
signal-Sent_example = signal-Sent 0 7 2 system (λ e. omega arith) (omega arith) system-IsTable

swtch-Switched_example : Switched system (swtch system)
swtch-Switched_example = swtch-Switched system system_low system-IsTable

sleep-Sleeps_example : Sleeps 1 2000 30 system (sleep 17 2000 30 system)
sleep-Sleeps_example = sleep-Sleeps 2000 30 system system-IsTable refl (omega arith) (omega arith)

psig-Delivered_example : Delivered system
psig-Delivered_example = psig-Delivered system (omega arith)

-- Of the pending signals 2 and 15 the first is ignored, so the other is found, and 2 is cleared.
issig_test : issig_loop 17 system.u_signal false 16386 ≡ done (15, 16384)
unfolding issig_loop fsig_from clear_bit
issig_test = refl
