-- ===== src/Processes/Sleep.antt =====
-- UNIX_sleep: who sleeps waits on the address, unless a signal comes first.
use hostable_32v.Prelude.{
  ℕ, suc, ◌-◌, ◌^◌, ◌<◌, ◌≡◌, ◌≢◌, refl, sym, ◌∙◌, ap, true, false, not, arith, ltb, ◌==◌,
  if◌then◌else◌, member, Bool-cases, inl, inr, ℕ_discrete, override_self, override_ne, override,
}
use hostable_32v.Processes.{
  Proc, Sched, Outcome, done, and_then, ssleep, srun, pzero, runin_at, put, wakeup,
}
use hostable_32v.Processes.Signals.{has_bit, issig, Slept, switches, resumes, sleep}
use hostable_32v.Processes.Invariant.{IsTable, IsTable-put}
use hostable_32v.Processes.Next.{acting, issig-IsNext}
use hostable_32v.Processes.Wakeup.{wakeup-Wakes}

-- UNIX_sleep leaves the process `p` waiting on the address, and then, if its sleep can be
-- interrupted, all its signals are ignored; or one of them interrupts it, and it is running.
pub data Sleeps (p chan pri : ℕ) (s : Sched) : Outcome Slept → Type 0 where
  asleep :
      (s' : Sched)
      → IsTable s'
      → (s'.proc p).p_stat ≡ ssleep
      → (s'.proc p).p_wchan ≡ chan
      → (pzero < pri
          → (j : ℕ) → has_bit (s.proc p).p_sig j ≡ true
          → acting s.u_signal (s.proc p).s_trc (suc j) ≡ false)
      → Sleeps p chan pri s (done (switches s'))
  interrupted :
      (s' : Sched) (sig : ℕ)
      → pzero < pri
      → has_bit (s.proc p).p_sig sig ≡ true
      → acting s.u_signal (s.proc p).s_trc (suc sig) ≡ true
      → IsTable s'
      → (s'.proc p).p_stat ≡ srun
      → (s'.proc p).p_wchan ≡ 0
      → Sleeps p chan pri s (done (resumes s'))

-- The process may be anything that its place outside the queue allows.
IsTable-off :
    (p : ℕ) (v : Proc) (s : Sched)
    → member p s.runq ≡ false
    → (v.p_wchan ≢ 0 → v.p_stat ≡ ssleep)
    → IsTable s
    → IsTable (put p v s)
IsTable-off p v s off good t = record {
  asleep = λ i nz. elim (ℕ_discrete i p) [
    | yes e ↦
        let same : (put p v s).proc i ≡ v = ap (put p v s).proc e ∙ override_self s.proc p v in
        ap Proc.p_stat same ∙ good (λ z. nz (ap Proc.p_wchan same ∙ z))
    | no n ↦
        let same : (put p v s).proc i ≡ s.proc i = override_ne s.proc p v i n in
        ap Proc.p_stat same ∙ t.asleep i (λ z. nz (ap Proc.p_wchan same ∙ z))
  ];
  running = λ i m. ap Proc.p_stat (override_ne s.proc p v i (on i m)) ∙ t.running i m;
  not_waiting = λ i m. ap Proc.p_wchan (override_ne s.proc p v i (on i m)) ∙ t.not_waiting i m;
  inside = t.inside;
  once = t.once;
}
  where
    on : (i : ℕ) → member i s.runq ≡ true → i ≢ p
    on i m e = ground (arith, m, off, ap (λ x. member x s.runq) e)

module _ (chan pri : ℕ) (s : Sched) (t : IsTable s) (off : member s.u_procp s.runq ≡ false)
    (apart : 2 < chan) (word : (s.proc s.u_procp).p_sig < 2 ^ 16) where
  sleeper : Proc
  sleeper = record (s.proc s.u_procp) { p_stat = ssleep; p_wchan = chan; p_pri = pri }

  gone : Sched
  gone = put s.u_procp sleeper s

  gone_self : gone.proc s.u_procp ≡ sleeper
  unfolding gone
  gone_self = override_self s.proc s.u_procp sleeper

  IsTable-gone : IsTable gone
  unfolding gone sleeper
  IsTable-gone = IsTable-off s.u_procp sleeper s off (λ nz. refl) t

  woken_runin :
      (s₂ : Sched)
      → IsTable s₂
      → (s₂.proc s.u_procp).p_stat ≡ ssleep
      → (s₂.proc s.u_procp).p_wchan ≡ chan
      → ((j : ℕ)
          → has_bit (s.proc s.u_procp).p_sig j ≡ true
          → acting s.u_signal (s.proc s.u_procp).s_trc (suc j) ≡ false)
      → Sleeps s.u_procp chan pri s (
          if not (s₂.runin == 0)
          then and_then (wakeup (17) runin_at (record s₂ { runin = 0 })) (λ s₃. done (switches s₃))
          else done (switches s₂))
  woken_runin s₂ t₂ st w quiet = elim (Bool-cases (not (s₂.runin == 0))) [
    | inr n ↦ rw n (asleep s₂ t₂ st w (λ h. quiet))
    | inl y ↦
        let r =
          wakeup-Wakes 15 runin_at (record s₂ { runin = 0 }) (λ e. omega arith)
            record {
              asleep = t₂.asleep;
              running = t₂.running;
              not_waiting = t₂.not_waiting;
              inside = t₂.inside;
              once = t₂.once;
            } in
        let same : r.call.after.proc s.u_procp ≡ s₂.proc s.u_procp =
          elim (r.call.woken.each s.u_procp) [
            | inl e ↦ e
            | inr (e, m, a) ↦ elim a [
              | inl b ↦ absurd (omega (arith, b, w, apart))
              | inr b ↦ absurd (omega (arith, b, w, apart))
            ]
          ] in
        rw (y, r.call.returns)
          (asleep r.call.after r.call.table (ap Proc.p_stat same ∙ st) (ap Proc.p_wchan same ∙ w)
            (λ h. quiet))
  ]

  -- The rest of UNIX_sleep where a signal can interrupt it.
  low_priority :
      pzero < pri
      → Sleeps s.u_procp chan pri s (
          and_then (issig 17 gone) (λ (n, s₂).
            if not (n == 0)
            then done (
                resumes
                  (put s.u_procp (record (s₂.proc s.u_procp) { p_wchan = 0; p_stat = srun }) s₂))
            else if not (s₂.runin == 0)
            then and_then (wakeup 17 runin_at (record s₂ { runin = 0 })) (λ s₃. done (switches s₃))
            else done (switches s₂)))
  unfolding gone sleeper override
  low_priority low =
      let (sig, left, e, next) = issig-IsNext gone (omega (arith, word, ap Proc.p_sig gone_self)) in
      let v₂ = record (gone.proc s.u_procp) { p_sig = left } in
      let s₂ = put s.u_procp v₂ gone in
      let t₂ : IsTable s₂ = IsTable-put s.u_procp v₂ gone refl refl IsTable-gone in
      let self₂ : s₂.proc s.u_procp ≡ v₂ = override_self gone.proc s.u_procp v₂ in
      let sigs : (j : ℕ)
          → has_bit (gone.proc s.u_procp).p_sig j ≡ has_bit (s.proc s.u_procp).p_sig j =
        λ j. ap (λ v. has_bit v.p_sig j) gone_self in
      let acts : (j : ℕ)
          → acting s.u_signal (gone.proc s.u_procp).s_trc j
            ≡ acting s.u_signal (s.proc s.u_procp).s_trc j =
        λ j. ap (λ v. acting s.u_signal v.s_trc j) gone_self in
      rw e (elim (ℕ_discrete sig 0) [
        | yes z ↦
            let none_left : (sig == 0) ≡ true = ground (arith, z) in
            rw none_left (
              woken_runin s₂ t₂ (ap Proc.p_stat self₂ ∙ ap Proc.p_stat gone_self)
                (ap Proc.p_wchan self₂ ∙ ap Proc.p_wchan gone_self)
                (λ j h. elim (Bool-cases (acting s.u_signal (s.proc s.u_procp).s_trc (suc j))) [
                  | inl a ↦ absurd ((next.lowest j (sigs j ∙ h) (acts (suc j) ∙ a)).0 z)
                  | inr a ↦ a
                ]))
        | no nz ↦
            let found : (sig == 0) ≡ false = ground (arith, nz) in
            let v₃ = record (s₂.proc s.u_procp) { p_wchan = 0; p_stat = srun } in
            let self₃ : (put s.u_procp v₃ s₂).proc s.u_procp ≡ v₃ =
              override_self s₂.proc s.u_procp v₃ in
            let up : suc (sig - 1) ≡ sig = omega (arith, nz) in
            rw found (
              interrupted (put s.u_procp v₃ s₂) (sig - 1) low
                (sym (sigs (sig - 1)) ∙ next.pending nz)
                (ap (acting s.u_signal (s.proc s.u_procp).s_trc) up
                  ∙ sym (acts sig)
                  ∙ next.acted nz)
                (IsTable-off s.u_procp v₃ s₂ off (λ d. absurd (d refl)) t₂) (ap Proc.p_stat self₃)
                (ap Proc.p_wchan self₃))
      ])

  -- A process that is not on the queue and sleeps on an address other than `runout` and `runin`
  -- waits there when UNIX_sleep comes to UNIX_swtch, and if its priority is above PZERO it has no
  -- signal pending but ignored ones; or a signal that is not ignored is pending, the priority is
  -- above PZERO, and it leaves running, waiting on nothing. The table is in order either way.
  pub sleep-Sleeps : Sleeps s.u_procp chan pri s (sleep 17 chan pri s)
  unfolding sleep gone sleeper
  sleep-Sleeps = elim (Bool-cases (ltb pzero pri)) [
    | inl y ↦ rw y (low_priority (ground (arith, y)))
    | inr n ↦ rw n (
        asleep gone IsTable-gone (ap Proc.p_stat gone_self) (ap Proc.p_wchan gone_self)
          (λ h. absurd (ground (arith, n, h))))
  ]
