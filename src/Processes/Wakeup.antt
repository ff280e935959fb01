-- ===== src/Processes/Wakeup.antt =====
-- UNIX_setrun and UNIX_wakeup, which call one another, always come to an end.
use hostable_32v.Prelude.{
  ℕ, zero, suc, ◌<◌, ◌+◌, ◌≡◌, ◌≢◌, refl, sym, ◌∙◌, ap, subst, ◌≤◌, true, false, not, ◌&&◌, ◌||◌,
  arith, ◌==◌, if◌then◌else◌, member, Bool-cases, inl, inr, ◌⊎◌, ℕ_discrete,
}
use hostable_32v.Processes.{
  Proc, Sched, Outcome, done, and_then, nproc, ssleep, szomb, runout_at, ready, setrun_start,
  setrun_with, wakeup_from, wakeup, setrun,
}
use hostable_32v.Processes.Invariant.{
  IsTable, IsWoken, IsWoken-refl, IsWoken-trans, IsWoken-ready, IsWoken-weaken, IsTable-runout,
  IsWoken-runout, IsStarted, setrun_start-IsStarted, IsTable-started,
}

-- The call returns, and what it leaves is in order.
pub record Returns (chan : ℕ) (s : Sched) (o : Outcome Sched) : Type 0 where
  pub after : Sched
  pub returns : o ≡ done after
  pub table : IsTable after
  pub woken : IsWoken chan s after

-- A call for which nobody waits on `runout`, or one whose own calls return.
pub Calm : (Sched → Outcome Sched) → Sched → Type 0
Calm wake s =
    (s.runout ≡ 0) ⊎ ((t : Sched) → IsTable t → t.runout ≡ 0 → Returns runout_at t (wake t))

IsWoken-started :
    (chan p : ℕ) (s s' : Sched)
    → ((s.proc p).p_wchan ≡ chan) ⊎ ((s.proc p).p_wchan ≡ 1)
    → IsStarted p s s'
    → IsWoken chan s s'
IsWoken-started chan p s s' w st = record {
  each = λ i. elim (ℕ_discrete i p) [
    | yes e ↦
        subst
          (λ x.
            (s'.proc x ≡ s.proc x)
            ⊎ ((s'.proc x ≡ ready (s.proc x))
                × (member x s'.runq ≡ true)
                × (((s.proc x).p_wchan ≡ chan) ⊎ ((s.proc x).p_wchan ≡ 1))))
          (sym e) (inr (st.self, st.queued, w))
    | no n ↦ inl (st.others i n)
  ];
  queue = st.queue;
  out = λ h. st.out ∙ h;
}

-- A call after which, moreover, the process `p` is ready and on the queue.
pub record Runs (chan p : ℕ) (s : Sched) (o : Outcome Sched) : Type 0 where
  pub call : Returns chan s o
  pub self : call.after.proc p ≡ ready (s.proc p)
  pub queued : member p call.after.runq ≡ true

Runs-clear :
    (chan p : ℕ) (s s₁ : Sched) (o : Outcome Sched)
    → IsWoken chan s s₁
    → s₁.proc p ≡ ready (s.proc p)
    → member p s₁.runq ≡ true
    → Returns runout_at s₁ o
    → Runs chan p s o
Runs-clear chan p s s₁ o w e m r = record {
  call = record {
    after = r.after;
    returns = r.returns;
    table = r.table;
    woken = IsWoken-trans chan s s₁ r.after w (IsWoken-weaken chan s₁ r.after r.woken);
  };
  self = IsWoken-ready 1 p s₁ r.after (s.proc p) r.woken e;
  queued = r.woken.queue p m;
}

pub setrun_with-Runs :
    (wake : Sched → Outcome Sched) (chan p : ℕ) (s : Sched)
    → Calm wake s
    → p < nproc
    → IsTable s
    → (s.proc p).p_stat ≡ ssleep
    → ((s.proc p).p_wchan ≡ chan) ⊎ ((s.proc p).p_wchan ≡ 1)
    → Runs chan p s (setrun_with wake p s)
unfolding setrun_with Calm
setrun_with-Runs wake chan p s calm lt t asleep w =
    let s₁ = setrun_start p s in
    let st : IsStarted p s s₁ = setrun_start-IsStarted p s in
    let w₁ : IsWoken chan s s₁ = IsWoken-started chan p s s₁ w st in
    let t₁ : IsTable s₁ = IsTable-started p s s₁ lt t st in
    let no_panic : (((s.proc p).p_stat == 0) || ((s.proc p).p_stat == szomb)) ≡ false =
      rw asleep refl in
    rw no_panic (elim (Bool-cases (not (s₁.runout == 0) && not (s₁.proc p).s_load)) [
      | inl y ↦ rw y (elim calm [
        | inl z ↦ absurd (ground (arith, y, st.out, z))
        | inr f ↦
            Runs-clear chan p s (record s₁ { runout = 0 }) _ (IsWoken-runout chan s s₁ w₁) st.self
              st.queued (f (record s₁ { runout = 0 }) (IsTable-runout s₁ 0 t₁) refl)
      ])
      | inr n ↦ rw n record {
        call = record { after = s₁; returns = refl; table = t₁; woken = w₁ };
        self = st.self;
        queued = st.queued;
      }
    ])

pub Calm-later :
    (wake : Sched → Outcome Sched) (chan : ℕ) (s s' : Sched)
    → Calm wake s
    → IsWoken chan s s'
    → Calm wake s'
unfolding Calm
Calm-later wake chan s s' calm w = elim calm [ inl z ↦ inl (w.out z) | inr f ↦ inr f ]

-- What one round of the loop does.
record Round (chan i : ℕ) (s : Sched) (o : Outcome Sched) : Type 0 where
  call : Returns chan s o
  self :
      (s.proc i).p_wchan ≡ chan
      → (call.after.proc i ≡ ready (s.proc i)) × (member i call.after.runq ≡ true)

wakeup-Round :
    (wake : Sched → Outcome Sched) (i chan : ℕ) (s : Sched)
    → chan ≢ 0
    → Calm wake s
    → i < nproc
    → IsTable s
    → Round chan i s (
        if ((s.proc i).p_wchan == chan) && not ((s.proc i).p_stat == szomb)
        then setrun_with wake i s
        else done s)
wakeup-Round wake i chan s nz calm lt t = elim (ℕ_discrete (s.proc i).p_wchan chan) [
  | yes e ↦
      let asleep : (s.proc i).p_stat ≡ ssleep = t.asleep i (λ z. nz (sym e ∙ z)) in
      let here : (((s.proc i).p_wchan == chan) && not ((s.proc i).p_stat == szomb)) ≡ true =
        ground (arith, e, asleep) in
      let r : Runs chan i s (setrun_with wake i s) =
        setrun_with-Runs wake chan i s calm lt t asleep (inl e) in
      rw here record { call = r.call; self = λ w. (r.self, r.queued) }
  | no n ↦
      let away : (((s.proc i).p_wchan == chan) && not ((s.proc i).p_stat == szomb)) ≡ false =
        ground (arith, n) in
      rw away record {
        call = record { after = s; returns = refl; table = t; woken = IsWoken-refl chan s };
        self = λ w. absurd (n w);
      }
]

-- What the rounds from the process `i` on do.
pub record Wakes (chan i : ℕ) (s : Sched) (o : Outcome Sched) : Type 0 where
  pub call : Returns chan s o
  pub all :
      (j : ℕ)
      → i ≤ j
      → j < nproc
      → (s.proc j).p_wchan ≡ chan
      → (call.after.proc j ≡ ready (s.proc j)) × (member j call.after.runq ≡ true)

woken_kept :
    (chan j : ℕ) (s s₁ s₂ : Sched)
    → IsWoken chan s₁ s₂
    → (s₁.proc j ≡ ready (s.proc j)) × (member j s₁.runq ≡ true)
    → (s₂.proc j ≡ ready (s.proc j)) × (member j s₂.runq ≡ true)
woken_kept chan j s s₁ s₂ w (e, m) = (IsWoken-ready chan j s₁ s₂ (s.proc j) w e, w.queue j m)

wakeup_from-Wakes :
    (wake : Sched → Outcome Sched) (k i chan : ℕ) (s : Sched)
    → chan ≢ 0
    → Calm wake s
    → k + i ≡ nproc
    → IsTable s
    → Wakes chan i s (wakeup_from wake k i chan s)
unfolding wakeup_from
wakeup_from-Wakes wake zero i chan s nz calm len t = record {
  call = record { after = s; returns = refl; table = t; woken = IsWoken-refl chan s };
  all = λ j le lt w. absurd (omega arith);
}
wakeup_from-Wakes wake (suc k) i chan s nz calm len t =
    let r = wakeup-Round wake i chan s nz calm (omega arith) t in
    let s₁ = r.call.after in
    let rest : Wakes chan (suc i) s₁ (wakeup_from wake k (suc i) chan s₁) =
      wakeup_from-Wakes wake k (suc i) chan s₁ nz (Calm-later wake chan s s₁ calm r.call.woken)
        (omega arith) r.call.table in
    record {
      call = record {
        after = rest.call.after;
        returns =
            ap (λ x. and_then x (wakeup_from wake k (suc i) chan)) r.call.returns
            ∙ rest.call.returns;
        table = rest.call.table;
        woken = IsWoken-trans chan s s₁ rest.call.after r.call.woken rest.call.woken;
      };
      all = λ j le lt w. elim (ℕ_discrete j i) [
        | yes e ↦ woken_kept chan j s s₁ rest.call.after rest.call.woken (
            subst (λ x. (s₁.proc x ≡ ready (s.proc x)) × (member x s₁.runq ≡ true)) (sym e)
              (r.self (ap (λ x. (s.proc x).p_wchan) (sym e) ∙ w)))
        | no n ↦ elim (r.call.woken.each j) [
          | inl same ↦
              let (h, m) = rest.all j (omega (arith, n)) lt (ap Proc.p_wchan same ∙ w) in
              (h ∙ ap ready same, m)
          | inr (e, m, a) ↦ woken_kept chan j s s₁ rest.call.after rest.call.woken (e, m)
        ]
      ];
    }

Calm-wakeup : (fuel : ℕ) (s : Sched) → Calm (wakeup (suc fuel) runout_at) s
unfolding Calm wakeup
Calm-wakeup fuel s = inr (λ t h z.
    (wakeup_from-Wakes (wakeup fuel runout_at) nproc 0 1 t (λ e. omega arith) (inl z) refl h).call)

-- UNIX_setrun, where its own call of UNIX_wakeup may call it once more.
pub setrun-Runs :
    (fuel chan p : ℕ) (s : Sched)
    → p < nproc
    → IsTable s
    → (s.proc p).p_stat ≡ ssleep
    → ((s.proc p).p_wchan ≡ chan) ⊎ ((s.proc p).p_wchan ≡ 1)
    → Runs chan p s (setrun (suc fuel) p s)
setrun-Runs fuel chan p s =
    setrun_with-Runs (wakeup (suc fuel) runout_at) chan p s (Calm-wakeup fuel s)

-- With two levels of calls UNIX_wakeup of an address returns. Then every process that waited on the
-- address can run and is on the queue, whoever waited on neither it nor `runout` is untouched, and
-- the table is in order.
pub wakeup-Wakes :
    (fuel chan : ℕ) (s : Sched)
    → chan ≢ 0
    → IsTable s
    → Wakes chan 0 s (wakeup (suc (suc fuel)) chan s)
unfolding wakeup
wakeup-Wakes fuel chan s nz t =
    wakeup_from-Wakes (wakeup (suc fuel) runout_at) nproc 0 chan s nz (Calm-wakeup fuel s) refl t
