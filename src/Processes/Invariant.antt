-- ===== src/Processes/Invariant.antt =====
-- The process table that slp.c keeps: who sleeps, and who is on the queue.
use hostable_32v.Prelude.{
  distinct, ℕ, ◌<◌, ◌≡◌, ◌≢◌, refl, sym, ◌∙◌, ap, true, arith, ltb, member, override_self,
  override_ne, ℕ_discrete, Bool-cases, inl, inr, ◌⊎◌,
}
use hostable_32v.Processes.{Proc, Sched, nproc, ssleep, srun, ready, setrq, setrun_start, put}

-- Who waits on an address sleeps, and the queue holds, once each, processes of the table that can
-- run.
pub record IsTable (s : Sched) : Type 0 where
  pub asleep : (i : ℕ) → (s.proc i).p_wchan ≢ 0 → (s.proc i).p_stat ≡ ssleep
  pub running : (i : ℕ) → member i s.runq ≡ true → (s.proc i).p_stat ≡ srun
  pub not_waiting : (i : ℕ) → member i s.runq ≡ true → (s.proc i).p_wchan ≡ 0
  pub inside : (i : ℕ) → member i s.runq ≡ true → i < nproc
  pub once : distinct s.runq ≡ true

-- From `s` to `s'`, the processes that waited on the address or on `runout` are at most made
-- ready, and nobody else is touched.
pub record IsWoken (chan : ℕ) (s s' : Sched) : Type 0 where
  pub each :
      (i : ℕ)
      → (s'.proc i ≡ s.proc i)
        ⊎ ((s'.proc i ≡ ready (s.proc i))
            × (member i s'.runq ≡ true)
            × (((s.proc i).p_wchan ≡ chan) ⊎ ((s.proc i).p_wchan ≡ 1)))
  pub queue : (i : ℕ) → member i s.runq ≡ true → member i s'.runq ≡ true
  pub out : s.runout ≡ 0 → s'.runout ≡ 0

pub IsWoken-refl : (chan : ℕ) (s : Sched) → IsWoken chan s s
IsWoken-refl chan s = record { each = λ i. inl refl; queue = λ i h. h; out = λ h. h }

pub IsWoken-trans :
    (chan : ℕ) (s s' s'' : Sched) → IsWoken chan s s' → IsWoken chan s' s'' → IsWoken chan s s''
IsWoken-trans chan s s' s'' w w' = record {
  each = λ i. elim (w.each i) [
    | inl e ↦ elim (w'.each i) [
      | inl e' ↦ inl (e' ∙ e)
      | inr (e', m, a) ↦ inr (
        e' ∙ ap ready e,
        m,
        elim a [
          | inl b ↦ inl (sym (ap Proc.p_wchan e) ∙ b)
          | inr b ↦ inr (sym (ap Proc.p_wchan e) ∙ b)
        ],
      )
    ]
    | inr (e, m, a) ↦ elim (w'.each i) [
      | inl e' ↦ inr (e' ∙ e, w'.queue i m, a)
      | inr (e', m', b) ↦ inr (e' ∙ ap ready e, m', a)
    ]
  ];
  queue = λ i h. w'.queue i (w.queue i h);
  out = λ h. w'.out (w.out h);
}

-- A process that is made ready is on the queue, and the table is in order.
pub record IsStarted (p : ℕ) (s s' : Sched) : Type 0 where
  pub self : s'.proc p ≡ ready (s.proc p)
  pub others : (i : ℕ) → i ≢ p → s'.proc i ≡ s.proc i
  pub queued : member p s'.runq ≡ true
  pub queue : (i : ℕ) → member i s.runq ≡ true → member i s'.runq ≡ true
  pub from : (i : ℕ) → member i s'.runq ≡ true → i ≢ p → member i s.runq ≡ true
  pub once : distinct s.runq ≡ true → distinct s'.runq ≡ true
  pub out : s'.runout ≡ s.runout

setrq-IsStarted : (p : ℕ) (s : Sched) → IsStarted p s (setrq p (put p (ready (s.proc p)) s))
unfolding setrq distinct
setrq-IsStarted p s = elim (Bool-cases (member p s.runq)) [
  | inl there ↦ rw there record {
    self = override_self s.proc p _;
    others = λ i n. override_ne s.proc p _ i n;
    queued = there;
    queue = λ i h. h;
    from = λ i h n. h;
    once = λ h. h;
    out = refl;
  }
  | inr away ↦ rw away record {
    self = override_self s.proc p _;
    others = λ i n. override_ne s.proc p _ i n;
    queued = ground arith;
    queue = λ i h. ground (arith, h);
    from = λ i h n. ground (arith, h, n);
    once = λ h. rw (away, h) refl;
    out = refl;
  }
]

pub setrun_start-IsStarted : (p : ℕ) (s : Sched) → IsStarted p s (setrun_start p s)
unfolding setrun_start
setrun_start-IsStarted p s =
    let s₁ = setrq p (put p (ready (s.proc p)) s) in
    let st : IsStarted p s s₁ = setrq-IsStarted p s in
    elim (Bool-cases (ltb (s₁.proc p).p_pri s₁.curpri)) [
      | inl y ↦ rw y record {
        self = st.self;
        others = st.others;
        queued = st.queued;
        queue = st.queue;
        from = st.from;
        once = st.once;
        out = st.out;
      }
      | inr n ↦ rw n st
    ]

pub IsTable-started : (p : ℕ) (s s' : Sched) → p < nproc → IsTable s → IsStarted p s s' → IsTable s'
IsTable-started p s s' lt t st = record {
  asleep = λ i nz. elim (ℕ_discrete i p) [
    | yes e ↦ absurd (nz (ap (λ x. (s'.proc x).p_wchan) e ∙ ap Proc.p_wchan st.self))
    | no n ↦
        ap Proc.p_stat (st.others i n) ∙ t.asleep i (λ z. nz (ap Proc.p_wchan (st.others i n) ∙ z))
  ];
  running = λ i m. elim (ℕ_discrete i p) [
    | yes e ↦ ap (λ x. (s'.proc x).p_stat) e ∙ ap Proc.p_stat st.self
    | no n ↦ ap Proc.p_stat (st.others i n) ∙ t.running i (st.from i m n)
  ];
  not_waiting = λ i m. elim (ℕ_discrete i p) [
    | yes e ↦ ap (λ x. (s'.proc x).p_wchan) e ∙ ap Proc.p_wchan st.self
    | no n ↦ ap Proc.p_wchan (st.others i n) ∙ t.not_waiting i (st.from i m n)
  ];
  inside = λ i m. elim (ℕ_discrete i p) [ yes e ↦ omega arith | no n ↦ t.inside i (st.from i m n) ];
  once = st.once t.once;
}

-- Who was made ready stays so.
pub IsWoken-ready :
    (chan p : ℕ) (s s' : Sched) (v : Proc)
    → IsWoken chan s s'
    → s.proc p ≡ ready v
    → s'.proc p ≡ ready v
IsWoken-ready chan p s s' v w e = elim (w.each p) [
  | inl e' ↦ e' ∙ e
  | inr (e', m, a) ↦ e' ∙ ap ready e
]

pub IsWoken-weaken : (chan : ℕ) (s s' : Sched) → IsWoken 1 s s' → IsWoken chan s s'
IsWoken-weaken chan s s' w = record {
  each = λ i. elim (w.each i) [
    | inl e ↦ inl e
    | inr (e, m, a) ↦ inr (e, m, elim a [ inl b ↦ inr b | inr b ↦ inr b ])
  ];
  queue = w.queue;
  out = w.out;
}

-- The table and what was woken do not depend on `runout` being cleared.
pub IsTable-runout : (s : Sched) (n : ℕ) → IsTable s → IsTable (record s { runout = n })
IsTable-runout s n t = record {
  asleep = t.asleep;
  running = t.running;
  not_waiting = t.not_waiting;
  inside = t.inside;
  once = t.once;
}

pub IsWoken-runout :
    (chan : ℕ) (s s' : Sched) → IsWoken chan s s' → IsWoken chan s (record s' { runout = 0 })
IsWoken-runout chan s s' w = record { each = w.each; queue = w.queue; out = λ h. refl }

pub put_field :
    (f : Proc → ℕ) (p : ℕ) (v : Proc) (s : Sched)
    → f v ≡ f (s.proc p)
    → (i : ℕ) → f ((put p v s).proc i) ≡ f (s.proc i)
put_field f p v s h i = elim (ℕ_discrete i p) [
  | yes e ↦
      ap (λ x. f ((put p v s).proc x)) e
      ∙ ap f (override_self s.proc p v)
      ∙ h
      ∙ ap (λ x. f (s.proc x)) (sym e)
  | no n ↦ ap f (override_ne s.proc p v i n)
]

pub IsTable-put :
    (p : ℕ) (v : Proc) (s : Sched)
    → v.p_stat ≡ (s.proc p).p_stat
    → v.p_wchan ≡ (s.proc p).p_wchan
    → IsTable s
    → IsTable (put p v s)
IsTable-put p v s e w t = record {
  asleep = λ i nz.
      put_field Proc.p_stat p v s e i ∙ t.asleep i (λ z. nz (put_field Proc.p_wchan p v s w i ∙ z));
  running = λ i m. put_field Proc.p_stat p v s e i ∙ t.running i m;
  not_waiting = λ i m. put_field Proc.p_wchan p v s w i ∙ t.not_waiting i m;
  inside = t.inside;
  once = t.once;
}
