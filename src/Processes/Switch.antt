-- ===== src/Processes/Switch.antt =====
-- UNIX_swtch and UNIX_setpri: which process runs.
use hostable_32v.Prelude.{
  distinct, ℕ, ◌+◌, ◌%◌, ◌<◌, ◌≤◌, ◌≡◌, refl, sym, ◌∙◌, ap, Bool, true, false, not, ◌&&◌, Option,
  none, some, List, [], ◌∷◌, arith, ltb, ◌==◌, if◌then◌else◌, member, remove, member-remove,
  Bool-cases, inl, inr, ℕ_discrete, override_self, override,
}
use hostable_32v.Processes.{
  Proc, Sched, srun, put, best, switch_to, swtch, priority, setpri, run_again,
}
use hostable_32v.Processes.Invariant.{IsTable, put_field, IsTable-put}

abbrev pub runnable : Proc → Bool
runnable v = (v.p_stat == srun) && v.s_load

-- What the search ends with: the process it had, or a better one of the list.
data Pick (f : ℕ → Proc) (ps : List ℕ) (pp : Option ℕ) (n : ℕ) : Option ℕ → Type 0 where
  kept :
      ((q : ℕ) → member q ps ≡ true → runnable (f q) ≡ true → n ≤ (f q).p_pri) → Pick f ps pp n pp
  better :
      (p : ℕ)
      → member p ps ≡ true
      → runnable (f p) ≡ true
      → (f p).p_pri < n
      → ((q : ℕ) → member q ps ≡ true → runnable (f q) ≡ true → (f p).p_pri ≤ (f q).p_pri)
      → Pick f ps pp n (some p)

Pick-better :
    (f : ℕ → Proc) (ps : List ℕ) (p n : ℕ) (pp : Option ℕ) {r : Option ℕ}
    → runnable (f p) ≡ true
    → (f p).p_pri < n
    → Pick f ps (some p) (f p).p_pri r
    → Pick f (p ∷ ps) pp n r
Pick-better f ps p n pp run lt (kept k) = better p (ground arith) run lt (λ q m r.
    elim (ℕ_discrete q p) [
      | yes e ↦ omega (arith, ap (λ x. (f x).p_pri) e)
      | no d ↦ k q (ground (arith, m, d)) r
    ])
Pick-better f ps p n pp run lt (better p' m' r' lt' k) =
    better p' (ground (arith, m')) r' (omega (arith, lt, lt')) (λ q m r. elim (ℕ_discrete q p) [
      | yes e ↦ omega (arith, lt', ap (λ x. (f x).p_pri) e)
      | no d ↦ k q (ground (arith, m, d)) r
    ])

Pick-skip :
    (f : ℕ → Proc) (ps : List ℕ) (p n : ℕ) (pp : Option ℕ) {r : Option ℕ}
    → (runnable (f p) ≡ true → n ≤ (f p).p_pri)
    → Pick f ps pp n r
    → Pick f (p ∷ ps) pp n r
Pick-skip f ps p n pp high (kept k) = kept (λ q m r. elim (ℕ_discrete q p) [
  | yes e ↦ omega (arith, high (ap (λ x. runnable (f x)) (sym e) ∙ r), ap (λ x. (f x).p_pri) e)
  | no d ↦ k q (ground (arith, m, d)) r
])
Pick-skip f ps p n pp high (better p' m' r' lt k) = better p' (ground (arith, m')) r' lt (λ q m r.
    elim (ℕ_discrete q p) [
      | yes e ↦
          omega (arith, lt, high (ap (λ x. runnable (f x)) (sym e) ∙ r), ap (λ x. (f x).p_pri) e)
      | no d ↦ k q (ground (arith, m, d)) r
    ])

best-Pick : (f : ℕ → Proc) (ps : List ℕ) (pp : Option ℕ) (n : ℕ) → Pick f ps pp n (best f ps pp n)
unfolding best
best-Pick f [] pp n = kept (λ q m r. absurd (ground (arith, m)))
best-Pick f (p ∷ ps) pp n =
    elim (Bool-cases (((f p).p_stat == srun) && (f p).s_load && ltb (f p).p_pri n)) [
      | inl y ↦ rw y (
          Pick-better f ps p n pp (ground (arith, y)) (ground (arith, y))
            (best-Pick f ps (some p) (f p).p_pri))
      | inr no_better ↦
          rw no_better
            (Pick-skip f ps p n pp (λ run. ground (arith, no_better, run)) (best-Pick f ps pp n))
    ]

-- The process that is resumed is one of the queue, is running and loaded, and none of these is
-- better; with none to resume, none of the queue is running and loaded. It leaves the queue, and
-- the table is in order.
pub data Switched (s : Sched) : Option ℕ × Sched → Type 0 where
  idle :
      (s' : Sched)
      → ((q : ℕ) → member q s.runq ≡ true → runnable (s.proc q) ≡ false)
      → IsTable s'
      → Switched s (none, s')
  resumed :
      (p : ℕ) (s' : Sched)
      → member p s.runq ≡ true
      → runnable (s.proc p) ≡ true
      → ((q : ℕ)
          → member q s.runq ≡ true
          → runnable (s.proc q) ≡ true
          → (s.proc p).p_pri ≤ (s.proc q).p_pri)
      → ((q : ℕ) → member q s'.runq ≡ (member q s.runq && not (q == p)))
      → s'.curpri ≡ (s.proc p).p_pri
      → s'.runrun ≡ 0
      → IsTable s'
      → Switched s (some p, s')

distinct-remove : (p : ℕ) (ps : List ℕ) → distinct ps ≡ true → distinct (remove p ps) ≡ true
unfolding distinct remove
distinct-remove p [] h = refl
distinct-remove p (q ∷ ps) h = ground (arith, h, distinct-remove p ps, member-remove q p ps)

switch_to-Switched :
    (s : Sched) {o : Option ℕ}
    → ((q : ℕ) → (s.proc q).p_pri < 128)
    → IsTable s
    → Pick s.proc s.runq none 128 o
    → Switched s (switch_to s o)
unfolding switch_to
switch_to-Switched s low t (kept k) =
    idle _
      (λ q m. elim (Bool-cases (runnable (s.proc q))) [
        | inl r ↦ absurd (omega (arith, k q m r, low q))
        | inr r ↦ r
      ])
      record {
        asleep = t.asleep;
        running = t.running;
        not_waiting = t.not_waiting;
        inside = t.inside;
        once = t.once;
      }
switch_to-Switched s low t (better p m r lt k) =
    resumed p _ m r k (λ q. member-remove q p s.runq) refl refl
      record {
        asleep =
            λ i nz. sees Proc.p_stat refl i ∙ t.asleep i (λ z. nz (sees Proc.p_wchan refl i ∙ z));
        running = λ i h. sees Proc.p_stat refl i ∙ t.running i (kept_of i h);
        not_waiting = λ i h. sees Proc.p_wchan refl i ∙ t.not_waiting i (kept_of i h);
        inside = λ i h. t.inside i (kept_of i h);
        once = distinct-remove p s.runq t.once;
      }
  where
    sees :
        (f : Proc → ℕ)
        → f (record (s.proc p) { s_swap = false }) ≡ f (s.proc p)
        → (i : ℕ) → f ((put p (record (s.proc p) { s_swap = false }) s).proc i) ≡ f (s.proc i)
    sees f h = put_field f p (record (s.proc p) { s_swap = false }) s h

    kept_of : (i : ℕ) → member i (remove p s.runq) ≡ true → member i s.runq ≡ true
    kept_of i h = ground (arith, h, member-remove i p s.runq)

-- UNIX_swtch resumes a process of the queue that is running and in core and that has the best
-- priority of these, takes just this one off the queue, and makes its priority the current one; or
-- it idles, and then the queue has no running process in core.
pub swtch-Switched :
    (s : Sched) → ((q : ℕ) → (s.proc q).p_pri < 128) → IsTable s → Switched s (swtch s)
unfolding swtch
swtch-Switched s low t = switch_to-Switched s low t (best-Pick s.proc s.runq none 128)

priority_bounds : (v : Proc) → (30 ≤ priority v) × (priority v ≤ 127)
unfolding priority
priority_bounds v = (ground arith, ground arith)

IsTable-flag : (s : Sched) → IsTable s → IsTable (run_again s)
IsTable-flag s t = record {
  asleep = t.asleep;
  running = t.running;
  not_waiting = t.not_waiting;
  inside = t.inside;
  once = t.once;
}

priority_mono :
    (v w : Proc) → v.p_cpu % 256 ≤ w.p_cpu % 256 → v.p_nice ≤ w.p_nice → priority v ≤ priority w
unfolding priority
priority_mono v w c n = ground (arith, c, n)

-- The process has a priority in the range, no better than that of a process that has used the
-- processor no more and is no nicer.
pub record IsRanked (p : ℕ) (s s' : Sched) : Type 0 where
  pub table : IsTable s'
  pub low : 30 ≤ (s'.proc p).p_pri
  pub high : (s'.proc p).p_pri ≤ 127
  pub fair :
      (v : Proc)
      → v.p_cpu % 256 ≤ (s.proc p).p_cpu % 256
      → v.p_nice ≤ (s.proc p).p_nice
      → priority v ≤ (s'.proc p).p_pri
  pub switch :
      s'.runrun ≡ (if ltb (s'.proc p).p_pri s.curpri then (s.runrun + 1) % 256 else s.runrun)

-- UNIX_setpri gives the process a priority from 30 to 127, at least that of any process that has
-- used the processor no more and is no nicer; it asks for a switch if and only if this is better than
-- the current one; and the table stays in order.
setpri-IsRanked : (p : ℕ) (s : Sched) → IsTable s → IsRanked p s (setpri p s)
unfolding setpri
setpri-IsRanked p s t =
    let n = priority (s.proc p) in
    let v = record (s.proc p) { p_pri = n } in
    let self : (override s.proc p v p).p_pri ≡ n = ap Proc.p_pri (override_self s.proc p v) in
    let (low, high) = priority_bounds (s.proc p) in
    elim (Bool-cases (ltb n s.curpri)) [
      | inl y ↦ rw y record {
        table = IsTable-put p v (run_again s) refl refl (IsTable-flag s t);
        low = omega (arith, self, low);
        high = omega (arith, self, high);
        fair = λ w c h. omega (arith, self, priority_mono w (s.proc p) c h);
        switch = rw (self, y) refl;
      }
      | inr stay ↦ rw stay record {
        table = IsTable-put p v s refl refl t;
        low = omega (arith, self, low);
        high = omega (arith, self, high);
        fair = λ w c h. omega (arith, self, priority_mono w (s.proc p) c h);
        switch = rw (self, stay) refl;
      }
    ]
