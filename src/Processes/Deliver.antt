-- ===== src/Processes/Deliver.antt =====
-- UNIX_psignal and UNIX_signal.
use hostable_32v.Prelude.{
  ℕ, zero, suc, ◌-◌, ◌<◌, ◌≤◌, ◌≡◌, ◌≢◌, refl, ◌∙◌, ap, true, false, ◌&&◌, ◌||◌, arith, ltb, leb,
  ◌==◌, member, Bool-cases, inl, inr, override_self, override_ne,
}
use hostable_32v.Processes.{
  Proc, Sched, Outcome, done, nproc, ssleep, srun, pzero, ready, put, setrun,
}
use hostable_32v.Processes.Signals.{has_bit, marked, psignal, nsig}
use hostable_32v.Processes.Bits.{has_bit-set_bit}
use hostable_32v.Processes.Invariant.{IsTable, IsWoken, put_field, IsTable-put}
use hostable_32v.Processes.Wakeup.{Runs, setrun-Runs}

-- The call returns with the signal among those pending for `p`, and then an interruptible sleeper is
-- running; any other state of `p`, and the signals and groups of all others, are as before.
pub record Signalled (p sig : ℕ) (s : Sched) (o : Outcome Sched) : Type 0 where
  pub after : Sched
  pub returns : o ≡ done after
  pub table : IsTable after
  pub pending :
      (b : ℕ) → has_bit (after.proc p).p_sig b ≡ ((suc b == sig) || has_bit (s.proc p).p_sig b)
  pub runs :
      (s.proc p).p_stat ≡ ssleep
      → pzero < (s.proc p).p_pri
      → ((after.proc p).p_stat ≡ srun) × (member p after.runq ≡ true)
  pub sound : (s.proc p).p_pri ≤ pzero → (after.proc p).p_stat ≡ (s.proc p).p_stat
  pub groups : (i : ℕ) → (after.proc i).p_pgrp ≡ (s.proc i).p_pgrp
  pub others : (i : ℕ) → i ≢ p → (after.proc i).p_sig ≡ (s.proc i).p_sig

marked_pending :
    (sig b : ℕ) (v : Proc) → has_bit (marked sig v).p_sig b ≡ ((suc b == sig) || has_bit v.p_sig b)
unfolding marked
marked_pending zero b v = ground arith
marked_pending (suc sig) b v =
    let test : (suc sig == 0) ≡ false = ground arith in
    let less : suc sig - 1 ≡ sig = omega arith in rw (test, less, has_bit-set_bit) (ground arith)

woken_field :
    (f : Proc → ℕ) (chan : ℕ) (s s' : Sched)
    → ((v : Proc) → f (ready v) ≡ f v)
    → IsWoken chan s s'
    → (i : ℕ) → f (s'.proc i) ≡ f (s.proc i)
woken_field f chan s s' h w i = elim (w.each i) [
  | inl e ↦ ap f e
  | inr (e, m, a) ↦ ap f e ∙ h (s.proc i)
]

module _ (fuel p sig : ℕ) (s : Sched) (inside : p < nproc) (t : IsTable s) where
  v₁ : Proc
  v₁ = marked sig (s.proc p)

  s₁ : Sched
  s₁ = put p v₁ s

  v₁-self : s₁.proc p ≡ v₁
  unfolding s₁
  v₁-self = override_self s.proc p v₁

  IsTable-marked : IsTable s₁
  unfolding s₁ v₁ marked
  IsTable-marked = IsTable-put p v₁ s refl refl t

  pending₁ : (b : ℕ) → has_bit (s₁.proc p).p_sig b ≡ ((suc b == sig) || has_bit (s.proc p).p_sig b)
  unfolding v₁
  pending₁ b = ap (λ v. has_bit v.p_sig b) v₁-self ∙ marked_pending sig b (s.proc p)

  groups₁ : (i : ℕ) → (s₁.proc i).p_pgrp ≡ (s.proc i).p_pgrp
  unfolding s₁ v₁ marked
  groups₁ = put_field Proc.p_pgrp p v₁ s refl

  others₁ : (i : ℕ) → i ≢ p → (s₁.proc i).p_sig ≡ (s.proc i).p_sig
  unfolding s₁
  others₁ i n = ap Proc.p_sig (override_ne s.proc p v₁ i n)

  stat₁ : v₁.p_stat ≡ (s.proc p).p_stat
  unfolding v₁ marked
  stat₁ = refl

  pri₁ :
      (pzero < (s.proc p).p_pri → pzero < v₁.p_pri) × ((s.proc p).p_pri ≤ pzero → v₁.p_pri ≤ pzero)
  unfolding v₁ marked
  pri₁ = (λ h. ground (arith, h), λ h. ground (arith, h))

  psignal-woken : v₁.p_stat ≡ ssleep → pzero < v₁.p_pri → Signalled p sig s (setrun (suc fuel) p s₁)
  psignal-woken asleep low =
      let r : Runs (s₁.proc p).p_wchan p s₁ (setrun (suc fuel) p s₁) =
        setrun-Runs fuel (s₁.proc p).p_wchan p s₁ inside IsTable-marked
          (ap Proc.p_stat v₁-self ∙ asleep) (inl refl) in
      let same : (f : Proc → ℕ)
          → ((v : Proc) → f (ready v) ≡ f v)
          → (i : ℕ) → f (r.call.after.proc i) ≡ f (s₁.proc i) =
        λ f h. woken_field f (s₁.proc p).p_wchan s₁ r.call.after h r.call.woken in
      record {
        after = r.call.after;
        returns = r.call.returns;
        table = r.call.table;
        pending = λ b. ap (λ n. has_bit n b) (same Proc.p_sig (λ v. refl) p) ∙ pending₁ b;
        runs = λ a h. (ap Proc.p_stat r.self, r.queued);
        sound = λ h. absurd (omega (arith, pri₁.1 h, low));
        groups = λ i. same Proc.p_pgrp (λ v. refl) i ∙ groups₁ i;
        others = λ i n. same Proc.p_sig (λ v. refl) i ∙ others₁ i n;
      }

  psignal-quiet :
      ((v₁.p_stat == ssleep) && ltb pzero v₁.p_pri) ≡ false → Signalled p sig s (done s₁)
  psignal-quiet still = record {
    after = s₁;
    returns = refl;
    table = IsTable-marked;
    pending = pending₁;
    runs = λ a h. absurd (ground (arith, still, stat₁, a, pri₁.0 h));
    sound = λ h. ap Proc.p_stat v₁-self ∙ stat₁;
    groups = groups₁;
    others = others₁;
  }

  -- UNIX_psignal of a signal below NSIG returns. Then the signal is pending for the process, with
  -- those that were; if the process slept interruptibly it can run and is on the queue, and if it
  -- slept at a high priority it still does; and no other process has a signal more or less.
  pub psignal-Signalled : sig < nsig → Signalled p sig s (psignal (suc fuel) p sig s)
  unfolding psignal s₁ v₁ marked
  psignal-Signalled lt =
      let fits : leb nsig sig ≡ false = ground (arith, lt) in
      rw fits (elim (Bool-cases ((v₁.p_stat == ssleep) && ltb pzero v₁.p_pri)) [
        | inl y ↦ rw y (psignal-woken (ground (arith, y)) (ground (arith, y)))
        | inr n ↦ rw n (psignal-quiet n)
      ])
