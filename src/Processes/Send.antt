-- ===== src/Processes/Send.antt =====
-- UNIX_signal: a signal for a process group.
use hostable_32v.Prelude.{
  ℕ, zero, suc, ◌+◌, ◌<◌, ◌≡◌, ◌≢◌, refl, ◌∙◌, ap, false, ◌&&◌, ◌||◌, arith, leb, ◌==◌,
  if◌then◌else◌, Bool-cases, inl, inr, ℕ_discrete,
}
use hostable_32v.Processes.{Sched, Outcome, done, and_then, nproc}
use hostable_32v.Processes.Signals.{has_bit, psignal, signal_from, signal, nsig}
use hostable_32v.Processes.Invariant.{IsTable}
use hostable_32v.Processes.Deliver.{psignal-Signalled}

-- The same of each process of the group, from the process `i` on.
pub record Sent (i pgrp sig : ℕ) (s : Sched) (o : Outcome Sched) : Type 0 where
  pub after : Sched
  pub returns : o ≡ done after
  pub table : IsTable after
  pub pending :
      (q b : ℕ)
      → q < nproc
      → has_bit (after.proc q).p_sig b
        ≡ ((leb i q && ((s.proc q).p_pgrp == pgrp) && (suc b == sig)) || has_bit (s.proc q).p_sig b)

-- One round of the loop.
record Step (i pgrp sig : ℕ) (s : Sched) (o : Outcome Sched) : Type 0 where
  after : Sched
  returns : o ≡ done after
  table : IsTable after
  pending :
      (b : ℕ)
      → has_bit (after.proc i).p_sig b
        ≡ ((((s.proc i).p_pgrp == pgrp) && (suc b == sig)) || has_bit (s.proc i).p_sig b)
  groups : (q : ℕ) → (after.proc q).p_pgrp ≡ (s.proc q).p_pgrp
  others : (q : ℕ) → q ≢ i → (after.proc q).p_sig ≡ (s.proc q).p_sig

signal_round :
    (fuel i pgrp sig : ℕ) (s : Sched)
    → i < nproc
    → sig < nsig
    → IsTable s
    → Step i pgrp sig s (if (s.proc i).p_pgrp == pgrp then psignal (suc fuel) i sig s else done s)
signal_round fuel i pgrp sig s lt fits t = elim (Bool-cases ((s.proc i).p_pgrp == pgrp)) [
  | inl y ↦
      let r = psignal-Signalled fuel i sig s lt t fits in
      rw y record {
        after = r.after;
        returns = r.returns;
        table = r.table;
        pending = λ b. r.pending b ∙ ground (arith, y);
        groups = r.groups;
        others = r.others;
      }
  | inr n ↦ rw n record {
    after = s;
    returns = refl;
    table = t;
    pending = λ b. ground (arith, n);
    groups = λ q. refl;
    others = λ q d. refl;
  }
]

signal_from-Sent :
    (fuel k i pgrp sig : ℕ) (s : Sched)
    → k + i ≡ nproc
    → sig < nsig
    → IsTable s
    → Sent i pgrp sig s (signal_from (suc fuel) k i pgrp sig s)
unfolding signal_from
signal_from-Sent fuel zero i pgrp sig s len fits t = record {
  after = s;
  returns = refl;
  table = t;
  pending = λ q b lt. ground (arith, len, lt);
}
signal_from-Sent fuel (suc k) i pgrp sig s len fits t =
    let r = signal_round fuel i pgrp sig s (omega arith) fits t in
    let rest = signal_from-Sent fuel k (suc i) pgrp sig r.after (omega arith) fits r.table in
    record {
      after = rest.after;
      returns =
          ap (λ x. and_then x (signal_from (suc fuel) k (suc i) pgrp sig)) r.returns ∙ rest.returns;
      table = rest.table;
      pending = λ q b lt. elim (ℕ_discrete q i) [
        | yes e ↦
            rest.pending q b lt
            ∙ ground (
              arith,
              e,
              r.groups q,
              r.pending b,
              ap (λ x. has_bit (r.after.proc x).p_sig b) e,
              ap (λ x. has_bit (s.proc x).p_sig b) e,
              ap (λ x. (s.proc x).p_pgrp) e,
            )
        | no n ↦
            rest.pending q b lt
            ∙ ground (arith, n, r.groups q, ap (λ x. has_bit x b) (r.others q n))
      ];
    }

-- UNIX_signal of a process group and a signal below NSIG returns. Then the signal is pending for
-- every process of the group, and no process has another signal more or less than it had.
pub signal-Sent :
    (fuel pgrp sig : ℕ) (s : Sched)
    → pgrp ≢ 0
    → sig < nsig
    → IsTable s
    → Sent 0 pgrp sig s (signal (suc fuel) pgrp sig s)
unfolding signal
signal-Sent fuel pgrp sig s nz fits t =
    let some_group : (pgrp == 0) ≡ false = ground (arith, nz) in
    rw some_group (signal_from-Sent fuel nproc 0 pgrp sig s refl fits t)
