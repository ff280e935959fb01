-- ===== src/Processes/Act.antt =====
-- UNIX_issig and then UNIX_psig: the signal that was found is the one acted on.
use hostable_32v.Prelude.{
  ℕ, suc, ◌-◌, ◌^◌, ◌<◌, ◌≡◌, ◌≢◌, ◌∙◌, ap, Bool, true, false, not, ◌&&◌, arith, leb, ◌==◌,
  Bool-cases, inl, inr, override_self, override_ne, ◌⊎◌, ◌||◌, refl, sym, List, [], ◌∷◌, member,
}
use hostable_32v.Processes.{Sched, done, put}
use hostable_32v.Processes.Signals.{
  has_bit, fsig, issig, Action, sends, exits, dumps, dumps_core, unmark, reset_signal, psig,
}
use hostable_32v.Processes.Bits.{has_bit-clear_bit}
use hostable_32v.Processes.Next.{fsig_from-IsLowest, acting, IsNext, issig-IsNext, has_bit-zero}

nonzero : (n j : ℕ) → has_bit n j ≡ true → n ≢ 0
nonzero n j h z = absurd (ground (arith, h, has_bit-zero j, ap (λ x. has_bit x j) z))

-- In what UNIX_issig leaves, its signal is the lowest.
fsig-IsNext :
    (acts : ℕ → Bool) (n sig left : ℕ)
    → n < 2 ^ 16
    → sig ≢ 0
    → IsNext acts n sig left
    → fsig left ≡ sig
fsig-IsNext acts n sig left lt nz next =
    let here : has_bit left (sig - 1) ≡ true =
      next.rest (sig - 1) ∙ ground (arith, next.pending nz, nz) in
    let low =
      fsig_from-IsLowest 16 1 left (omega (arith, next.smaller, lt))
        (nonzero left (sig - 1) here) in
    ground (arith, nz, here, low.found, low.set, low.clear (sig - 1), next.rest low.bit)

-- SIGQUIT, SIGINS, SIGTRC, SIGIOT, SIGEMT, SIGFPT, SIGBUS, SIGSEG and SIGSYS, by h/param.h.
abbrev core_signals : List ℕ
core_signals = 3 ∷ 4 ∷ 5 ∷ 6 ∷ 7 ∷ 8 ∷ 10 ∷ 11 ∷ 12 ∷ []

-- Of the signals that were pending, just those above the one acted on still are.
abbrev Above : Sched → ℕ → Sched → Type 0
Above s sig t =
    (j : ℕ)
    → has_bit (t.proc s.u_procp).p_sig j
      ≡ (has_bit (s.proc s.u_procp).p_sig j && leb (suc sig) (suc j))

-- The signal is sent to its handler, which is forgotten but for SIGINS and SIGTRC, or ends the process
-- where it has none.
pub data Acts (s : Sched) (sig : ℕ) : Action → Type 0 where
  caught :
      (t : Sched)
      → s.u_signal sig ≢ 0
      → Above s sig t
      → ((k : ℕ) → k ≢ sig → t.u_signal k ≡ s.u_signal k)
      → ((sig ≡ 4) ⊎ (sig ≡ 5)) × (t.u_signal sig ≡ s.u_signal sig)
        ⊎ (sig ≢ 4) × (sig ≢ 5) × (t.u_signal sig ≡ 0)
      → Acts s sig (sends (s.u_signal sig) sig t)
  died :
      (t : Sched)
      → s.u_signal sig ≡ 0
      → member sig core_signals ≡ false
      → Above s sig t
      → Acts s sig (exits sig t)
  dumped :
      (t : Sched)
      → s.u_signal sig ≡ 0
      → member sig core_signals ≡ true
      → Above s sig t
      → Acts s sig (dumps sig t)

dumps_core-member : (sig : ℕ) → dumps_core sig ≡ member sig core_signals
dumps_core-member sig = ground arith

reset-others : (sig k : ℕ) (s : Sched) → k ≢ sig → (reset_signal sig s).u_signal k ≡ s.u_signal k
reset-others sig k s ne = elim (Bool-cases ((sig == 4) || (sig == 5))) [
  | inl y ↦ rw y refl
  | inr n ↦ rw n (override_ne s.u_signal sig 0 k ne)
]

reset-own :
    (sig : ℕ) (s : Sched)
    → ((sig ≡ 4) ⊎ (sig ≡ 5)) × ((reset_signal sig s).u_signal sig ≡ s.u_signal sig)
      ⊎ (sig ≢ 4) × (sig ≢ 5) × ((reset_signal sig s).u_signal sig ≡ 0)
reset-own sig s = elim (Bool-cases (sig == 4)) [
  | inl y ↦ inl (inl (ground (arith, y)), rw y refl)
  | inr n ↦ elim (Bool-cases (sig == 5)) [
    | inl y ↦ inl (inr (ground (arith, y)), rw (n, y) refl)
    | inr n' ↦ inr (
      λ e. ground (arith, n, e),
      λ e. ground (arith, n', e),
      rw (n, n') (override_self s.u_signal sig 0),
    )
  ]
]

psig-Acts :
    (s : Sched) (sig left : ℕ)
    → (s.proc s.u_procp).p_sig < 2 ^ 16
    → sig ≢ 0
    → IsNext (acting s.u_signal (s.proc s.u_procp).s_trc) (s.proc s.u_procp).p_sig sig left
    → Acts s sig (psig (put s.u_procp (record (s.proc s.u_procp) { p_sig = left }) s))
unfolding psig
psig-Acts s sig left lt nz next =
    let v = record (s.proc s.u_procp) { p_sig = left } in
    let s' = put s.u_procp v s in
    let self : s'.proc s.u_procp ≡ v = override_self s.proc s.u_procp v in
    let found : fsig (s'.proc s.u_procp).p_sig ≡ sig =
      ap (λ w. fsig w.p_sig) self ∙ fsig-IsNext _ _ sig left lt nz next in
    let some_signal : (sig == 0) ≡ false = ground (arith, nz) in
    let above : (j : ℕ)
        → has_bit ((unmark sig s').proc s.u_procp).p_sig j
          ≡ (has_bit (s.proc s.u_procp).p_sig j && leb (suc sig) (suc j)) =
      λ j.
        ap (λ w. has_bit w.p_sig j) (override_self s'.proc s.u_procp _)
        ∙ has_bit-clear_bit (s'.proc s.u_procp).p_sig (sig - 1) j
        ∙ ap (λ w. not (sig - 1 == j) && has_bit w.p_sig j) self
        ∙ ap (λ b. not (sig - 1 == j) && b) (next.rest j)
        ∙ ground (arith, nz) in
    rw (found, some_signal)
      (elim (Bool-cases (s.u_signal sig == 0)) [
        | inr y ↦ rw y (
            caught (record (reset_signal sig (unmark sig s')) { u_error = 0 })
              (λ z. ground (arith, z, y)) above (λ k ne. reset-others sig k (unmark sig s') ne)
              (reset-own sig (unmark sig s')))
        | inl z ↦ elim (Bool-cases (dumps_core sig)) [
          | inl d ↦
              rw (z, d)
                (dumped (unmark sig s') (ground (arith, z)) (sym (dumps_core-member sig) ∙ d) above)
          | inr d ↦
              rw (z, d)
                (died (unmark sig s') (ground (arith, z)) (sym (dumps_core-member sig) ∙ d) above)
        ]
      ])

-- UNIX_issig returns, and UNIX_psig acts on what it returned.
pub record Delivered (s : Sched) : Type 0 where
  pub sig : ℕ
  pub after : Sched
  pub found : issig 17 s ≡ done (sig, after)
  pub acts : sig ≢ 0 → Acts s sig (psig after)

-- UNIX_issig comes to an end, and if it returns a signal then UNIX_psig (of a process that is not
-- stopped) acts on just that signal: it goes to its handler, which is forgotten unless the signal is SIGINS
-- or SIGTRC, or it ends the process, with a core image for SIGQUIT, SIGINS, SIGTRC, SIGIOT, SIGEMT,
-- SIGFPT, SIGBUS, SIGSEG and SIGSYS. The signals below it are cleared as well, and those above it stay.
pub psig-Delivered : (s : Sched) → (s.proc s.u_procp).p_sig < 2 ^ 16 → Delivered s
psig-Delivered s lt =
    let (sig, left, e, next) = issig-IsNext s lt in
    record {
      sig = sig;
      after = put s.u_procp (record (s.proc s.u_procp) { p_sig = left }) s;
      found = e;
      acts = λ nz. psig-Acts s sig left lt nz next;
    }
