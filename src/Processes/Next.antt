-- ===== src/Processes/Next.antt =====
-- UNIX_fsig and UNIX_issig: which signal is the next.
use hostable_32v.Prelude.{
  ℕ, zero, suc, ◌+◌, ◌-◌, ◌/◌, ◌%◌, ◌^◌, ◌<◌, ◌≤◌, ◌≡◌, ◌≢◌, refl, ◌∙◌, ap, Bool, true, false, not,
  ◌&&◌, ◌||◌, arith, leb, ◌==◌, Bool-cases, inl, inr, ℕ_discrete,
}
use hostable_32v.Processes.{Sched, Outcome, done, and_then, put}
use hostable_32v.Processes.Signals.{has_bit, clear_bit, fsig_from, fsig, issig_loop, issig}
use hostable_32v.Processes.Bits.{has_bit-clear_bit}

-- The signal found is the lowest bit.
pub record IsLowest (k i n r : ℕ) : Type 0 where
  pub bit : ℕ
  pub below : bit < k
  pub found : r ≡ bit + i
  pub set : has_bit n bit ≡ true
  pub clear : (l : ℕ) → l < bit → has_bit n l ≡ false

pub fsig_from-IsLowest : (k i n : ℕ) → n < 2 ^ k → n ≢ 0 → IsLowest k i n (fsig_from k i n)
unfolding fsig_from has_bit
fsig_from-IsLowest zero i n lt nz = absurd (omega (arith, lt, nz))
fsig_from-IsLowest (suc k) i n lt nz = elim (Bool-cases (n % 2 == 1)) [
  | inl odd ↦ rw odd record {
    bit = 0;
    below = omega arith;
    found = omega arith;
    set = odd;
    clear = λ l h. absurd (omega (arith, h));
  }
  | inr even ↦
      let r =
        fsig_from-IsLowest k (suc i) (n / 2) (omega (arith, lt))
          (λ z. nz (ground (arith, z, even))) in
      rw even record {
        bit = suc r.bit;
        below = omega (arith, r.below);
        found = omega (arith, r.found);
        set = r.set;
        clear = λ l h.
            elim l as (λ x. x < suc r.bit → has_bit n x ≡ false) [
              | zero ↦ λ _. even
              | suc l' ↦ λ h'. r.clear l' (omega (arith, h'))
            ]
              h;
      }
]

-- What UNIX_issig does about a signal that the predicate `acts` tells from the ignored ones.
abbrev pub acting : (ℕ → ℕ) → Bool → ℕ → Bool
acting u_signal trc sig = (u_signal sig % 2 == 0) || trc

-- Of the signals pending in `n`, `sig` is the lowest that is acted on, or 0 if there is none, and
-- `left` is `n` without those below it.
pub record IsNext (acts : ℕ → Bool) (n sig left : ℕ) : Type 0 where
  pub pending : sig ≢ 0 → has_bit n (sig - 1) ≡ true
  pub acted : sig ≢ 0 → acts sig ≡ true
  pub lowest : (j : ℕ) → has_bit n j ≡ true → acts (suc j) ≡ true → (sig ≢ 0) × (sig ≤ suc j)
  pub smaller : left ≤ n
  pub rest : (j : ℕ) → has_bit left j ≡ (has_bit n j && not (sig == 0) && leb sig (suc j))

record Loop (acts : ℕ → Bool) (n : ℕ) (o : Outcome (ℕ × ℕ)) : Type 0 where
  sig : ℕ
  left : ℕ
  returns : o ≡ done (sig, left)
  next : IsNext acts n sig left

clear_bit_le : (n i : ℕ) → clear_bit n i ≤ n
unfolding clear_bit
clear_bit_le n zero = omega arith
clear_bit_le n (suc i) = omega (arith, clear_bit_le (n / 2) i)

no_bits : (k n : ℕ) → n < 2 ^ k → ((j : ℕ) → j < k → has_bit n j ≡ false) → n ≡ 0
unfolding has_bit
no_bits zero n lt h = omega (arith, lt)
no_bits (suc k) n lt h =
    let half : n / 2 ≡ 0 =
      no_bits k (n / 2) (omega (arith, lt)) (λ j l. h (suc j) (omega (arith, l))) in
    ground (arith, half, h 0 (omega arith))

pub has_bit-zero : (j : ℕ) → has_bit 0 j ≡ false
unfolding has_bit
has_bit-zero zero = ground arith
has_bit-zero (suc j) = ground (arith, has_bit-zero j)

no_signal : (acts : ℕ → Bool) (n : ℕ) → n ≡ 0 → Loop acts n (done (0, n))
no_signal acts n z = record {
  sig = 0;
  left = n;
  returns = refl;
  next = record {
    pending = λ nz. absurd (nz refl);
    acted = λ nz. absurd (nz refl);
    smaller = omega arith;
    lowest = λ j h a. absurd (ground (arith, h, has_bit-zero j, ap (λ x. has_bit x j) z));
    rest = λ j. ground (arith, has_bit-zero j, ap (λ x. has_bit x j) z);
  };
}

this_signal :
    (acts : ℕ → Bool) (n bit : ℕ)
    → has_bit n bit ≡ true
    → ((l : ℕ) → l < bit → has_bit n l ≡ false)
    → acts (suc bit) ≡ true
    → Loop acts n (done (suc bit, n))
this_signal acts n bit h low a = record {
  sig = suc bit;
  left = n;
  returns = refl;
  next = record {
    pending = λ nz. ap (has_bit n) (omega arith) ∙ h;
    acted = λ nz. a;
    smaller = omega arith;
    lowest = λ j hj aj. ((λ z. omega (arith, z)), ground (arith, low j, hj));
    rest = λ j. ground (arith, low j);
  };
}

-- An ignored signal is cleared, and what is next without it is next.
skip_signal :
    (acts : ℕ → Bool) (n bit sig left : ℕ)
    → has_bit n bit ≡ true
    → ((l : ℕ) → l < bit → has_bit n l ≡ false)
    → acts (suc bit) ≡ false
    → IsNext acts (clear_bit n bit) sig left
    → IsNext acts n sig left
skip_signal acts n bit sig left h low a next = record {
  pending = λ nz. ground (arith, next.pending nz, has_bit-clear_bit n bit (sig - 1));
  acted = next.acted;
  smaller = omega (arith, next.smaller, clear_bit_le n bit);
  lowest = λ j hj aj.
      next.lowest j
        (has_bit-clear_bit n bit j
          ∙ ground (arith, hj, aj, a, ap (λ x. acts (suc x)) {x = bit} {y = j}))
        aj;
  rest = λ j. next.rest j ∙ elim (ℕ_discrete sig 0) [
    | yes z ↦ ground (arith, z)
    | no nz ↦ ground (arith, has_bit-clear_bit n bit j, later nz)
  ];
}
  where
    later : sig ≢ 0 → bit < sig - 1
    later nz = ground (arith, next.pending nz, has_bit-clear_bit n bit (sig - 1), low (sig - 1))

-- All bits below `k` are clear, so `fuel` of the sixteen are enough.
issig_loop-Loop :
    (u_signal : ℕ → ℕ) (trc : Bool) (fuel k n : ℕ)
    → fuel + k ≡ 16
    → n < 2 ^ 16
    → ((j : ℕ) → j < k → has_bit n j ≡ false)
    → Loop (acting u_signal trc) n (issig_loop (suc fuel) u_signal trc n)
unfolding issig_loop
issig_loop-Loop u_signal trc zero k n len lt low =
    let z : n ≡ 0 = no_bits 16 n lt (λ j h. low j (omega (arith, h, len))) in
    let empty : (n == 0) ≡ true = ground (arith, z) in
    rw empty (no_signal (acting u_signal trc) n z)
issig_loop-Loop u_signal trc (suc fuel) k n len lt low = elim (ℕ_discrete n 0) [
  | yes z ↦
      let empty : (n == 0) ≡ true = ground (arith, z) in
      rw empty (no_signal (acting u_signal trc) n z)
  | no nz ↦
      let some_bit : (n == 0) ≡ false = ground (arith, nz) in
      let found = fsig_from-IsLowest 16 1 n lt nz in
      let at : fsig n ≡ suc found.bit = omega (arith, found.found) in
      let less : suc found.bit - 1 ≡ found.bit = omega arith in
      let r =
        issig_loop-Loop u_signal trc fuel (suc k) (clear_bit n found.bit) (omega (arith, len))
          (omega (arith, lt, clear_bit_le n found.bit))
          (λ j h.
            has_bit-clear_bit n found.bit j
            ∙ ground (arith, found.clear j, low j, low found.bit, found.set, h)) in
      rw (some_bit, at, less)
        (elim (Bool-cases (acting u_signal trc (suc found.bit))) [
          | inl a ↦ rw a (this_signal (acting u_signal trc) n found.bit found.set found.clear a)
          | inr i ↦ rw i record {
            sig = r.sig;
            left = r.left;
            returns = r.returns;
            next =
                skip_signal (acting u_signal trc) n found.bit r.sig r.left found.set found.clear i
                  r.next;
          }
        ])
]

-- UNIX_issig comes to its end within the sixteen signals and one round more: it returns the lowest
-- pending signal that is not ignored, or any if the process is traced, and 0 if there is none; and
-- then just the pending signals below it are cleared.
pub issig-IsNext :
    (s : Sched)
    → (s.proc s.u_procp).p_sig < 2 ^ 16
    → (sig : ℕ) × (left : ℕ) × (issig 17 s
        ≡ done (sig, put s.u_procp (record (s.proc s.u_procp) { p_sig = left }) s))
      × IsNext (acting s.u_signal (s.proc s.u_procp).s_trc) (s.proc s.u_procp).p_sig sig left
unfolding issig
issig-IsNext s lt =
    let v = s.proc s.u_procp in
    let r =
      issig_loop-Loop s.u_signal v.s_trc 16 0 v.p_sig refl lt (λ j h. absurd (omega (arith, h))) in
    (
      r.sig,
      r.left,
      ap (λ o. and_then o (λ (n, p_sig). done (n, put s.u_procp (record v { p_sig = p_sig }) s)))
          r.returns,
      r.next,
    )
