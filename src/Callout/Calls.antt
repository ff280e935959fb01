-- ===== src/Callout/Calls.antt =====
-- The calls that the clock makes are those due, and what they ask for is entered.
use hostable_32v.Prelude.{
  ℕ, zero, suc, ◌+◌, ◌≤◌, ◌<◌, ◌≡◌, refl, true, false, List, [], ◌∷◌, ◌++◌, arith, ◌==◌, map,
  length, some, inl, inr, Bool-cases, ap, ◌∙◌, get_elem?, drop, sym, length-append,
}
use hostable_32v.Callout.{
  Callo, Table, ok, count_down, serve, Handlers, Called, called, also, call_loop, Ticked, ticked,
  compact, clock_callouts,
}
use hostable_32v.Callout.Tick.{due-count_down}
use hostable_32v.Callout.Due.{due, insert_all, sooner, reached, waiting}
use hostable_32v.Callout.Ripe.{
  ripe, unripe, AllRipe, HeadLate, split_ripe, AllLater, serve-Served, requests, insert_all-append,
  get_elem?-append, drop-append,
}

-- The entry at index `i`, where the entries from there on are `y ∷ ys`.
at_index :
    (i : ℕ) (zs rest : Table) (y : Callo) (ys : Table)
    → AllRipe zs
    → drop i zs ≡ y ∷ ys
    → (get_elem? (zs ++ rest) i ≡ some y) × (y.c_time ≡ 0) × (drop (suc i) zs ≡ ys)
at_index zero [] rest y ys a e = absurd (cc)
at_index zero (z ∷ zs) rest y ys a e = ground (arith, e, a.0)
at_index (suc i) [] rest y ys a e = absurd (cc)
at_index (suc i) (z ∷ zs) rest y ys a e = at_index i zs rest y ys a.1 e

record Ran (hs : Handlers) (zs rest ys : Table) (r : Called) : Type 0 where
  left : Table
  equation : r ≡ called ys (length zs) (zs ++ left)
  dues : due left ≡ insert_all (requests hs ys) (due rest)

call_loop-end :
    (fuel : ℕ) (hs : Handlers) (zs rest : Table)
    → HeadLate rest
    → call_loop (suc fuel) hs (length zs) (zs ++ rest) ≡ called [] (length zs) (zs ++ rest)
unfolding call_loop
call_loop-end fuel hs zs [] h = rw (get_elem?-append zs [], call_loop) refl
call_loop-end fuel hs zs (e ∷ es) h =
    let late : (e.c_time == 0) ≡ false = ground arith in
    rw (get_elem?-append zs (e ∷ es), late, call_loop) refl

call_loop-step :
    (hs : Handlers) (fuel i : ℕ) (y : Callo) (t t' : Table)
    → get_elem? t i ≡ some y
    → y.c_time ≡ 0
    → serve (hs y) t ≡ ok t'
    → call_loop (suc fuel) hs i t ≡ also y (call_loop fuel hs (i + 1) t')
unfolding call_loop
call_loop-step hs fuel i y t t' got now s =
    let z : (y.c_time == 0) ≡ true = ground arith in rw (got, z, s, call_loop) refl

module _ (hs : Handlers) (later : (e : Callo) → AllLater (hs e)) (zs : Table) (a : AllRipe zs) where
  call_loop-Ran :
      (fuel i : ℕ) (ys rest : Table)
      → drop i zs ≡ ys
      → i + length ys ≡ length zs
      → HeadLate rest
      → length zs + length rest + length (requests hs ys) ≤ 19
      → length ys < fuel
      → Ran hs zs rest ys (call_loop fuel hs i (zs ++ rest))
  call_loop-Ran zero i ys rest d n h c f = absurd (omega arith)
  call_loop-Ran (suc fuel) i [] rest d n h c f =
      let e : i ≡ length zs = omega arith in
      rw e (record { left = rest; equation = call_loop-end fuel hs zs rest h; dues = refl })
  call_loop-Ran (suc fuel) i (y ∷ ys) rest d n h c f =
      let (got, now, tail) = at_index i zs rest y ys a d in
      let len = length-append (hs y) (requests hs ys) in
      let s = serve-Served zs rest (hs y) a h (later y) (omega (arith, len)) in
      let next : i + 1 ≡ suc i = omega arith in
      let k =
        call_loop-Ran fuel (suc i) ys s.left tail (omega arith) s.late
          (omega (arith, len, s.as_many)) (omega arith) in
      record {
        left = k.left;
        equation =
            call_loop-step hs fuel i y (zs ++ rest) (zs ++ s.left) got now s.equation
            ∙ rw (next, k.equation) refl;
        dues =
            k.dues
            ∙ ap (insert_all (requests hs ys)) s.dues
            ∙ sym (insert_all-append (hs y) (requests hs ys) (due rest));
      }

reached-due : (t : Table) → reached (due t) ≡ due (ripe t)
unfolding ripe
reached-due [] = refl
reached-due (e ∷ es) = elim (Bool-cases (e.c_time == 0)) [
  | inl z ↦ let now : 0 + e.c_time ≡ 0 = ground arith in rw (z, now, reached-due es) refl
  | inr l ↦ let s : (0 + e.c_time == 0) ≡ false = ground arith in rw (l, s) refl
]

waiting-due : (t : Table) → waiting (due t) ≡ due (unripe t)
unfolding unripe
waiting-due [] = refl
waiting-due (e ∷ es) = elim (Bool-cases (e.c_time == 0)) [
  | inl z ↦ let now : 0 + e.c_time ≡ 0 = ground arith in rw (z, now, waiting-due es) refl
  | inr l ↦ let s : (0 + e.c_time == 0) ≡ false = ground arith in rw (l, s) refl
]

length-count_down : (t : Table) → length (count_down t) ≡ length t
unfolding count_down
length-count_down [] = refl
length-count_down (e ∷ es) = ground (arith, length-count_down es)

compact-called :
    (es : List Callo) (i : ℕ) (t : Table) → compact (called es i t) ≡ ticked es (drop i t)
unfolding compact
compact-called es i t = refl

clock-count_down :
    (hs : Handlers) (e : Callo) (es : Table)
    → clock_callouts hs false (e ∷ es) ≡ compact (call_loop 21 hs 0 (count_down (e ∷ es)))
unfolding clock_callouts
clock-count_down hs e es = refl

-- What a tick of the clock did: it called the functions whose deadlines have come, in order, and
-- the deadlines left are the others, one tick nearer, with what the functions asked for.
pub record Clocked (hs : Handlers) (table : Table) (r : Ticked) : Type 0 where
  pub calls : Table
  pub left : Table
  pub equation : r ≡ ticked calls left
  pub on_time : due calls ≡ reached (map sooner (due table))
  pub dues : due left ≡ insert_all (requests hs calls) (waiting (map sooner (due table)))

-- At base priority, where the called functions ask for later ticks only and what they ask for fits
-- in the table, a tick calls exactly the functions whose deadlines have come, and keeps the others.
pub clock-Clocked :
    (hs : Handlers) (table : Table)
    → ((e : Callo) → AllLater (hs e))
    → length table + length (requests hs (ripe (count_down table))) ≤ 19
    → Clocked hs table (clock_callouts hs false table)
clock-Clocked hs [] later c = record {
  calls = [];
  left = [];
  equation = unfold clock_callouts in refl;
  on_time = refl;
  dues = refl;
}
clock-Clocked hs (e ∷ es) later c =
    let t : Table = count_down (e ∷ es) in
    let (parts, a, h) = split_ripe t in
    let same = due-count_down (e ∷ es) in
    let len = ap length parts ∙ length-append (ripe t) (unripe t) in
    let k =
      call_loop-Ran hs later (ripe t) a 21 0 (ripe t) (unripe t) refl (omega arith) h
        (omega (arith, len, length-count_down (e ∷ es)))
        (omega (arith, len, length-count_down (e ∷ es))) in
    record {
      calls = ripe t;
      left = k.left;
      equation =
          clock-count_down hs e es
          ∙ ap (λ u. compact (call_loop 21 hs 0 u)) parts
          ∙ ap compact k.equation
          ∙ compact-called (ripe t) (length (ripe t)) (ripe t ++ k.left)
          ∙ ap (ticked (ripe t)) (drop-append (ripe t) k.left);
      on_time = sym (reached-due t) ∙ ap reached same;
      dues =
          k.dues ∙ ap (insert_all (requests hs (ripe t))) (sym (waiting-due t) ∙ ap waiting same);
    }
