-- ===== src/DiskQueue/Place.antt =====
-- Where UNIX_disksort puts a request: nowhere but behind one that waits.
use hostable_32v.Prelude.{
  ℕ, zero, suc, ◌+◌, ◌≤◌, ◌<◌, ◌≡◌, refl, not, ◌&&◌, Option, none, some, List, [], ◌∷◌, ◌++◌, arith,
  leb, length, length-append, Bool-cases, inl, inr, ap,
}
use hostable_32v.DiskQueue.{
  Buf, Queue, Tp, not_below, step, at_write, position, scan, link_behind, link_in, or_last,
  disksort,
}

-- A position before `i`, if there is one.
pub IsBefore : Option ℕ → ℕ → Type 0
IsBefore none i = 0 ≤ i
IsBefore (some k) i = k < i

IsBefore-later : (r : Option ℕ) (i j : ℕ) → i ≤ j → IsBefore r i → IsBefore r j
unfolding IsBefore
IsBefore-later none i j h b = omega arith
IsBefore-later (some k) i j h b = omega (arith, b)

IsBefore-step :
    (bp e : Buf) (i : ℕ) (tp : Tp)
    → IsBefore (position tp) i
    → IsBefore (position (step bp i tp e)) (i + 1)
unfolding step position IsBefore
IsBefore-step bp e i tp b = elim (Bool-cases (leb e.b_cylin bp.b_cylin && not_below tp e.b_cylin)) [
  | inl t ↦ rw t (omega arith)
  | inr f ↦ rw f (IsBefore-later (position tp) i (i + 1) (omega arith) b)
]

IsBefore-at_write :
    (i n : ℕ) (tp : Tp) → IsBefore (position tp) i → i < n → IsBefore (at_write tp i) n
unfolding at_write position IsBefore
IsBefore-at_write i n none b h = h
IsBefore-at_write i n (some (k, c)) b h = omega (arith, b)

scan-IsBefore :
    (bp : Buf) (i : ℕ) (tp : Tp) (q : List Buf)
    → IsBefore (position tp) i
    → IsBefore (scan bp i tp q) (i + length q)
unfolding scan
scan-IsBefore bp i tp [] b = IsBefore-later (position tp) i (i + 0) (omega arith) b
scan-IsBefore bp i tp (e ∷ q) b = elim (Bool-cases (bp.b_read && not e.b_read)) [
  | inl t ↦ rw t (IsBefore-at_write i (i + suc (length q)) tp b (omega arith))
  | inr f ↦ rw f (
      IsBefore-later _ (i + 1 + length q) (i + suc (length q)) (omega arith) (
        scan-IsBefore bp (i + 1) _ q (elim (Bool-cases (not bp.b_read && e.b_read)) [
          | inl t ↦ rw t (IsBefore-later (position tp) i (i + 1) (omega arith) b)
          | inr n ↦ rw n (IsBefore-step bp e i tp b)
        ])))
]

-- The queue is in order: `b_actl` is the last one's position.
pub record IsQueue (dp : Queue) : Type 0 where
  pub last : length dp.b_actf ≡ suc dp.b_actl

-- `bp` stands behind `front`, which is not empty, and before `back`; both were there before.
pub record Queued (dp : Queue) (bp : Buf) (r : Queue) : Type 0 where
  pub front : List Buf
  pub back : List Buf
  pub parts : dp.b_actf ≡ front ++ back
  pub behind : 0 < length front
  pub placed : r.b_actf ≡ front ++ (bp ∷ back)
  pub last : length r.b_actf ≡ suc r.b_actl

record Linked (k : ℕ) (bp : Buf) (q r : List Buf) : Type 0 where
  front : List Buf
  back : List Buf
  parts : q ≡ front ++ back
  behind : length front ≡ suc k
  placed : r ≡ front ++ (bp ∷ back)

Linked-link_behind :
    (k : ℕ) (bp : Buf) (q : List Buf) → k < length q → Linked k bp q (link_behind k bp q)
unfolding link_behind
Linked-link_behind k bp [] h = absurd (omega arith)
Linked-link_behind zero bp (e ∷ q) h = record {
  front = e ∷ [];
  back = q;
  parts = refl;
  behind = refl;
  placed = refl;
}
Linked-link_behind (suc k) bp (e ∷ q) h =
    let l = Linked-link_behind k bp q (omega arith) in
    record {
      front = e ∷ l.front;
      back = l.back;
      parts = ap (λ t. e ∷ t) l.parts;
      behind = omega (arith, l.behind);
      placed = ap (λ t. e ∷ t) l.placed;
    }

link_in-Queued :
    (k : ℕ) (bp : Buf) (dp : Queue)
    → IsQueue dp
    → k < length dp.b_actf
    → Queued dp bp (link_in k bp dp)
unfolding link_in
link_in-Queued k bp dp w h =
    let l = Linked-link_behind k bp dp.b_actf h in
    let n : length (link_behind k bp dp.b_actf) ≡ suc (length dp.b_actf) = omega (
      arith,
      ap length l.placed,
      ap length l.parts,
      length-append l.front (bp ∷ l.back),
      length-append l.front l.back,
    ) in
    record {
      front = l.front;
      back = l.back;
      parts = l.parts;
      behind = omega (arith, l.behind);
      placed = l.placed;
      last = ground (arith, n, w.last, h);
    }

chosen : (r : Option ℕ) (last n : ℕ) → IsBefore r n → last < n → or_last r last < n
unfolding or_last IsBefore
chosen none last n b h = h
chosen (some k) last n b h = b

IsBefore-none : IsBefore (position none) 0
unfolding position IsBefore
IsBefore-none = omega arith

disksort-list :
    (q : List Buf) (last : ℕ) (bp : Buf)
    → IsQueue (record { b_actf = q; b_actl = last })
    → Queued
        (record { b_actf = q; b_actl = last })
        bp
        (disksort (record { b_actf = q; b_actl = last }) bp)
unfolding disksort
disksort-list [] last bp w = absurd (omega (arith, w.last))
disksort-list (e ∷ q) last bp w =
    link_in-Queued (or_last (scan bp 0 none (e ∷ q)) last) bp
      (record { b_actf = e ∷ q; b_actl = last }) w
      (chosen (scan bp 0 none (e ∷ q)) last (length (e ∷ q)) before (omega (arith, w.last)))
  where
    before : IsBefore (scan bp 0 none (e ∷ q)) (length (e ∷ q))
    before =
        IsBefore-later (scan bp 0 none (e ∷ q)) (0 + length (e ∷ q)) (length (e ∷ q)) (omega arith)
          (scan-IsBefore bp 0 none (e ∷ q) IsBefore-none)

-- UNIX_disksort puts a request into a queue that is not empty: the requests that were there keep
-- their order, and it goes behind at least the first of them, which may be in progress. `b_actl`
-- names the last one again.
disksort-Queued : (dp : Queue) (bp : Buf) → IsQueue dp → Queued dp bp (disksort dp bp)
disksort-Queued dp bp w = disksort-list dp.b_actf dp.b_actl bp w
