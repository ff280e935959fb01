-- ===== src/Clist.antt =====
-- The character lists of prim.c, over h/tty.h's `struct clist` and prim.c's `struct cblock`.
-- A cblock is 16 bytes: the pointer `c_next`, then CBSIZE = 12 characters from offset 4 on. A
-- character pointer at a multiple of 16 is one past the end of a block.
pub mod Chain
pub mod Get
pub mod Snoc
pub mod Append
pub mod Put
pub mod Move
pub mod Receive
pub mod Pair
pub mod Init
mod Tests
use hostable_32v.Prelude.{
  ℕ, zero, suc, ◌+◌, ◌-◌, ◌*◌, ◌/◌, ◌%◌, ◌^◌, Bool, true, false, not, ◌&&◌, ◌||◌, Option, none,
  some, List, [], ◌∷◌, ltb, leb, ◌==◌, if◌then◌else◌, length,
}

-- `struct clist`. The count is decremented only when positive, so it is a natural number, and the
-- test `c_cc < 0` of putc and b_to_q does not hold.
pub record Clist : Type 0 where
  pub c_cc : ℕ
  pub c_cf : ℕ
  pub c_cl : ℕ

abbrev pub clist : ℕ → ℕ → ℕ → Clist
clist cc cf cl = record { c_cc = cc; c_cf = cf; c_cl = cl }

-- `c_next` by block address, the characters by address, and `cfreelist`; 0 is NULL.
pub record Pool : Type 0 where
  pub c_next : ℕ → ℕ
  pub c_info : ℕ → ℕ
  pub cfreelist : ℕ

unfoldable pub update : (ℕ → ℕ) → ℕ → ℕ → ℕ → ℕ
update f a v b = if b == a then v else f b

-- `bp->c_next = cfreelist; cfreelist = bp;`
abbrev pub release : Pool → ℕ → Pool
release m bp = record m { c_next = update m.c_next bp m.cfreelist; cfreelist = bp }

-- `cfreelist = bp->c_next; bp->c_next = NULL;` for the first free block `bp`
abbrev pub take_block : Pool → Pool
take_block m = record m { c_next = update m.c_next m.cfreelist 0; cfreelist = m.c_next m.cfreelist }

abbrev pub block_of : ℕ → ℕ
block_of p = p - p % 16

-- What getc and q_to_b do after they have taken the character at `c_cf`.
unfoldable pub advance : Pool → Clist → Pool × Clist
unfolding update
advance m p =
    let cf = p.c_cf + 1 in
    let cc = p.c_cc - 1 in
    if cc == 0
    then (release m (block_of (cf - 1)), clist cc 0 0)
    else if cf % 16 == 0
    then (release m (cf - 16), clist cc (m.c_next (cf - 16) + 4) p.c_cl)
    else (m, clist cc cf p.c_cl)

-- UNIX_getc; `none` is -1.
unfoldable pub getc : Pool → Clist → Option ℕ × Pool × Clist
unfolding advance
getc m p =
    if p.c_cc == 0
    then (none, m, clist 0 0 0)
    else (let (m', p') = advance m p in (some (m.c_info p.c_cf % 256), m', p'))

-- UNIX_putc: whether it returned 0, which is not -1.
unfoldable pub putc : ℕ → Pool → Clist → Bool × Pool × Clist
unfolding update
putc c m p =
    if p.c_cl == 0
    then (if m.cfreelist == 0
        then (false, m, p)
        else (let cp = m.cfreelist + 4 in
            let m' = take_block m in
            (
              true,
              record m' { c_info = update m'.c_info cp (c % 256) },
              clist (p.c_cc + 1) cp (cp + 1),
            )))
    else if p.c_cl % 16 == 0
    then (let m₁ = record m { c_next = update m.c_next (p.c_cl - 16) m.cfreelist } in
        if m.cfreelist == 0
        then (false, m₁, p)
        else (let cp = m.cfreelist + 4 in
            let m' = take_block m₁ in
            (
              true,
              record m' { c_info = update m'.c_info cp (c % 256) },
              clist (p.c_cc + 1) p.c_cf (cp + 1),
            )))
    else (
      true,
      record m { c_info = update m.c_info p.c_cl (c % 256) },
      clist (p.c_cc + 1) p.c_cf (p.c_cl + 1),
    )

-- The loop of UNIX_q_to_b with `cc` characters to move; the result lists what `cp` receives.
pub q_to_b_loop : ℕ → Pool → Clist → List ℕ × Pool × Clist
unfolding advance
q_to_b_loop zero m q = ([], m, q)
q_to_b_loop (suc cc) m q =
    let (m', q') = advance m q in
    let (cs, m'', q'') = q_to_b_loop cc m' q' in
    if q'.c_cc == 0 then (m.c_info q.c_cf ∷ [], m', q') else (m.c_info q.c_cf ∷ cs, m'', q'')

-- UNIX_q_to_b. What it returns is the length of the list.
unfoldable pub q_to_b : ℕ → Pool → Clist → List ℕ × Pool × Clist
unfolding q_to_b_loop
q_to_b cc m q =
    if cc == 0 then ([], m, q) else if q.c_cc == 0 then ([], m, clist 0 0 0) else q_to_b_loop cc m q

-- The while loop of UNIX_b_to_q over the characters not yet moved. The result lists those left.
b_to_q_loop : List ℕ → Pool → ℕ → List ℕ × Pool × ℕ
unfolding update
b_to_q_loop [] m cq = ([], m, cq)
b_to_q_loop (c ∷ cs) m cq =
    let m₁ = record m { c_next = update m.c_next (cq - 16) m.cfreelist } in
    let at = if cq % 16 == 0 then m.cfreelist + 4 else cq in
    let m₂ = if cq % 16 == 0 then take_block m₁ else m in
    let rest = b_to_q_loop cs (record m₂ { c_info = update m₂.c_info at c }) (at + 1) in
    if (cq % 16 == 0) && (m.cfreelist == 0) then (c ∷ cs, m₁, cq) else rest

-- What follows the label `out`: `left` are the characters that were not moved.
b_to_q_out : List ℕ → Clist → List ℕ × Pool × ℕ → List ℕ × Pool × Clist
b_to_q_out cs q (left, m, cq) = (left, m, clist (q.c_cc + (length cs - length left)) q.c_cf cq)

-- UNIX_b_to_q. What it returns is the length of the list.
unfoldable pub b_to_q : List ℕ → Pool → Clist → List ℕ × Pool × Clist
unfolding update b_to_q_loop b_to_q_out
b_to_q [] m q = ([], m, q)
b_to_q (c ∷ cs) m q =
    let cq = m.cfreelist + 4 in
    if q.c_cl == 0
    then (if m.cfreelist == 0
        then (c ∷ cs, m, clist q.c_cc q.c_cf 0)
        else b_to_q_out (c ∷ cs) (record q { c_cf = cq }) (b_to_q_loop (c ∷ cs) (take_block m) cq))
    else b_to_q_out (c ∷ cs) q (b_to_q_loop (c ∷ cs) m q.c_cl)

-- `s | (t << 8)` for characters `s` and `t`.
abbrev pub word : Option ℕ → Option ℕ → Option ℕ
word (some s) (some t) = some (s + 256 * t)
word _ _ = none

-- UNIX_getw: two characters, the low one first; `none` is -1.
unfoldable pub getw : Pool → Clist → Option ℕ × Pool × Clist
getw m p =
    let (s, m₁, p₁) = getc m p in
    let (t, m₂, p₂) = getc m₁ p₁ in if leb p.c_cc 1 then (none, m, p) else (word s t, m₂, p₂)

-- UNIX_putw: what the two calls of putc return is not looked at.
unfoldable pub putw : ℕ → Pool → Clist → Bool × Pool × Clist
putw c m p =
    let (s, m₁, p₁) = putc c m p in
    let (t, m₂, p₂) = putc (c / 256) m₁ p₁ in
    if m.cfreelist == 0 then (false, m, p) else (true, m₂, p₂)

-- The for loop of UNIX_cinit over the blocks from `cp` to `last`, the last whole cblock.
init_loop : ℕ → ℕ → ℕ → Pool → Pool
unfolding update
init_loop zero cp last m = m
init_loop (suc fuel) cp last m =
    let rest = init_loop fuel (cp + 16) last (release m cp) in if leb cp last then rest else m

abbrev pub nclist : ℕ
nclist = 200

-- The number of entries before the first with no `d_open`.
pub count_devices : List Bool → ℕ
count_devices [] = 0
count_devices (open_set ∷ rest) = if open_set then suc (count_devices rest) else 0

-- UNIX_cinit, for the array `cfree` at an address, and the `d_open` column of `cdevsw`: the pool
-- and `nchrdev`. The loop makes at most NCLIST rounds.
unfoldable pub cinit : ℕ → List Bool → Pool → Pool × ℕ
unfolding init_loop count_devices
cinit cfree cdevsw m = (
  init_loop nclist ((cfree + 15) - (cfree + 15) % 16) (cfree + 16 * (nclist - 1)) m,
  count_devices cdevsw,
)
