-- ===== src/ResourceMap.antt =====
-- The resource map of malloc.c: `struct map` of h/map.h, UNIX_malloc and UNIX_mfree.
pub mod Invariant
pub mod Malloc
pub mod Insert
pub mod Mfree
pub mod Roundtrip
mod Tests
use hostable_32v.Prelude.{
  ℕ, ◌+◌, ◌-◌, ◌*◌, ◌%◌, ◌^◌, Bool, true, false, not, ◌&&◌, ◌||◌, Option, none, some, List, [], ◌∷◌,
  ltb, leb, ◌==◌, if◌then◌else◌, ◌>>=◌,
}

-- One `struct map`. Both fields hold 16-bit patterns; `m_size` is a signed short.
pub record Entry : Type 0 where
  pub m_size : ℕ
  pub m_addr : ℕ

abbrev pub entry : ℕ → ℕ → Entry
entry s a = record { m_size = s; m_addr = a }

-- The array from `mp` to the end of its storage. A step past the end is the fault `none`.
abbrev pub Map : Type 0
Map = List Entry

-- The int that a short stands for, as an unsigned 32-bit pattern.
abbrev pub sign_extend : ℕ → ℕ
sign_extend s = if ltb s (2 ^ 15) then s else s + (2 ^ 32 - 2 ^ 16)

-- `m_size >= size` for a size that is no negative int.
abbrev pub fits : ℕ → ℕ → Bool
fits s size = ltb s (2 ^ 15) && leb size s

-- The do loop of UNIX_malloc, which moves the entries behind a used-up one down by one. The
-- argument is the array behind the slot, the result the array from the slot on.
pub close_gap : Map → Option Map
close_gap [] = none
close_gap (n ∷ rest) =
    let moved = close_gap rest in
    if n.m_size == 0 then some (n ∷ n ∷ rest) else (do m ← moved; some (n ∷ m))

-- The body of UNIX_malloc's test: cut `size` units off the front of the entry.
pub cut : Entry → Map → ℕ → Option (ℕ × Map)
unfolding close_gap
cut e rest size =
    let left = (e.m_size + 2 ^ 16 - size % 2 ^ 16) % 2 ^ 16 in
    if left == 0
    then (do m ← close_gap rest; some (e.m_addr, m))
    else some (e.m_addr, entry left ((e.m_addr + size) % 2 ^ 16) ∷ rest)

-- UNIX_malloc: the address (0 for none) and the map.
unfoldable pub malloc : Map → ℕ → Option (ℕ × Map)
unfolding cut
malloc [] size = none
malloc (e ∷ rest) size =
    let later = malloc rest size in
    if e.m_size == 0
    then some (0, e ∷ rest)
    else if fits e.m_size size
    then cut e rest size
    else (do (a, m) ← later; some (a, e ∷ m))

-- The do loop at the end of UNIX_mfree: the new entry goes into the slot, and each entry from
-- there on goes one slot up, until a slot of size 0 has been overwritten.
pub shift_in : Map → ℕ → ℕ → Option Map
shift_in [] size a = none
shift_in (b ∷ rest) size a =
    let later = shift_in rest (sign_extend b.m_size) b.m_addr in
    let new = entry (size % 2 ^ 16) (a % 2 ^ 16) in
    if b.m_size == 0 then some (new ∷ rest) else (do m ← later; some (new ∷ m))

-- The else branch of UNIX_mfree, at `bp`.
pub insert_at : Entry → Map → ℕ → ℕ → Option Map
unfolding shift_in
insert_at b rest size a =
    if ((a + size) % 2 ^ 32 == b.m_addr) && not (b.m_size == 0)
    then some
        (entry ((b.m_size + size) % 2 ^ 16) ((b.m_addr + 2 ^ 16 - size % 2 ^ 16) % 2 ^ 16) ∷ rest)
    else if size == 0
    then some (b ∷ rest)
    else shift_in (b ∷ rest) size a

-- The branch that extends `bp-1`, and swallows `bp` where the freed units reach it.
pub extend : Entry → Entry → Map → ℕ → ℕ → Option Map
unfolding close_gap
extend p b rest size a =
    let grown = (p.m_size + size) % 2 ^ 16 in
    if (a + size) % 2 ^ 32 == b.m_addr
    then (if b.m_size == 0
        then some (entry grown p.m_addr ∷ b ∷ rest)
        else (do m ← close_gap rest; some (entry ((grown + b.m_size) % 2 ^ 16) p.m_addr ∷ m)))
    else some (entry grown p.m_addr ∷ b ∷ rest)

-- The test of the for loop of UNIX_mfree.
abbrev pub goes_on : Entry → ℕ → Bool
goes_on b a = leb b.m_addr a && not (b.m_size == 0)

-- The for loop with `bp > mp`, `p` being the entry `bp-1`, and what follows the loop.
pub mfree_behind : Entry → Map → ℕ → ℕ → Option Map
unfolding extend insert_at
mfree_behind p [] size a = none
mfree_behind p (b ∷ rest) size a =
    let later = mfree_behind b rest size a in
    if goes_on b a
    then (do m ← later; some (p ∷ m))
    else if (p.m_addr + sign_extend p.m_size) % 2 ^ 32 == a
    then extend p b rest size a
    else (do m ← insert_at b rest size a; some (p ∷ m))

-- UNIX_mfree.
unfoldable pub mfree : Map → ℕ → ℕ → Option Map
unfolding mfree_behind insert_at
mfree [] size a = none
mfree (b ∷ rest) size a =
    if goes_on b a then mfree_behind b rest size a else insert_at b rest size a
