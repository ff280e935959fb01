-- ===== src/DiskQueue.antt =====
-- The queue of a disk in dsort.c, UNIX_disksort, over `struct buf` of h/buf.h.
pub mod Place
pub mod Sweep
mod Tests
use hostable_32v.Prelude.{
  ℕ, zero, suc, ◌+◌, Bool, true, false, not, ◌&&◌, Option, none, some, List, [], ◌∷◌, leb, ◌==◌,
  if◌then◌else◌,
}

-- What the sort looks at in a `struct buf`: whether B_READ is set, and `b_cylin`. The block number
-- tells the requests apart.
pub record Buf : Type 0 where
  pub b_read : Bool
  pub b_cylin : ℕ
  pub b_blkno : ℕ

-- The queue from `b_actf` on along `av_forw`, and the position in it of the one at `b_actl`.
pub record Queue : Type 0 where
  pub b_actf : List Buf
  pub b_actl : ℕ

-- A pointer into the queue: the position, and the cylinder there.
abbrev pub Tp : Type 0
Tp = Option (ℕ × ℕ)

-- `tp == NULL || ap->b_cylin >= tp->b_cylin`
pub not_below : Tp → ℕ → Bool
not_below none c = true
not_below (some (k, c')) c = leb c' c

-- What the loop does at the entry `ap` of the same kind: `tp = ap`, or nothing.
pub step : Buf → ℕ → Tp → Buf → Tp
step bp i tp ap =
    if leb ap.b_cylin bp.b_cylin && not_below tp ap.b_cylin then some (i, ap.b_cylin) else tp

-- The break at the first write behind the reads: `if (tp == NULL) tp = ap;`
pub at_write : Tp → ℕ → Option ℕ
at_write none i = some i
at_write (some (k, c)) i = some k

pub position : Tp → Option ℕ
position none = none
position (some (k, c)) = some k

-- The for loop from the position `i` on: the position of `tp` that it is left with.
pub scan : Buf → ℕ → Tp → List Buf → Option ℕ
scan bp i tp [] = position tp
scan bp i tp (ap ∷ q) =
    let rest = scan bp (i + 1) (if not bp.b_read && ap.b_read then tp else step bp i tp ap) q in
    if bp.b_read && not ap.b_read then at_write tp i else rest

-- `bp->av_forw = tp->av_forw; tp->av_forw = bp;` for the entry at position `k`.
pub link_behind : ℕ → Buf → List Buf → List Buf
link_behind k bp [] = []
link_behind zero bp (ap ∷ q) = ap ∷ bp ∷ q
link_behind (suc k) bp (ap ∷ q) = ap ∷ link_behind k bp q

-- What follows the loop. The entry at `b_actl` is one position further, or `bp` takes its place.
pub link_in : ℕ → Buf → Queue → Queue
link_in k bp dp = record {
  b_actf = link_behind k bp dp.b_actf;
  b_actl = if k == dp.b_actl then k + 1 else dp.b_actl + (if leb dp.b_actl k then 0 else 1);
}

pub or_last : Option ℕ → ℕ → ℕ
or_last none last = last
or_last (some k) last = k

-- UNIX_disksort.
unfoldable pub disksort : Queue → Buf → Queue
disksort dp bp = elim dp.b_actf [
  | [] ↦ record { b_actf = bp ∷ []; b_actl = 0 }
  | ap ∷ q ↦ link_in (or_last (scan bp 0 none (ap ∷ q)) dp.b_actl) bp dp
]
