-- ===== src/FileIo/Store.antt =====
-- What UNIX_readi and UNIX_writei rely on: the blocks of a file, and the bytes that they show.
use hostable_32v.Prelude.{
  ℕ, ◌+◌, ◌/◌, ◌%◌, ◌^◌, ◌<◌, ◌≤◌, ◌≡◌, true, false, not, ◌&&◌, List, length, replicate, get_or,
  ◌==◌, if◌then◌else◌,
}
use hostable_32v.BlockMap.{Answer, block_at, no_block}
use hostable_32v.FileIo.{Disk, State, Fetched, bsize, is_block_device}

abbrev pub good : List ℕ → Fetched
good bytes = record { bytes = bytes; b_resid = 0; error = 0 }

-- The answer of UNIX_bmap for reading stands for these bytes: -1 for zeros.
pub data Shows {S : Type 0} (d : Disk S) (s : S) (bytes : List ℕ) : Answer → Type 0 where
  hole : bytes ≡ replicate bsize 0 → Shows d s bytes no_block
  block : (bn : ℕ) → d.bread bn s ≡ good bytes → Shows d s bytes (block_at bn)

-- A predicate on the states, and the bytes that each shows of the file by blocks.
module _ {S : Type 0} (d : Disk S) (Inv : S → Type 0) (look : S → ℕ → List ℕ) where
  -- UNIX_bmap for reading succeeds and changes no bytes.
  pub record Reads (s : S) (lbn : ℕ) : Type 0 where
    pub after : S
    pub answer : Answer
    pub mapped : d.bmap true lbn s ≡ (answer, 0, after)
    pub inv : Inv after
    pub same : (l : ℕ) → look after l ≡ look s l
    pub shown : Shows d after (look s lbn) answer

  -- UNIX_bmap for writing succeeds and changes no bytes, and the block then takes others.
  pub record Writes (s : S) (lbn : ℕ) : Type 0 where
    pub after : S
    pub bn : ℕ
    pub mapped : d.bmap false lbn s ≡ (block_at bn, 0, after)
    pub fetched : d.bread bn after ≡ good (look s lbn)
    pub taken : length (d.getblk bn after) ≡ bsize
    pub stored : (bytes : List ℕ) → length bytes ≡ bsize → Inv (d.bdwrite bn bytes after)
    pub looks :
        (bytes : List ℕ) (l : ℕ)
        → look (d.bdwrite bn bytes after) l ≡ (if l == lbn then bytes else look s l)

  -- The files of up to `limit` blocks can be read.
  pub record IsReadable (limit : ℕ) : Type 0 where
    pub sized : (s : S) (lbn : ℕ) → Inv s → length (look s lbn) ≡ bsize
    pub reads : (s : S) (lbn : ℕ) → Inv s → lbn < limit → Reads s lbn

  -- And written.
  pub record IsStore (limit : ℕ) : Type 0 where
    pub readable : IsReadable limit
    pub writes : (s : S) (lbn : ℕ) → Inv s → lbn < limit → Writes s lbn

-- The byte of the file at a position.
abbrev pub byte : {S : Type 0} → (S → ℕ → List ℕ) → S → ℕ → ℕ
byte look s p = get_or (look s (p / 512)) (p % 512) 0

-- A file with blocks of its own, no error yet, and memory that may be used.
pub record IsReady {S : Type 0} (d : Disk S) (t : State S) : Type 0 where
  pub no_device : is_block_device t.ip ≡ false
  pub no_error : t.u.u_error ≡ 0
  pub small_offset : t.u.u_offset + t.u.u_count < 2 ^ 31
  pub allowed :
      (b n : ℕ)
      → t.u.u_base ≤ b
      → b + n ≤ t.u.u_base + t.u.u_count
      → (not (t.u.u_segflg == 1) && d.faults b n) ≡ false
