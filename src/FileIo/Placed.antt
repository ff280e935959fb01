-- ===== src/FileIo/Placed.antt =====
-- The blocks of a file that UNIX_bmap has placed: they can be read and written as UNIX_readi and
-- UNIX_writei want.
use hostable_32v.Prelude.{
  ℕ, ◌+◌, ◌*◌, ◌<◌, ◌≤◌, ◌≡◌, ◌≢◌, refl, sym, ap, ◌∙◌, Bool, true, false, ◌||◌, List, [], ◌∷◌,
  length, replicate, length-replicate, get_or, arith, ltb, ◌==◌, if◌then◌else◌, Bool-cases, inl,
  inr, override, override_self, override_ne,
}
use hostable_32v.FreeBlocks.{Ran, sleeps, done}
use hostable_32v.BlockMap.{File, Answer, block_at, no_block, failed, bmap}
use hostable_32v.BlockMap.Position.{slot, indices, follow}
use hostable_32v.BlockMap.Read.{bmap-follow, with_error}
use hostable_32v.BlockMap.Placed.{bmap-placed, is_block}
use hostable_32v.Inodes.{Inode}
use hostable_32v.FileIo.{Disk, Args}
use hostable_32v.FileIo.Store.{good, block, Reads, Writes, IsStore}
use hostable_32v.FileIo.Tree.{no_errors, place_of, place_of-IsPosition}

-- A file with its volume, and the bytes of the blocks: `file.volume.block` has their words.
pub record Blocks : Type 0 where
  pub file : File
  pub contents : ℕ → List ℕ

-- The words of four bytes each.
unfoldable pub words_of : List ℕ → List ℕ
words_of [] = []
words_of (a ∷ []) = []
words_of (a ∷ b ∷ []) = []
words_of (a ∷ b ∷ c ∷ []) = []
words_of (a ∷ b ∷ c ∷ e ∷ bytes) = (a + 256 * b + 65536 * c + 16777216 * e) ∷ words_of bytes

-- The block gets these bytes, and so its words.
abbrev pub put : ℕ → List ℕ → Blocks → Blocks
put bn bytes s =
    let f = s.file in
    let v = f.volume in
    record {
      file = record f { volume = record v { block = override v.block bn (words_of bytes) } };
      contents = override s.contents bn bytes;
    }

-- The answer of UNIX_bmap, its error, and what it leaves.
abbrev pub answers : Blocks → Ran (Answer × File) → Answer × ℕ × Blocks
answers s sleeps = (failed, 0, s)
answers s (done (a, f)) = (a, f.volume.u_error, record s { file = f })

-- The disk whose files UNIX_bmap maps, without read errors.
abbrev pub placed_disk :
    (ℕ → ℕ → Bool) → (Bool → Inode → Args → Blocks → Args × Blocks) → ℕ → Disk Blocks
placed_disk faults device mem_no = record {
  bmap = λ reading lbn s. answers s (bmap no_errors reading lbn s.file);
  bread = λ bn s. good (s.contents bn);
  getblk = λ bn s. s.contents bn;
  bdwrite = put;
  brelse = put;
  faults = faults;
  device = device;
  mem_no = mem_no;
}

-- Where the addresses of the file lead for the block of this number.
unfoldable pub led : File → ℕ → Answer
led f lbn =
    follow no_errors f.volume.block (get_or f.i_addr (slot (place_of lbn)) 0)
      (indices (place_of lbn))

-- Whether a block is one of the blocks of addresses on the way.
unfoldable pub on_way : (ℕ → List ℕ) → ℕ → ℕ → List ℕ → Bool
on_way blocks a nb [] = false
on_way blocks a nb (i ∷ is) =
    let rest = on_way blocks a (get_or (blocks nb) i 0) is in (nb == a) || rest

unfoldable pub passes : File → ℕ → ℕ → Bool
passes f a lbn =
    on_way f.volume.block a (get_or f.i_addr (slot (place_of lbn)) 0) (indices (place_of lbn))

-- The file has all its blocks up to `limit`: different ones, none of them one of addresses.
pub record IsPlaced (limit : ℕ) (s : Blocks) : Type 0 where
  pub place : ℕ → ℕ
  pub leads_to : (l : ℕ) → l < limit → led s.file l ≡ block_at (place l)
  pub apart : (l m : ℕ) → l < limit → m < limit → passes s.file (place l) m ≡ false
  pub once : (l m : ℕ) → l < limit → m < limit → place l ≡ place m → l ≡ m
  pub sized : (b : ℕ) → length (s.contents b) ≡ 512
  pub no_error : s.file.volume.u_error ≡ 0

abbrev pub bytes_at : (ℕ → List ℕ) → Answer → List ℕ
bytes_at contents (block_at b) = contents b
bytes_at contents no_block = replicate 512 0
bytes_at contents failed = replicate 512 0

-- The bytes of the file by blocks.
unfoldable pub placed_bytes : ℕ → Blocks → ℕ → List ℕ
placed_bytes limit s l = if ltb l limit then bytes_at s.contents (led s.file l) else replicate 512 0

-- A block that is not on the way may be written.
on_way-override :
    (blocks : ℕ → List ℕ) (a b : ℕ) (ws : List ℕ) (nb : ℕ) (is : List ℕ)
    → on_way blocks a nb is ≡ false
    → on_way (override blocks a ws) b nb is ≡ on_way blocks b nb is
unfolding on_way
on_way-override blocks a b ws nb [] off = refl
on_way-override blocks a b ws nb (i ∷ is) off =
    let apart : nb ≢ a = λ e. absurd (ground (arith, e, off)) in
    let rest : on_way blocks a (get_or (blocks nb) i 0) is ≡ false = ground (arith, off) in
    rw
      (
        override_ne blocks a ws nb apart,
        on_way-override blocks a b ws (get_or (blocks nb) i 0) is rest,
      )
      refl

follow-override :
    (blocks : ℕ → List ℕ) (a : ℕ) (ws : List ℕ) (nb : ℕ) (is : List ℕ)
    → on_way blocks a nb is ≡ false
    → follow no_errors (override blocks a ws) nb is ≡ follow no_errors blocks nb is
unfolding on_way follow
follow-override blocks a ws nb [] off = refl
follow-override blocks a ws nb (i ∷ is) off =
    let apart : nb ≢ a = λ e. absurd (ground (arith, e, off)) in
    let rest : on_way blocks a (get_or (blocks nb) i 0) is ≡ false = ground (arith, off) in
    rw
      (
        override_ne blocks a ws nb apart,
        follow-override blocks a ws (get_or (blocks nb) i 0) is rest,
      )
      refl

led-put :
    (s : Blocks) (bn l : ℕ) (bytes : List ℕ)
    → passes s.file bn l ≡ false
    → led (put bn bytes s).file l ≡ led s.file l
unfolding led passes
led-put s bn l bytes off = follow-override s.file.volume.block bn (words_of bytes) _ _ off

passes-put :
    (s : Blocks) (bn a l : ℕ) (bytes : List ℕ)
    → passes s.file bn l ≡ false
    → passes (put bn bytes s).file a l ≡ passes s.file a l
unfolding passes
passes-put s bn a l bytes off = on_way-override s.file.volume.block bn a (words_of bytes) _ _ off

length-override :
    (s : ℕ → List ℕ) (i : ℕ) (bytes : List ℕ) (j : ℕ)
    → ((b : ℕ) → length (s b) ≡ 512)
    → length bytes ≡ 512
    → length (override s i bytes j) ≡ 512
unfolding override
length-override s i bytes j whole l = elim (Bool-cases (j == i)) [
  | inl y ↦ rw y l
  | inr o ↦ rw o (whole j)
]

IsPlaced-put :
    (limit lbn : ℕ) (s : Blocks) (bytes : List ℕ) (p : IsPlaced limit s)
    → lbn < limit
    → length bytes ≡ 512
    → IsPlaced limit (put (p.place lbn) bytes s)
IsPlaced-put limit lbn s bytes p small sized = record {
  place = p.place;
  leads_to = λ l h. led-put s (p.place lbn) l bytes (p.apart lbn l small h) ∙ p.leads_to l h;
  apart = λ l m h k.
      passes-put s (p.place lbn) (p.place l) m bytes (p.apart lbn m small k) ∙ p.apart l m h k;
  once = p.once;
  sized = λ b. length-override s.contents (p.place lbn) bytes b p.sized sized;
  no_error = p.no_error;
}

placed-is_block : (a : Answer) (b : ℕ) → a ≡ block_at b → is_block a ≡ true
unfolding is_block
placed-is_block a b e = rw e refl

-- UNIX_bmap, for reading and for writing, answers with the block.
record IsFound (limit : ℕ) (s : Blocks) (p : IsPlaced limit s) (lbn : ℕ) : Type 0 where
  ahead : ℕ
  for_reading :
      answers s (bmap no_errors true lbn s.file)
      ≡ (block_at (p.place lbn), 0, record s { file = record (s.file) { rablock = ahead } })
  for_writing :
      answers s (bmap no_errors false lbn s.file)
      ≡ (block_at (p.place lbn), 0, record s { file = record (s.file) { rablock = ahead } })

placed-IsFound :
    (limit : ℕ) (s : Blocks) (p : IsPlaced limit s) (lbn : ℕ)
    → limit ≤ 10 + 128 + 16384 + 2097152
    → lbn < limit
    → IsFound limit s p lbn
unfolding led
placed-IsFound limit s p lbn within small =
    let (is_position, at) = place_of-IsPosition lbn (omega (arith, within, small)) in
    let f = s.file in
    let pos = place_of lbn in
    let e = p.leads_to lbn small in
    let (ra, read) = bmap-follow no_errors pos f is_position in
    let same = bmap-placed no_errors pos f is_position (
      placed-is_block (follow no_errors f.volume.block (get_or f.i_addr (slot pos) 0) (indices pos))
        (p.place lbn) e) in
    let reading =
      ap (λ n. answers s (bmap no_errors true n f)) (sym at)
      ∙ ap (answers s) (read ∙ ap (λ a. done (a, with_error a (record f { rablock = ra }))) e)
      ∙ ap (λ k. (block_at (p.place lbn), k, record s { file = record f { rablock = ra } }))
          p.no_error in
    record {
      ahead = ra;
      for_reading = reading;
      for_writing =
          ap (λ n. answers s (bmap no_errors false n f)) (sym at)
          ∙ ap (answers s) same
          ∙ ap (λ n. answers s (bmap no_errors true n f)) at
          ∙ reading;
    }

-- The read-ahead is no part of it.
IsPlaced-ahead :
    (limit ra : ℕ) (s : Blocks)
    → IsPlaced limit s
    → IsPlaced limit (record s { file = record (s.file) { rablock = ra } })
unfolding led passes
IsPlaced-ahead limit ra s p = record {
  place = p.place;
  leads_to = p.leads_to;
  apart = p.apart;
  once = p.once;
  sized = p.sized;
  no_error = p.no_error;
}

ahead-bytes :
    (limit ra : ℕ) (s : Blocks) (l : ℕ)
    → placed_bytes limit (record s { file = record (s.file) { rablock = ra } }) l
      ≡ placed_bytes limit s l
unfolding placed_bytes led
ahead-bytes limit ra s l = refl

here-bytes :
    (limit : ℕ) (s : Blocks) (l b : ℕ)
    → l < limit
    → led s.file l ≡ block_at b
    → placed_bytes limit s l ≡ s.contents b
unfolding placed_bytes
here-bytes limit s l b h e =
    let within : ltb l limit ≡ true = ground (arith, h) in rw (within, e) refl

past-bytes :
    (limit : ℕ) (s : Blocks) (l : ℕ)
    → ltb l limit ≡ false
    → placed_bytes limit s l ≡ replicate 512 0
unfolding placed_bytes
past-bytes limit s l o = rw o refl

length-placed_bytes :
    (limit : ℕ) (s : Blocks) (p : IsPlaced limit s) (l : ℕ) → length (placed_bytes limit s l) ≡ 512
length-placed_bytes limit s p l = elim (Bool-cases (ltb l limit)) [
  | inl y ↦
      ap length
        (here-bytes limit s l (p.place l) (ground (arith, y)) (p.leads_to l (ground (arith, y))))
      ∙ p.sized (p.place l)
  | inr o ↦ ap length (past-bytes limit s l o) ∙ length-replicate {A = ℕ} 512 0
]

put-bytes :
    (limit : ℕ) (s : Blocks) (p : IsPlaced limit s) (lbn : ℕ) (bytes : List ℕ) (l : ℕ)
    → lbn < limit
    → placed_bytes limit (put (p.place lbn) bytes s) l
      ≡ (if l == lbn then bytes else placed_bytes limit s l)
put-bytes limit s p lbn bytes l small = elim (Bool-cases (ltb l limit)) [
  | inl y ↦
      let h : l < limit = ground (arith, y) in
      here-bytes limit (put (p.place lbn) bytes s) l (p.place l) h
        (led-put s (p.place lbn) l bytes (p.apart lbn l small h) ∙ p.leads_to l h)
      ∙ elim (Bool-cases (l == lbn)) [
        | inl at ↦
            let same : l ≡ lbn = ground (arith, at) in
            rw at (
              ap (λ k. override s.contents (p.place lbn) bytes (p.place k)) same
              ∙ override_self s.contents (p.place lbn) bytes)
        | inr off ↦
            let apart : p.place l ≢ p.place lbn =
              λ e. absurd (ground (arith, off, p.once l lbn h small e)) in
            rw off (
              override_ne s.contents (p.place lbn) bytes (p.place l) apart
              ∙ sym (here-bytes limit s l (p.place l) h (p.leads_to l h)))
      ]
  | inr o ↦
      let off : (l == lbn) ≡ false = ground (arith, o, small) in
      rw off (past-bytes limit (put (p.place lbn) bytes s) l o ∙ sym (past-bytes limit s l o))
]

module _ (faults : ℕ → ℕ → Bool) (device : Bool → Inode → Args → Blocks → Args × Blocks)
    (mem_no : ℕ) (limit : ℕ) (within : limit ≤ 10 + 128 + 16384 + 2097152) where
  placed_disk-Reads :
      (s : Blocks) (lbn : ℕ)
      → IsPlaced limit s
      → lbn < limit
      → Reads (placed_disk faults device mem_no) (IsPlaced limit) (placed_bytes limit) s lbn
  placed_disk-Reads s lbn p small =
      let f = placed-IsFound limit s p lbn within small in
      let at = here-bytes limit s lbn (p.place lbn) small (p.leads_to lbn small) in
      record {
        after = record s { file = record (s.file) { rablock = f.ahead } };
        answer = block_at (p.place lbn);
        mapped = f.for_reading;
        inv = IsPlaced-ahead limit f.ahead s p;
        same = λ l. ahead-bytes limit f.ahead s l;
        shown = block (p.place lbn) (ap good (sym at));
      }

  placed_disk-Writes :
      (s : Blocks) (lbn : ℕ)
      → IsPlaced limit s
      → lbn < limit
      → Writes (placed_disk faults device mem_no) (IsPlaced limit) (placed_bytes limit) s lbn
  placed_disk-Writes s lbn p small =
      let f = placed-IsFound limit s p lbn within small in
      let at = here-bytes limit s lbn (p.place lbn) small (p.leads_to lbn small) in
      record {
        after = record s { file = record (s.file) { rablock = f.ahead } };
        bn = p.place lbn;
        mapped = f.for_writing;
        fetched = ap good (sym at);
        taken = p.sized (p.place lbn);
        stored = λ bytes sized.
            IsPlaced-ahead limit f.ahead (put (p.place lbn) bytes s)
              (IsPlaced-put limit lbn s bytes p small sized);
        looks = λ bytes l.
            ahead-bytes limit f.ahead (put (p.place lbn) bytes s) l
            ∙ put-bytes limit s p lbn bytes l small;
      }

  -- On a disk whose files `UNIX_bmap` maps, where no block has read errors: a file whose blocks up to a
  -- limit (of no more than its addresses can name) are all there, are different and hold none of its addresses can be read and written. What
  -- is written to a block is then read there, and the other blocks of the file keep their bytes.
  pub placed_disk-IsStore :
      IsStore (placed_disk faults device mem_no) (IsPlaced limit) (placed_bytes limit) limit
  placed_disk-IsStore = record {
    readable = record {
      sized = λ s lbn p. length-placed_bytes limit s p lbn;
      reads = λ s lbn p small. placed_disk-Reads s lbn p small;
    };
    writes = λ s lbn p small. placed_disk-Writes s lbn p small;
  }
