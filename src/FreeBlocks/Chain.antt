-- ===== src/FreeBlocks/Chain.antt =====
-- The free blocks of a volume in the order in which they will be handed out.
use hostable_32v.Prelude.{
  ℕ, suc, ◌≤◌, ◌<◌, ◌≡◌, ◌≢◌, Bool, true, false, ◌||◌, List, [], ◌∷◌, arith, ◌==◌, get_or, take,
  drop, length,
}
use hostable_32v.FreeBlocks.{Filsys, Volume, getfs, write}

abbrev pub has : ℕ → List ℕ → Bool
has a [] = false
has a (b ∷ bs) = (a == b) || has a bs

-- A block that badblock accepts, and no block 0.
pub record IsData (lo hi b : ℕ) : Type 0 where
  pub not_zero : b ≢ 0
  pub from : lo ≤ b
  pub to : b < hi

-- With `n` addresses in the array `a`, and the words of the blocks, the free blocks are `bs`: the
-- last address first, and behind the address at index 0 those of the block that it names.
pub data Chain (lo hi : ℕ) (block : ℕ → List ℕ) : ℕ → List ℕ → List ℕ → Type 0 where
  used_up : {n : ℕ} {a : List ℕ} → n ≡ 0 → Chain lo hi block n a []
  end : {n : ℕ} {a : List ℕ} → n ≡ 1 → get_or a 0 0 ≡ 0 → Chain lo hi block n a []
  next :
      {n k b : ℕ} {a bs : List ℕ}
      → n ≡ suc (suc k)
      → get_or a (suc k) 0 ≡ b
      → IsData lo hi b
      → has b bs ≡ false
      → Chain lo hi block (suc k) a bs
      → Chain lo hi block n a (b ∷ bs)
  link :
      {n m b : ℕ} {a bs : List ℕ}
      → n ≡ 1
      → get_or a 0 0 ≡ b
      → IsData lo hi b
      → has b bs ≡ false
      → get_or (block b) 0 0 ≡ m
      → 0 < m
      → m ≤ 50
      → length (take 50 (drop 1 (block b))) ≡ 50
      → Chain lo hi block m (take 50 (drop 1 (block b))) bs
      → Chain lo hi block n a (b ∷ bs)

-- The volume's free blocks are `bs`; no process is at work on its lists.
pub record Holds (v : Volume) (bs : List ℕ) : Type 0 where
  pub chain : Chain v.fs.s_isize v.fs.s_fsize v.block v.fs.s_nfree v.fs.s_free bs
  pub size : length v.fs.s_free ≡ 50
  pub count : v.fs.s_nfree ≤ 50
  pub inodes : v.fs.s_ninode ≤ 100
  pub unlocked : v.fs.s_flock ≡ false

pub getfs-same : (fp : Filsys) → fp.s_nfree ≤ 50 → fp.s_ninode ≤ 100 → getfs fp ≡ fp
unfolding getfs
getfs-same fp h k = ground arith

-- The chain is read only at its own blocks.
pub Chain-frame :
    {lo hi : ℕ} {block block' : ℕ → List ℕ} {n : ℕ} {a bs : List ℕ}
    → Chain lo hi block n a bs
    → ((b : ℕ) → has b bs ≡ true → block' b ≡ block b)
    → Chain lo hi block' n a bs
Chain-frame (used_up e) same = used_up e
Chain-frame (end e z) same = end e z
Chain-frame (next e g d h c) same = next e g d h (Chain-frame c (λ b k. same b (ground arith)))
Chain-frame {block} {block'} (link {b} {bs} e g d h w p l len c) same =
    let s : block' b ≡ block b = same b (ground arith) in
    link e g d h (rw s w) p l (rw s len) (rw s (Chain-frame c (λ b k. same b (ground arith))))

-- A block outside the chain can be overwritten.
pub Chain-write :
    {lo hi n : ℕ} {block : ℕ → List ℕ} {a bs : List ℕ} (b : ℕ) (ws : List ℕ)
    → has b bs ≡ false
    → Chain lo hi block n a bs
    → Chain lo hi (write block b ws) n a bs
unfolding write
Chain-write b ws h c = Chain-frame c (λ d k. ground arith)
