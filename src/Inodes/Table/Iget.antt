-- ===== src/Inodes/Table/Iget.antt =====
-- UNIX_iget finds the inode of a name, or reads it in.
use hostable_32v.Prelude.{
  ℕ, zero, suc, ◌+◌, ◌%◌, ◌<◌, ◌≤◌, ◌≡◌, ◌≢◌, refl, ap, ◌∙◌, true, false, not, Option, none, some,
  arith, ◌==◌, Bool-cases, ◌⊎◌, inl, inr, override_self, override_ne, Outcome, done,
}
use hostable_32v.Inodes.Table.{
  Core, Volumes, Got, found, waits, refused, Hit, missing, locked, mounted, hit_at, with_inode,
  iput, read_in, renamed, iexpand, is_named, is_at, hit_of, mount_of, look_up, at_hit, iget, nmount,
  rootino, enfile,
}
use hostable_32v.Inodes.Table.Search.{
  IsFirst, at, nowhere, first-IsFirst, IsTable, IsTable-set, IsTable-changed,
}
use hostable_32v.Inodes.Table.Iput.{iput-Dropped, iput-error}

-- Every inode that is mounted on has its entry, and the mounted devices form a tree.
pub record IsMounted {S : Type 0} (n : ℕ) (rank : ℕ → ℕ) (c : Core S) : Type 0 where
  pub entry :
      (i : ℕ)
      → i < n
      → (c.inode i).i_mount ≡ true
      → (m : ℕ) × (m < nmount) × (is_at i (c.mount m).m_inodp ≡ true)
  pub deeper :
      (i m : ℕ)
      → m < nmount
      → is_at i (c.mount m).m_inodp ≡ true
      → rank (c.mount m).m_dev < rank (c.inode i).i_dev

-- From one name to another by inodes that are mounted on.
pub data Leads {S : Type 0} (n : ℕ) (c : Core S) : ℕ → ℕ → ℕ → ℕ → Type 0 where
  there : {dev ino : ℕ} → Leads n c dev ino dev ino
  through :
      {dev ino dev' ino' : ℕ} (i m : ℕ)
      → i < n
      → is_named dev ino (c.inode i) ≡ true
      → (c.inode i).i_mount ≡ true
      → is_at i (c.mount m).m_inodp ≡ true
      → Leads n c (c.mount m).m_dev rootino dev' ino'
      → Leads n c dev ino dev' ino'

-- What holds when UNIX_iget has ended.
pub data Obtained {S : Type 0} (n : ℕ) (c : Core S) (dev ino : ℕ) : Got → Core S → Type 0 where
  holds :
      {c' : Core S} (i dev' ino' : ℕ)
      → Leads n c dev ino dev' ino'
      → i < n
      → is_named dev' ino' (c'.inode i) ≡ true
      → (c'.inode i).i_mount ≡ false
      → (c'.inode i).i_lock ≡ true
      → (c'.inode i).i_count ≡ (c.inode i).i_count + 1
      → ((c.inode i).i_count ≡ 0) ⊎ ((c.inode i).i_lock ≡ false)
      → ((j : ℕ) → j ≢ i → c'.inode j ≡ c.inode j)
      → Obtained n c dev ino (found i) c'
  sleeps :
      {c' : Core S} (i dev' ino' : ℕ)
      → Leads n c dev ino dev' ino'
      → i < n
      → is_named dev' ino' (c'.inode i) ≡ true
      → (c'.inode i).i_lock ≡ true
      → (c'.inode i).i_want ≡ true
      → ((j : ℕ) → j ≢ i → c'.inode j ≡ c.inode j)
      → Obtained n c dev ino (waits i) c'
  fails :
      {c' : Core S} (dev' ino' : ℕ)
      → Leads n c dev ino dev' ino'
      → ((j : ℕ) → j < n → is_named dev' ino' (c.inode j) ≡ false)
      → c'.u_error ≢ 0
      → Obtained n c dev ino refused c'

pub record Ended {S : Type 0} (n : ℕ) (c : Core S) (dev ino : ℕ) (o : Outcome (Got × Core S))
    : Type 0 where
  pub got : Got
  pub after : Core S
  pub equation : o ≡ done (got, after)
  pub is_table : IsTable n after.inode
  pub obtained : Obtained n c dev ino got after

-- What the search has found.
data Looks {S : Type 0} (n : ℕ) (c : Core S) (dev ino : ℕ) : Hit → Type 0 where
  not_there :
      ((j : ℕ) → 0 ≤ j → j < 0 + n → is_named dev ino (c.inode j) ≡ false)
      → Looks n c dev ino missing
  there_locked :
      (i : ℕ)
      → i < n
      → is_named dev ino (c.inode i) ≡ true
      → (c.inode i).i_lock ≡ true
      → Looks n c dev ino (locked i)
  there_mounted :
      (i m : ℕ)
      → i < n
      → is_named dev ino (c.inode i) ≡ true
      → (c.inode i).i_mount ≡ true
      → m < nmount
      → is_at i (c.mount m).m_inodp ≡ true
      → Looks n c dev ino (mounted (c.mount m).m_dev)
  there_free :
      (i : ℕ)
      → i < n
      → is_named dev ino (c.inode i) ≡ true
      → (c.inode i).i_mount ≡ false
      → (c.inode i).i_lock ≡ false
      → Looks n c dev ino (hit_at i)

hit_of-Looks :
    {S : Type 0} (n : ℕ) (rank : ℕ → ℕ) (c : Core S) (dev ino i : ℕ) (o : Option ℕ)
    → IsMounted n rank c
    → i < n
    → is_named dev ino (c.inode i) ≡ true
    → IsFirst (λ m. is_at i (c.mount m).m_inodp) 0 nmount o
    → Looks n c dev ino (hit_of c (some i) o)
hit_of-Looks n rank c dev ino i none ms l name (nowhere f) = elim (Bool-cases (c.inode i).i_lock) [
  | inl lock ↦ rw lock (there_locked i l name lock)
  | inr free ↦ elim (Bool-cases (c.inode i).i_mount) [
    | inl on ↦
        let (m, lm, at_i) = ms.entry i l on in
        let no_entry = f m (omega arith) (omega (arith, lm)) in
        absurd (ground (arith, no_entry, at_i))
    | inr off ↦ rw (free, off) (there_free i l name off free)
  ]
]
hit_of-Looks n rank c dev ino i (some m) ms l name (at _ low high here) =
    elim (Bool-cases (c.inode i).i_lock) [
      | inl lock ↦ rw lock (there_locked i l name lock)
      | inr free ↦ elim (Bool-cases (c.inode i).i_mount) [
        | inl on ↦ rw (free, on) (there_mounted i m l name on (omega (arith, high)) here)
        | inr off ↦ rw (free, off) (there_free i l name off free)
      ]
    ]

looked-Looks :
    {S : Type 0} (n : ℕ) (rank : ℕ → ℕ) (c : Core S) (dev ino : ℕ) (o : Option ℕ)
    → IsMounted n rank c
    → IsFirst (λ i. is_named dev ino (c.inode i)) 0 n o
    → Looks n c dev ino (hit_of c o (mount_of c o))
looked-Looks n rank c dev ino none ms (nowhere f) = not_there f
looked-Looks n rank c dev ino (some i) ms (at _ low high name) =
    hit_of-Looks n rank c dev ino i _ ms (omega (arith, high)) name
      (first-IsFirst (λ m. is_at i (c.mount m).m_inodp) nmount 0)

look_up-Looks :
    {S : Type 0} (n : ℕ) (rank : ℕ → ℕ) (c : Core S) (dev ino : ℕ)
    → IsMounted n rank c
    → Looks n c dev ino (look_up n dev ino c)
unfolding look_up
look_up-Looks n rank c dev ino ms =
    looked-Looks n rank c dev ino _ ms (first-IsFirst (λ i. is_named dev ino (c.inode i)) n 0)

-- Through an inode that is mounted on.
Obtained-through :
    {S : Type 0} (n : ℕ) (c : Core S) (dev ino i m : ℕ) (got : Got) (c' : Core S)
    → i < n
    → is_named dev ino (c.inode i) ≡ true
    → (c.inode i).i_mount ≡ true
    → is_at i (c.mount m).m_inodp ≡ true
    → Obtained n c (c.mount m).m_dev rootino got c'
    → Obtained n c dev ino got c'
Obtained-through n c dev ino i m _ c' l name on at_i
      (holds j dev' ino' leads lj nj off lock count free others) =
    holds j dev' ino' (through i m l name on at_i leads) lj nj off lock count free others
Obtained-through n c dev ino i m _ c' l name on at_i
      (sleeps j dev' ino' leads lj nj lock want others) =
    sleeps j dev' ino' (through i m l name on at_i leads) lj nj lock want others
Obtained-through n c dev ino i m _ c' l name on at_i (fails dev' ino' leads absent e) =
    fails dev' ino' (through i m l name on at_i leads) absent e

module _ {S : Type 0} (v : Volumes S) (n : ℕ) where
  -- The table has the inode, which is not locked and not mounted on.
  Ended-here :
      (c : Core S) (dev ino i : ℕ)
      → IsTable n c.inode
      → i < n
      → 0 < ino
      → is_named dev ino (c.inode i) ≡ true
      → (c.inode i).i_mount ≡ false
      → (c.inode i).i_lock ≡ false
      → (c.inode i).i_count < 254
      → Ended n c dev ino (
          done (
            found i,
            with_inode i
                (record (c.inode i) { i_count = ((c.inode i).i_count + 1) % 256; i_lock = true })
                c,
          ))
  Ended-here c dev ino i t l pos name off free room =
      let ip = record (c.inode i) { i_count = ((c.inode i).i_count + 1) % 256; i_lock = true } in
      let more : ((c.inode i).i_count + 1) % 256 ≡ (c.inode i).i_count + 1 = omega (arith, room) in
      let e = override_self c.inode i ip in
      record {
        got = found i;
        after = with_inode i ip c;
        equation = refl;
        is_table =
            IsTable-changed n i ip c.inode t l refl refl (λ z. absurd (omega (arith, z, more)))
              (omega (arith, more, room));
        obtained =
            holds i dev ino there l (ap (λ p. is_named dev ino p) e ∙ name)
              (ap (λ p. p.i_mount) e ∙ off) (ap (λ p. p.i_lock) e) (ap (λ p. p.i_count) e ∙ more)
              (inr free) (λ j ne. override_ne c.inode i ip j ne);
      }

  Ended-locked :
      (c : Core S) (dev ino i : ℕ)
      → IsTable n c.inode
      → i < n
      → is_named dev ino (c.inode i) ≡ true
      → (c.inode i).i_lock ≡ true
      → Ended n c dev ino (done (waits i, with_inode i (record (c.inode i) { i_want = true }) c))
  Ended-locked c dev ino i t l name lock =
      let ip = record (c.inode i) { i_want = true } in
      let e = override_self c.inode i ip in
      record {
        got = waits i;
        after = with_inode i ip c;
        equation = refl;
        is_table = IsTable-changed n i ip c.inode t l refl refl (λ z. z) (t.small i l);
        obtained =
            sleeps i dev ino there l (ap (λ p. is_named dev ino p) e ∙ name)
              (ap (λ p. p.i_lock) e ∙ lock) (ap (λ p. p.i_want) e)
              (λ j ne. override_ne c.inode i ip j ne);
      }

  Ended-missing :
      (c : Core S) (dev ino : ℕ) (o : Option ℕ)
      → IsTable n c.inode
      → IsFirst (λ i. (c.inode i).i_count == 0) 0 n o
      → ((j : ℕ) → 0 ≤ j → j < 0 + n → is_named dev ino (c.inode j) ≡ false)
      → Ended n c dev ino (done (read_in v dev ino o c))
  unfolding read_in iexpand
  Ended-missing c dev ino none t f absent = record {
    got = refused;
    after = record c { u_error = enfile };
    equation = refl;
    is_table = t;
    obtained =
        fails dev ino there (λ j lj. absent j (omega arith) (omega (arith, lj)))
          (λ e. absurd (omega (arith, e)));
  }
  Ended-missing c dev ino (some i) t (at _ low high idle) absent =
      let count : (c.inode i).i_count ≡ 0 = ground (arith, idle) in
      let l : i < n = omega (arith, high) in
      let ip = renamed dev ino (c.inode i) in
      let one : ((c.inode i).i_count + 1) % 256 ≡ 1 = omega (arith, count) in
      let apart : (j : ℕ) → j < n → j ≢ i → is_named dev ino (c.inode j) ≡ false =
        λ j lj ne. absent j (omega arith) (omega (arith, lj)) in
      let c₁ = record (with_inode i ip c) { u_error = v.error dev ino c.disk } in
      let table₁ : IsTable n c₁.inode =
        IsTable-set n i ip c.inode t (inr apart) (λ z. absurd (omega (arith, z, one)))
          (omega (arith, one)) in
      elim (Bool-cases (not (v.error dev ino c.disk == 0))) [
        | inl bad ↦
            let pos : 0 < (c₁.inode i).i_count =
              omega (arith, ap (λ p. p.i_count) (override_self c.inode i ip), one) in
            rw bad record {
              got = refused;
              after = (let (c', _) = iput v i c₁ in c');
              equation = refl;
              is_table = (iput-Dropped v i n c₁ table₁ l pos).is_table;
              obtained =
                  fails dev ino there (λ j lj. absent j (omega arith) (omega (arith, lj)))
                    (iput-error v i c₁ (ground (arith, bad)));
            }
        | inr fine ↦
            let new = iexpand ip (v.dinode dev ino c.disk) in
            let e = override_self c.inode i new in
            rw fine record {
              got = found i;
              after = with_inode i new c;
              equation = refl;
              is_table =
                  IsTable-set n i new c.inode t (inr apart) (λ z. absurd (omega (arith, z, one)))
                    (omega (arith, one));
              obtained =
                  holds i dev ino there l (ap (λ p. is_named dev ino p) e ∙ ground arith)
                    (ap (λ p. p.i_mount) e) (ap (λ p. p.i_lock) e)
                    (ap (λ p. p.i_count) e ∙ omega (arith, count)) (inl count)
                    (λ j ne. override_ne c.inode i new j ne);
            }
      ]

  module _ (rank : ℕ → ℕ) (c : Core S) (table : IsTable n c.inode) (ms : IsMounted n rank c)
      (room : (i : ℕ) → i < n → (c.inode i).i_count < 254) where
    at_hit-Ended :
        (dev ino fuel : ℕ) (again : ℕ → Outcome (Got × Core S)) (h : Hit)
        → 0 < ino
        → rank dev < suc fuel
        → ((dev' : ℕ) → rank dev' < fuel → Ended n c dev' rootino (again dev'))
        → Looks n c dev ino h
        → Ended n c dev ino (at_hit v n dev ino c again h)
    unfolding at_hit
    at_hit-Ended dev ino fuel again _ pos enough next (not_there absent) =
        Ended-missing c dev ino _ table (first-IsFirst (λ i. (c.inode i).i_count == 0) n 0) absent
    at_hit-Ended dev ino fuel again _ pos enough next (there_locked i l name lock) =
        Ended-locked c dev ino i table l name lock
    at_hit-Ended dev ino fuel again _ pos enough next (there_mounted i m l name on lm at_i) =
        let is_dev : dev ≡ (c.inode i).i_dev = ground (arith, name) in
        let less : rank dev ≡ rank (c.inode i).i_dev = ap rank is_dev in
        let e = next (c.mount m).m_dev (omega (arith, ms.deeper i m lm at_i, less, enough)) in
        record {
          got = e.got;
          after = e.after;
          equation = e.equation;
          is_table = e.is_table;
          obtained = Obtained-through n c dev ino i m e.got e.after l name on at_i e.obtained;
        }
    at_hit-Ended dev ino fuel again _ pos enough next (there_free i l name off free) =
        Ended-here c dev ino i table l pos name off free (room i l)

    -- On a well-formed table, where the mounted devices form a tree whose depth the rounds allow, and no
    -- count is near the end of its eight bits, `UNIX_iget` of a number other than 0 ends. It returns the
    -- inode that the name leads to by the inodes that are mounted on, itself not mounted on, locked and
    -- with one reference more; or it sleeps on an inode that the name leads to, which is locked and now
    -- wanted; or it returns NULL with an error, and then no inode has the name that is led to. No other
    -- inode is changed by the first two, and the table is well formed: no inode is there twice.
    pub iget-Ended :
        (fuel dev ino : ℕ) → 0 < ino → rank dev < fuel → Ended n c dev ino (iget fuel v n dev ino c)
    unfolding iget
    iget-Ended zero dev ino pos enough = absurd (omega (arith, enough))
    iget-Ended (suc fuel) dev ino pos enough =
        at_hit-Ended dev ino fuel _ _ pos enough
          (λ dev' less. iget-Ended fuel dev' rootino (omega arith) less)
          (look_up-Looks n rank c dev ino ms)
