-- ===== src/Inodes/Table/Stale.antt =====
-- UNIX_iget where the inode cannot be read, in a place that a deleted file has had.
use hostable_32v.Prelude.{
  ℕ, zero, suc, ◌<◌, ◌≡◌, ◌≢◌, refl, sym, ap, ◌∙◌, Bool, true, false, not, ◌||◌, some, arith, ◌==◌,
  Bool-cases, inl, inr, override_self, Outcome, done,
}
use hostable_32v.Inodes.{Inode}
use hostable_32v.Inodes.Table.Iput.{deleted-Touched, Touched-none}
use hostable_32v.Inodes.Table.{
  Core, Volumes, Got, refused, missing, with_inode, iput, last_reference, deleted, iupdat, read_in,
  renamed, no_links, first, look_up, at_hit, iget,
}

module _ {S : Type 0} (v : Volumes S) (i : ℕ) where
  iupdat-disk :
      (ta tm : ℕ) (c : Core S)
      → v.error (c.inode i).i_dev (c.inode i).i_number c.disk ≢ 0
      → (iupdat v i ta tm c).disk ≡ c.disk
  unfolding iupdat
  iupdat-disk ta tm c bad =
      let ip = c.inode i in
      let fails : (v.error ip.i_dev ip.i_number c.disk == 0) ≡ false = ground (arith, bad) in
      elim (Bool-cases (not (ip.i_upd || ip.i_acc || ip.i_chg) || v.s_ronly ip.i_dev c.disk)) [
        | inl y ↦ rw y refl
        | inr o ↦ rw (o, fails) refl
      ]

  deleted-disk :
      (c : Core S) (ip : Inode)
      → c.inode i ≡ ip
      → (deleted v i c).disk ≡ v.ifree ip.i_dev ip.i_number (v.freed ip c.disk)
  unfolding deleted
  deleted-disk c ip e = ap (λ p. v.ifree p.i_dev p.i_number (v.freed p c.disk)) e

  locked_at : Core S → Core S
  locked_at c = with_inode i (record (c.inode i) { i_lock = true }) c

  -- The last reference to an inode without links, where its device has errors.
  last_reference-freed :
      (c : Core S) (ip : Inode)
      → c.inode i ≡ ip
      → ip.i_lock ≡ true
      → no_links ip ≡ true
      → v.error ip.i_dev ip.i_number (v.ifree ip.i_dev ip.i_number (v.freed ip c.disk)) ≢ 0
      → (last_reference v i c).disk ≡ v.ifree ip.i_dev ip.i_number (v.freed ip c.disk)
  unfolding last_reference locked_at
  last_reference-freed c ip e lock none_linked bad =
      let links : no_links (c.inode i) ≡ true = ap no_links e ∙ none_linked in
      let c₁ = locked_at c in
      let with_lock : Inode → Inode = λ p. record p { i_lock = true } in
      let given : Bool → Inode = λ b. record ip { i_lock = b } in
      let same_lock : with_lock ip ≡ ip = ap given (sym lock) in
      let at : c₁.inode i ≡ ip =
        override_self c.inode i (record (c.inode i) { i_lock = true })
        ∙ ap with_lock e
        ∙ same_lock in
      let disk : (deleted v i c₁).disk ≡ v.ifree ip.i_dev ip.i_number (v.freed ip c.disk) =
        deleted-disk c₁ ip at in
      let t = deleted-Touched v i c₁.inode c₁ (Touched-none i c₁.inode) in
      let dev : ((deleted v i c₁).inode i).i_dev ≡ ip.i_dev = t.dev ∙ ap (λ p. p.i_dev) at in
      let number : ((deleted v i c₁).inode i).i_number ≡ ip.i_number =
        t.number ∙ ap (λ p. p.i_number) at in
      let still : v.error ((deleted v i c₁).inode i).i_dev ((deleted v i c₁).inode i).i_number
            (deleted v i c₁).disk
          ≢ 0 =
        λ z. bad (
          sym (
            ap (λ k. v.error k ((deleted v i c₁).inode i).i_number (deleted v i c₁).disk) dev
            ∙ ap (λ k. v.error ip.i_dev k (deleted v i c₁).disk) number
            ∙ ap (v.error ip.i_dev ip.i_number) disk)
          ∙ z) in
      rw links (iupdat-disk c.time c.time (deleted v i c₁) still ∙ disk)

  iput-last :
      (c : Core S)
      → ((c.inode i).i_count == 1) ≡ true
      → (let (c', _) = iput v i c in c').disk ≡ (last_reference v i c).disk
  unfolding iput
  iput-last c one = rw one refl

-- The call ends with an error, and the number that was to be read is given back as a free one.
pub record Freed {S : Type 0} (v : Volumes S) (c : Core S) (dev ino i : ℕ)
    (o : Outcome (Got × Core S)) : Type 0 where
  pub after : Core S
  pub equation : o ≡ done (refused, after)
  pub disk : after.disk ≡ v.ifree dev ino (v.freed (renamed dev ino (c.inode i)) c.disk)

-- Where UNIX_iget takes a place whose last inode had no links (as of a deleted file, or of none), and
-- the device cannot read the inode, now and again, it frees the number of the inode that it was to read.
pub iget-Freed :
    {S : Type 0} (v : Volumes S) (fuel n dev ino i : ℕ) (c : Core S)
    → 0 < fuel
    → look_up n dev ino c ≡ missing
    → first (λ j. (c.inode j).i_count == 0) n 0 ≡ some i
    → (c.inode i).i_count ≡ 0
    → no_links (c.inode i) ≡ true
    → v.error dev ino c.disk ≢ 0
    → v.error dev ino (v.ifree dev ino (v.freed (renamed dev ino (c.inode i)) c.disk)) ≢ 0
    → Freed v c dev ino i (iget fuel v n dev ino c)
unfolding iget at_hit read_in
iget-Freed v zero n dev ino i c enough miss place idle none_linked bad bad' =
    absurd (omega (arith, enough))
iget-Freed v (suc fuel) n dev ino i c enough miss place idle none_linked bad bad' =
    let fails : (v.error dev ino c.disk == 0) ≡ false = ground (arith, bad) in
    let ip = renamed dev ino (c.inode i) in
    let c₁ = record (with_inode i ip c) { u_error = v.error dev ino c.disk } in
    let at : c₁.inode i ≡ ip = override_self c.inode i ip in
    let one : ((c₁.inode i).i_count == 1) ≡ true =
      ap (λ p. p.i_count == 1) at ∙ ground (arith, idle) in
    let disk_freed : (let (c', _) = iput v i c₁ in c').disk ≡ v.ifree dev ino (v.freed ip c.disk) =
      iput-last v i c₁ one ∙ last_reference-freed v i c₁ ip at refl none_linked bad' in
    rw (miss, place, fails)
      record {
        after =
            (let (c', _) = iput v i (record (with_inode i (renamed dev ino (c.inode i)) c) {
              u_error = v.error dev ino c.disk;
            }) in
              c');
        equation = refl;
        disk = disk_freed;
      }
