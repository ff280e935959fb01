-- ===== src/Inodes/Table/Iput.antt =====
-- UNIX_iput drops a reference.
use hostable_32v.Prelude.{
  ℕ, ◌+◌, ◌-◌, ◌%◌, ◌<◌, ◌≡◌, ◌≢◌, refl, sym, ap, ◌∙◌, true, false, not, ◌||◌, arith, ◌==◌,
  if◌then◌else◌, Bool-cases, inl, inr, override, override_self, override_ne,
}
use hostable_32v.Inodes.{Inode, ifmt, ifreg, ifdir}
use hostable_32v.Inodes.Table.{
  Core, Volumes, with_inode, iupdat, truncated, deleted, cleared, last_reference, no_links, iput,
}
use hostable_32v.Inodes.Table.Search.{IsTable, IsTable-set, IsTable-others, IsTable-changed}

-- At most the inode at `i` differs, and that in neither its name nor its count.
pub record Touched (i : ℕ) (f f' : ℕ → Inode) : Type 0 where
  pub others : (j : ℕ) → j ≢ i → f' j ≡ f j
  pub dev : (f' i).i_dev ≡ (f i).i_dev
  pub number : (f' i).i_number ≡ (f i).i_number
  pub count : (f' i).i_count ≡ (f i).i_count

pub Touched-none : (i : ℕ) (f : ℕ → Inode) → Touched i f f
Touched-none i f = record { others = λ j ne. refl; dev = refl; number = refl; count = refl }

Touched-set :
    (i : ℕ) (ip : Inode) (f f' : ℕ → Inode)
    → Touched i f f'
    → ip.i_dev ≡ (f' i).i_dev
    → ip.i_number ≡ (f' i).i_number
    → ip.i_count ≡ (f' i).i_count
    → Touched i f (override f' i ip)
Touched-set i ip f f' t dev number count =
    let e = override_self f' i ip in
    record {
      others = λ j ne. override_ne f' i ip j ne ∙ t.others j ne;
      dev = ap (λ p. p.i_dev) e ∙ dev ∙ t.dev;
      number = ap (λ p. p.i_number) e ∙ number ∙ t.number;
      count = ap (λ p. p.i_count) e ∙ count ∙ t.count;
    }

truncated-same :
    (ip : Inode)
    → ((truncated ip).i_dev ≡ ip.i_dev)
      × ((truncated ip).i_number ≡ ip.i_number)
      × ((truncated ip).i_count ≡ ip.i_count)
unfolding truncated
truncated-same ip = elim (Bool-cases ((ifmt ip == ifreg) || (ifmt ip == ifdir))) [
  | inl y ↦ rw y (refl, refl, refl)
  | inr o ↦ rw o (refl, refl, refl)
]

module _ {S : Type 0} (v : Volumes S) (i : ℕ) where
  iupdat-Touched :
      (ta tm : ℕ) (f : ℕ → Inode) (c : Core S)
      → Touched i f c.inode
      → Touched i f (iupdat v i ta tm c).inode
  unfolding iupdat
  iupdat-Touched ta tm f c t =
      let ip = c.inode i in
      elim (Bool-cases (not (ip.i_upd || ip.i_acc || ip.i_chg) || v.s_ronly ip.i_dev c.disk)) [
        | inl y ↦ rw y t
        | inr o ↦ elim (Bool-cases (not (v.error ip.i_dev ip.i_number c.disk == 0))) [
          | inl bad ↦ rw (o, bad) t
          | inr fine ↦ rw (o, fine) (Touched-set i _ f c.inode t refl refl refl)
        ]
      ]

  pub deleted-Touched :
      (f : ℕ → Inode) (c : Core S) → Touched i f c.inode → Touched i f (deleted v i c).inode
  unfolding deleted
  deleted-Touched f c t =
      let (dev, number, count) = truncated-same (c.inode i) in
      Touched-set i _ f c.inode t dev number count

  -- One reference fewer; a name goes with its last.
  pub record Released (f f' : ℕ → Inode) : Type 0 where
    pub others : (j : ℕ) → j ≢ i → f' j ≡ f j
    pub number : (f' i).i_number ≡ (if (f i).i_count == 1 then 0 else (f i).i_number)
    pub dev : (f' i).i_dev ≡ (f i).i_dev
    pub count : (f' i).i_count ≡ (f i).i_count - 1
    pub unlocked : (f' i).i_lock ≡ false

  Released-set :
      (f g : ℕ → Inode) (ip : Inode)
      → ((j : ℕ) → j ≢ i → g j ≡ f j)
      → ip.i_number ≡ (if (f i).i_count == 1 then 0 else (f i).i_number)
      → ip.i_dev ≡ (f i).i_dev
      → ip.i_count ≡ (f i).i_count - 1
      → ip.i_lock ≡ false
      → Released f (override g i ip)
  Released-set f g ip others number dev count unlocked =
      let e = override_self g i ip in
      record {
        others = λ j ne. override_ne g i ip j ne ∙ others j ne;
        number = ap (λ p. p.i_number) e ∙ number;
        dev = ap (λ p. p.i_dev) e ∙ dev;
        count = ap (λ p. p.i_count) e ∙ count;
        unlocked = ap (λ p. p.i_lock) e ∙ unlocked;
      }

  last_reference-Touched :
      (c : Core S)
      → (g : ℕ → Inode) × ((last_reference v i c).inode ≡ override g i (cleared (g i)))
        × Touched i c.inode g
  unfolding last_reference
  last_reference-Touched c =
      let c₁ = with_inode i (record (c.inode i) { i_lock = true }) c in
      let t₁ : Touched i c.inode c₁.inode =
        Touched-set i _ c.inode c.inode (Touched-none i c.inode) refl refl refl in
      elim (Bool-cases (no_links (c.inode i))) [
        | inl y ↦ (
          (iupdat v i c.time c.time (deleted v i c₁)).inode,
          rw y refl,
          iupdat-Touched c.time c.time c.inode (deleted v i c₁) (deleted-Touched c.inode c₁ t₁),
        )
        | inr o ↦ (
          (iupdat v i c.time c.time c₁).inode,
          rw o refl,
          iupdat-Touched c.time c.time c.inode c₁ t₁,
        )
      ]

  iput-Released :
      (c : Core S)
      → 0 < (c.inode i).i_count
      → (c.inode i).i_count < 255
      → Released c.inode (let (c', _) = iput v i c in c').inode
  unfolding iput
  iput-Released c pos small = elim (Bool-cases ((c.inode i).i_count == 1)) [
    | inl y ↦
        let (g, e, t) = last_reference-Touched c in
        let at : (last_reference v i c).inode i ≡ cleared (g i) =
          ap (λ f. f i) e ∙ override_self g i (cleared (g i)) in
        let one : (c.inode i).i_count ≡ 1 = ground (arith, y) in
        let others : (j : ℕ) → j ≢ i → (last_reference v i c).inode j ≡ c.inode j =
          λ j ne. ap (λ f. f j) e ∙ override_ne g i (cleared (g i)) j ne ∙ t.others j ne in
        let count = ap (λ p. (p.i_count + 255) % 256) at ∙ ap (λ k. (k + 255) % 256) t.count in
        rw y (
          Released-set c.inode (last_reference v i c).inode _ others
            (ap (λ p. p.i_number) at ∙ rw y refl) (ap (λ p. p.i_dev) at ∙ t.dev)
            (count ∙ omega (arith, one)) refl)
    | inr o ↦
        let more : (c.inode i).i_count - 1 ≡ ((c.inode i).i_count + 255) % 256 =
          omega (arith, pos, small) in
        rw o (Released-set c.inode c.inode _ (λ j ne. refl) (rw o refl) refl (sym more) refl)
  ]

  Released-IsTable :
      (n : ℕ) (f f' : ℕ → Inode)
      → IsTable n f
      → i < n
      → 0 < (f i).i_count
      → Released f f'
      → IsTable n f'
  Released-IsTable n f f' t l pos r =
      let small : (f' i).i_count < 255 = omega (arith, r.count, t.small i l) in
      IsTable-others n i f f' r.others (elim (Bool-cases ((f i).i_count == 1)) [
        | inl y ↦
            let none_left : (f' i).i_number ≡ 0 = r.number ∙ rw y refl in
            IsTable-set n i (f' i) f t (inl none_left) (λ _. none_left) small
        | inr o ↦
            IsTable-changed n i (f' i) f t l r.dev (r.number ∙ rw o refl)
              (λ z. absurd (ground (arith, o, z, r.count, pos))) small
      ])

  -- What UNIX_iput leaves of a table.
  pub record Dropped (n : ℕ) (c c' : Core S) : Type 0 where
    pub is_table : IsTable n c'.inode
    pub released : Released c.inode c'.inode

  -- From a well-formed table `UNIX_iput` of an inode in use drops one reference and unlocks it; with the
  -- last one the inode has no number any more; every other inode stays, and the table is well formed.
  pub iput-Dropped :
      (n : ℕ) (c : Core S)
      → IsTable n c.inode
      → i < n
      → 0 < (c.inode i).i_count
      → Dropped n c (let (c', _) = iput v i c in c')
  iput-Dropped n c t l pos =
      let r = iput-Released c pos (t.small i l) in
      record { is_table = Released-IsTable n c.inode _ t l pos r; released = r }

  iupdat-error : (ta tm : ℕ) (c : Core S) → c.u_error ≢ 0 → (iupdat v i ta tm c).u_error ≢ 0
  unfolding iupdat
  iupdat-error ta tm c e =
      let ip = c.inode i in
      elim (Bool-cases (not (ip.i_upd || ip.i_acc || ip.i_chg) || v.s_ronly ip.i_dev c.disk)) [
        | inl y ↦ rw y e
        | inr o ↦ elim (Bool-cases (not (v.error ip.i_dev ip.i_number c.disk == 0))) [
          | inl bad ↦ rw (o, bad) (ground (arith, bad))
          | inr fine ↦ rw (o, fine) e
        ]
      ]

  pub iput-error : (c : Core S) → c.u_error ≢ 0 → (let (c', _) = iput v i c in c').u_error ≢ 0
  unfolding iput last_reference deleted
  iput-error c e = elim (Bool-cases ((c.inode i).i_count == 1)) [
    | inr o ↦ rw o e
    | inl y ↦ elim (Bool-cases (no_links (c.inode i))) [
      | inl gone ↦ rw (y, gone) (iupdat-error c.time c.time _ e)
      | inr kept ↦ rw (y, kept) (iupdat-error c.time c.time _ e)
    ]
  ]
