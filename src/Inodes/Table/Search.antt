-- ===== src/Inodes/Table/Search.antt =====
-- The searches of UNIX_iget, and what the table of inodes is at rest.
use hostable_32v.Prelude.{
  ℕ, zero, suc, ◌+◌, ◌<◌, ◌≤◌, ◌≡◌, ◌≢◌, sym, ap, subst, ◌∙◌, Bool, true, false, Option, none, some,
  fun_ext, arith, ◌==◌, Bool-cases, ◌⊎◌, inl, inr, override, override_self, override_ne,
}
use hostable_32v.Inodes.{Inode}
use hostable_32v.Inodes.Table.{first, is_named}

pub data IsFirst (p : ℕ → Bool) (i left : ℕ) : Option ℕ → Type 0 where
  at : (j : ℕ) → i ≤ j → j < i + left → p j ≡ true → IsFirst p i left (some j)
  nowhere : ((j : ℕ) → i ≤ j → j < i + left → p j ≡ false) → IsFirst p i left none

IsFirst-next :
    (p : ℕ → Bool) (i left : ℕ) (o : Option ℕ)
    → p i ≡ false
    → IsFirst p (suc i) left o
    → IsFirst p i (suc left) o
IsFirst-next p i left _ not_here (at j low high y) =
    at j (omega (arith, low)) (omega (arith, high)) y
IsFirst-next p i left _ not_here (nowhere f) = nowhere (λ j low high. elim (Bool-cases (j == i)) [
  | inl y ↦ let e : j ≡ i = ground (arith, y) in ap p e ∙ not_here
  | inr n ↦ f j (ground (arith, n, low)) (omega (arith, high))
])

pub first-IsFirst : (p : ℕ → Bool) (left i : ℕ) → IsFirst p i left (first p left i)
unfolding first
first-IsFirst p zero i = nowhere (λ j low high. absurd (omega (arith, low, high)))
first-IsFirst p (suc left) i = elim (Bool-cases (p i)) [
  | inl y ↦ rw y (at i (omega arith) (omega arith) y)
  | inr o ↦ rw o (IsFirst-next p i left _ o (first-IsFirst p left (suc i)))
]

-- No inode stands in the table twice, and one that is not in use has no number.
pub record IsTable (n : ℕ) (inode : ℕ → Inode) : Type 0 where
  pub once :
      (i j : ℕ)
      → i < n
      → j < n
      → 0 < (inode i).i_number
      → (inode j).i_number ≡ (inode i).i_number
      → (inode j).i_dev ≡ (inode i).i_dev
      → i ≡ j
  pub unused : (i : ℕ) → i < n → (inode i).i_count ≡ 0 → (inode i).i_number ≡ 0
  pub small : (i : ℕ) → i < n → (inode i).i_count < 255

-- Another inode at `i`, which has no number or a name that no other has.
pub IsTable-set :
    (n i : ℕ) (ip : Inode) (inode : ℕ → Inode)
    → IsTable n inode
    → (ip.i_number ≡ 0)
      ⊎ ((j : ℕ) → j < n → j ≢ i → is_named ip.i_dev ip.i_number (inode j) ≡ false)
    → (ip.i_count ≡ 0 → ip.i_number ≡ 0)
    → ip.i_count < 255
    → IsTable n (override inode i ip)
IsTable-set n i ip inode t fresh idle small = record {
  once = λ j k lj lk pos number dev. elim (Bool-cases (j == i)) [
    | inl y ↦
        let e : j ≡ i = ground (arith, y) in
        let ej : override inode i ip j ≡ ip =
          ap (override inode i ip) e ∙ override_self inode i ip in
        elim (Bool-cases (k == i)) [
          | inl y' ↦ ground (arith, y, y')
          | inr o' ↦
              let ne : k ≢ i = λ e'. ground (arith, o', e') in
              let ek = override_ne inode i ip k ne in
              let nj = ap (λ p. p.i_number) ej in
              let dj = ap (λ p. p.i_dev) ej in
              let nk = ap (λ p. p.i_number) ek in
              let dk = ap (λ p. p.i_dev) ek in
              elim fresh [
                | inl z ↦ absurd (omega (arith, pos, nj, z))
                | inr f ↦
                    let no_name = f k lk ne in
                    let same_number : ip.i_number ≡ (inode k).i_number =
                      omega (arith, nj, nk, number) in
                    let same_dev : ip.i_dev ≡ (inode k).i_dev = omega (arith, dj, dk, dev) in
                    absurd (ground (arith, no_name, same_number, same_dev))
              ]
        ]
    | inr o ↦
        let ne : j ≢ i = λ e. ground (arith, o, e) in
        let ej = override_ne inode i ip j ne in
        let nj = ap (λ p. p.i_number) ej in
        let dj = ap (λ p. p.i_dev) ej in
        elim (Bool-cases (k == i)) [
          | inl y' ↦
              let e' : k ≡ i = ground (arith, y') in
              let ek : override inode i ip k ≡ ip =
                ap (override inode i ip) e' ∙ override_self inode i ip in
              let nk = ap (λ p. p.i_number) ek in
              let dk = ap (λ p. p.i_dev) ek in
              elim fresh [
                | inl z ↦ absurd (omega (arith, pos, number, nk, z))
                | inr f ↦
                    let no_name = f j lj ne in
                    let same_number : ip.i_number ≡ (inode j).i_number =
                      omega (arith, nj, nk, number) in
                    let same_dev : ip.i_dev ≡ (inode j).i_dev = omega (arith, dj, dk, dev) in
                    absurd (ground (arith, no_name, same_number, same_dev))
              ]
          | inr o' ↦
              let ek = override_ne inode i ip k (λ e. ground (arith, o', e)) in
              let nk = ap (λ p. p.i_number) ek in
              let dk = ap (λ p. p.i_dev) ek in
              t.once j k lj lk (omega (arith, pos, nj)) (omega (arith, number, nj, nk))
                (omega (arith, dev, dj, dk))
        ]
  ];
  unused = λ j l z. elim (Bool-cases (j == i)) [
    | inl y ↦
        let e : j ≡ i = ground (arith, y) in
        let ej : override inode i ip j ≡ ip =
          ap (override inode i ip) e ∙ override_self inode i ip in
        ap (λ p. p.i_number) ej ∙ idle (sym (ap (λ p. p.i_count) ej) ∙ z)
    | inr o ↦
        let ej = override_ne inode i ip j (λ e. ground (arith, o, e)) in
        ap (λ p. p.i_number) ej ∙ t.unused j l (sym (ap (λ p. p.i_count) ej) ∙ z)
  ];
  small = λ j l. elim (Bool-cases (j == i)) [
    | inl y ↦
        let e : j ≡ i = ground (arith, y) in
        let ej : override inode i ip j ≡ ip =
          ap (override inode i ip) e ∙ override_self inode i ip in
        omega (arith, ap (λ p. p.i_count) ej, small)
    | inr o ↦
        let ej = override_ne inode i ip j (λ e. ground (arith, o, e)) in
        omega (arith, ap (λ p. p.i_count) ej, t.small j l)
  ];
}

-- The inode at `i` is changed, but not its name, and stays in use.
pub IsTable-changed :
    (n i : ℕ) (ip : Inode) (inode : ℕ → Inode)
    → IsTable n inode
    → i < n
    → ip.i_dev ≡ (inode i).i_dev
    → ip.i_number ≡ (inode i).i_number
    → (ip.i_count ≡ 0 → (inode i).i_count ≡ 0)
    → ip.i_count < 255
    → IsTable n (override inode i ip)
IsTable-changed n i ip inode t l dev number idle small =
    IsTable-set n i ip inode t
      (elim (Bool-cases (ip.i_number == 0)) [
        | inl y ↦ inl (ground (arith, y))
        | inr o ↦ inr (λ j lj ne. elim (Bool-cases (is_named ip.i_dev ip.i_number (inode j))) [
          | inr no_name ↦ no_name
          | inl name ↦
              let pos : 0 < (inode i).i_number = ground (arith, o, number) in
              let same_number : (inode j).i_number ≡ (inode i).i_number =
                ground (arith, name, number) in
              let same_dev : (inode j).i_dev ≡ (inode i).i_dev = ground (arith, name, dev) in
              absurd (ne (sym (t.once i j l lj pos same_number same_dev)))
        ])
      ])
      (λ z. number ∙ t.unused i l (idle z)) small

-- A table that differs at `i` only.
pub IsTable-others :
    (n i : ℕ) (f f' : ℕ → Inode)
    → ((j : ℕ) → j ≢ i → f' j ≡ f j)
    → IsTable n (override f i (f' i))
    → IsTable n f'
unfolding override
IsTable-others n i f f' others t =
    subst (IsTable n)
      (fun_ext (λ j. elim (Bool-cases (j == i)) [
        | inl y ↦ let e : j ≡ i = ground (arith, y) in rw y (ap f' (sym e))
        | inr o ↦ rw o (sym (others j (λ e. ground (arith, o, e))))
      ]))
      t
