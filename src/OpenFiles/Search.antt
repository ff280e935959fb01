-- ===== src/OpenFiles/Search.antt =====
-- The two searches of fio.c: what they find is the first fit, and they fail only without one.
use hostable_32v.Prelude.{
  ℕ, zero, suc, ◌+◌, ◌<◌, ◌≡◌, refl, Bool, true, false, Option, none, some, List, [], ◌∷◌, arith,
  ◌==◌, get_or, length, Bool-cases, inl, inr, ap, ◌∙◌,
}
use hostable_32v.OpenFiles.{OpenFile, first_null, first_unused}

-- `k` is the first index at which `p` holds.
pub record IsFirst {ℓ} {A : Type ℓ} (p : A → Bool) (d : A) (xs : List A) (k : ℕ) : Type 0 where
  pub inside : k < length xs
  pub fit : p (get_or xs k d) ≡ true
  pub none_before : (j : ℕ) → j < k → p (get_or xs j d) ≡ false

pub record NoneFits {ℓ} {A : Type ℓ} (p : A → Bool) (d : A) (xs : List A) : Type 0 where
  pub unfit : (j : ℕ) → j < length xs → p (get_or xs j d) ≡ false

IsFirst-here {ℓ} :
    {A : Type ℓ} {p : A → Bool} {d x : A} {xs : List A} → p x ≡ true → IsFirst p d (x ∷ xs) 0
IsFirst-here t = record { inside = omega arith; fit = t; none_before = λ j h. absurd (omega arith) }

IsFirst-later {ℓ} :
    {A : Type ℓ} {p : A → Bool} {d x : A} {xs : List A} {k : ℕ}
    → p x ≡ false
    → IsFirst p d xs k
    → IsFirst p d (x ∷ xs) (suc k)
IsFirst-later {p} {d} {x} {xs} {k} t f = record {
  inside = omega (arith, f.inside);
  fit = f.fit;
  none_before = before;
}
  where
    before : (j : ℕ) → j < suc k → p (get_or (x ∷ xs) j d) ≡ false
    before zero h = t
    before (suc j) h = f.none_before j (omega arith)

NoneFits-later {ℓ} :
    {A : Type ℓ} {p : A → Bool} {d x : A} {xs : List A}
    → p x ≡ false
    → NoneFits p d xs
    → NoneFits p d (x ∷ xs)
NoneFits-later {p} {d} {x} {xs} t f = record { unfit = all_unfit }
  where
    all_unfit : (j : ℕ) → j < length (x ∷ xs) → p (get_or (x ∷ xs) j d) ≡ false
    all_unfit zero h = t
    all_unfit (suc j) h = f.unfit j (omega arith)

abbrev pub is_null : Option ℕ → Bool
is_null none = true
is_null (some _) = false

abbrev pub is_unused : OpenFile → Bool
is_unused fp = fp.f_count == 0

-- The result of a search from index `i` on.
pub data Searched {ℓ} {A : Type ℓ} (p : A → Bool) (d : A) (xs : List A) (i : ℕ) (r : Option ℕ)
    : Type 0 where
  at_first : (k : ℕ) → r ≡ some (i + k) → IsFirst p d xs k → Searched p d xs i r
  nowhere : r ≡ none → NoneFits p d xs → Searched p d xs i r

Searched-later {ℓ} :
    {A : Type ℓ} {p : A → Bool} {d x : A} {xs : List A} {i : ℕ} {r : Option ℕ}
    → p x ≡ false
    → Searched p d xs (i + 1) r
    → Searched p d (x ∷ xs) i r
Searched-later t (at_first k e f) = at_first (suc k) (e ∙ ap some (omega arith)) (IsFirst-later t f)
Searched-later t (nowhere e n) = nowhere e (NoneFits-later t n)

pub first_null-Searched :
    (i : ℕ) (fps : List (Option ℕ)) → Searched is_null none fps i (first_null i fps)
unfolding first_null
first_null-Searched i [] = nowhere refl (record { unfit = λ j h. absurd (omega arith) })
first_null-Searched i (none ∷ fps) = at_first 0 (ap some (omega arith)) (IsFirst-here refl)
first_null-Searched i (some _ ∷ fps) = Searched-later refl (first_null-Searched (i + 1) fps)

pub first_unused-Searched :
    (d : OpenFile) (i : ℕ) (fps : List OpenFile) → Searched is_unused d fps i (first_unused i fps)
unfolding first_unused
first_unused-Searched d i [] = nowhere refl (record { unfit = λ j h. absurd (omega arith) })
first_unused-Searched d i (fp ∷ fps) = elim (Bool-cases (fp.f_count == 0)) [
  | inl t ↦ at_first 0 (rw t (ap some (omega arith))) (IsFirst-here t)
  | inr f ↦ rw f (Searched-later f (first_unused-Searched d (i + 1) fps))
]
