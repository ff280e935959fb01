-- ===== src/Pipes/Span.antt =====
-- A stretch of a table of bytes as a list.
use hostable_32v.Prelude.{
  ℕ, zero, suc, ◌+◌, ◌<◌, ◌≡◌, refl, ap, ◌∙◌, sym, List, [], ◌∷◌, ◌++◌, arith,
}

unfoldable pub span : (ℕ → ℕ) → ℕ → ℕ → List ℕ
span g p zero = []
span g p (suc n) = g p ∷ span g (suc p) n

pub span-append : (g : ℕ → ℕ) (p m n : ℕ) → span g p (m + n) ≡ span g p m ++ span g (p + m) n
unfolding span
span-append g p zero n =
    let z : p + 0 ≡ p = omega arith in let m : 0 + n ≡ n = omega arith in rw (z, m) refl
span-append g p (suc m) n =
    let s : suc p + m ≡ p + suc m = omega arith in
    let l : suc m + n ≡ suc (m + n) = omega arith in
    rw l
      (ap (λ l. g p ∷ l) (span-append g (suc p) m n ∙ ap (λ q. span g (suc p) m ++ span g q n) s))

pub span-cong :
    (g h : ℕ → ℕ) (p q n : ℕ) → ((i : ℕ) → i < n → g (p + i) ≡ h (q + i)) → span g p n ≡ span h q n
unfolding span
span-cong g h p q zero e = refl
span-cong g h p q (suc n) e =
    let rest = span-cong g h (suc p) (suc q) n (λ i l.
      let here : suc p + i ≡ p + suc i = omega arith in
      let there : suc q + i ≡ q + suc i = omega arith in
      ap g here ∙ e (suc i) (omega (arith, l)) ∙ ap h (sym there)) in
    let p' : p + 0 ≡ p = omega arith in
    let q' : q + 0 ≡ q = omega arith in
    let head : g p ≡ h q = ap g (sym p') ∙ e 0 (omega arith) ∙ ap h q' in
    ap (λ x. x ∷ span g (suc p) n) head ∙ ap (λ l. h q ∷ l) rest
