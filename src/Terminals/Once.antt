-- ===== src/Terminals/Once.antt =====
-- The calls of itself that UNIX_ttyoutput makes.
use hostable_32v.Prelude.{ℕ, zero, suc, ◌+◌, ◌%◌, ◌≡◌, refl, Bool-cases, inl, inr}
use hostable_32v.Terminals.{Tty}
use hostable_32v.Terminals.Output.{put_tab, put_mapped, ttyoutput_with, ttyoutput}

-- What follows a space, a backslash or a return makes no call.
module _ (f g : ℕ → Tty → Tty) where
  once_space : (tp : Tty) → ttyoutput_with f 32 tp ≡ ttyoutput_with g 32 tp
  unfolding ttyoutput_with put_mapped
  once_space tp = elim (Bool-cases tp.lcase) [ inl y ↦ rw y refl | inr n ↦ rw n refl ]

  once_backslash : (tp : Tty) → ttyoutput_with f 92 tp ≡ ttyoutput_with g 92 tp
  unfolding ttyoutput_with put_mapped
  once_backslash tp = elim (Bool-cases tp.lcase) [ inl y ↦ rw y refl | inr n ↦ rw n refl ]

  once_return : (tp : Tty) → ttyoutput_with f 13 tp ≡ ttyoutput_with g 13 tp
  unfolding ttyoutput_with put_mapped
  once_return tp = elim (Bool-cases tp.lcase) [ inl y ↦ rw y refl | inr n ↦ rw n refl ]

-- The function looks at its own calls for these three characters only.
module _ (f g : ℕ → Tty → Tty) (space : (tp : Tty) → f 32 tp ≡ g 32 tp)
    (backslash : (tp : Tty) → f 92 tp ≡ g 92 tp) (ret : (tp : Tty) → f 13 tp ≡ g 13 tp) where
  put_tab_same : (k : ℕ) (tp : Tty) → put_tab f k tp ≡ put_tab g k tp
  unfolding put_tab
  put_tab_same zero tp = refl
  put_tab_same (suc k) tp = rw (space tp, put_tab_same k (g 32 tp)) refl

  put_mapped_same : (c : ℕ) (tp : Tty) → put_mapped f c tp ≡ put_mapped g c tp
  unfolding put_mapped
  put_mapped_same c tp = rw (backslash tp, ret) refl

  ttyoutput_with_same : (c : ℕ) (tp : Tty) → ttyoutput_with f c tp ≡ ttyoutput_with g c tp
  unfolding ttyoutput_with
  ttyoutput_with_same c tp =
      rw
        (
          put_tab_same 9 (record tp { tk_nout = tp.tk_nout + 1 }),
          put_mapped_same (c % 128) (record tp { tk_nout = tp.tk_nout + 1 }),
        )
        refl

-- UNIX_ttyoutput, which calls itself for the spaces of a tab, for the backslash of an escape and for
-- the return before a newline, comes to an end: one level of these calls is enough, and what it does
-- is what its text says, with itself as the function called.
ttyoutput_lem : (c : ℕ) (tp : Tty) → ttyoutput c tp ≡ ttyoutput_with ttyoutput c tp
unfolding ttyoutput
ttyoutput_lem c tp =
    ttyoutput_with_same (ttyoutput_with (λ d t. t))
      (λ d t. ttyoutput_with (ttyoutput_with (λ d t. t)) d t)
      (once_space (λ d t. t) (ttyoutput_with (λ d t. t)))
      (once_backslash (λ d t. t) (ttyoutput_with (λ d t. t)))
      (once_return (λ d t. t) (ttyoutput_with (λ d t. t))) c tp
