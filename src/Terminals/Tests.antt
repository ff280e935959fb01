-- ===== src/Terminals/Tests.antt =====
-- Terminals at concrete inputs.
use hostable_32v.Prelude.{ℕ, ◌<◌, ◌≤◌, ◌≡◌, refl, true, false, [], ◌∷◌, ◌==◌, if◌then◌else◌, arith}
use hostable_32v.Clist.{Pool, clist}
use hostable_32v.Clist.Chain.{IsIn, Run, last, within, empty, filled}
use hostable_32v.Terminals.{Tty, flushtty}
use hostable_32v.Terminals.Input.{edit, line_of}
use hostable_32v.Terminals.Lists.{Lists, Lists-rotate}
use hostable_32v.Terminals.Flush.{Flushed, flushtty-Flushed}

-- The block at 16 has the characters a, #, b and a delimiter; that at 32 is free.
abbrev pool : Pool
pool = record {
  c_next = λ b. 0;
  c_info = λ p. if p == 20 then 97 else if p == 21 then 35 else if p == 22 then 98 else 255;
  cfreelist = 32;
}

-- A terminal whose erase character is #.
abbrev terminal : Tty
terminal = record {
  pool = pool;
  t_rawq = clist 4 20 24;
  t_canq = clist 0 0 0;
  t_outq = clist 0 0 0;
  t_chan = false;
  tandem = false;
  cbreak = false;
  lcase = false;
  echo = true;
  crmod = true;
  raw = false;
  nl_delay = 0;
  tb_delay = 3;
  cr_delay = 0;
  vt_delay = false;
  timeout = false;
  carr_on = true;
  busy = false;
  ttstop = false;
  tblock = false;
  t_pgrp = 7;
  t_delct = 1;
  t_col = 0;
  t_erase = 35;
  t_kill = 64;
  tk_nin = 0;
  tk_nout = 0;
  events = [];
}

IsIn-block : (p : ℕ) → 20 ≤ p → p < 32 → IsIn 16 p
IsIn-block p from to = record {
  block = record { not_null = omega arith; aligned = refl };
  from = omega (arith, from);
  to = omega (arith, to);
}

characters : Run pool 24 20 (16 ∷ []) (97 ∷ 35 ∷ 98 ∷ 255 ∷ [])
characters = within (IsIn-block 20 (omega arith) (omega arith)) refl (omega arith) (
    within (IsIn-block 21 (omega arith) (omega arith)) refl (omega arith) (
      within (IsIn-block 22 (omega arith) (omega arith)) refl (omega arith)
        (last (IsIn-block 23 (omega arith) (omega arith)) refl refl)))

lists :
    Lists pool
      (clist 4 20 24)
      (clist 0 0 0)
      (clist 0 0 0)
      (16 ∷ [])
      []
      []
      (32 ∷ [])
      (97 ∷ 35 ∷ 98 ∷ 255 ∷ [])
      []
      []
lists = record {
  first = record {
    shape = filled characters;
    count = refl;
    free = (refl, record { not_null = omega arith; aligned = refl }, refl, refl);
    apart = λ a h. ground (arith, h);
  };
  second = record {
    shape = empty refl;
    count = refl;
    free = (refl, record { not_null = omega arith; aligned = refl }, refl, refl);
    apart = λ a h. cc;
  };
  third = record {
    shape = empty refl;
    count = refl;
    free = (refl, record { not_null = omega arith; aligned = refl }, refl, refl);
    apart = λ a h. cc;
  };
  one_two = λ a h. refl;
  one_three = λ a h. refl;
  two_three = λ a h. refl;
}

flushtty-Flushed_example : Flushed terminal [] [] (16 ∷ []) (32 ∷ []) (flushtty 5 terminal)
flushtty-Flushed_example =
    flushtty-Flushed 5 terminal (Lists-rotate lists) (omega arith) (omega arith) (omega arith)

-- The # takes the a back.
line_test : line_of (edit (λ _. 0) 35 64 false 35 (97 ∷ [])) ≡ []
unfolding edit
line_test = refl
