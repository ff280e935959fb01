-- ===== src/Terminals.antt =====
-- The terminals of tty.c, over the character lists: `struct tty` of h/tty.h, and the calls that
-- tty.c makes of other parts.
pub mod Output
pub mod Input
pub mod Lists
mod Once
mod Flush
mod Tests
use hostable_32v.Prelude.{
  ℕ, zero, suc, ◌+◌, ◌-◌, ◌*◌, ◌/◌, ◌%◌, Bool, true, false, not, ◌&&◌, ◌||◌, Option, none, some,
  List, [], ◌∷◌, ltb, leb, ◌==◌, if◌then◌else◌, ◌>>=◌,
}
use hostable_32v.Clist.{Clist, Pool, getc, putc}

-- UNIX_wakeup of `t_rawq` and of `t_outq`, UNIX_signal, and UNIX_sdata of `t_chan`.
pub data Event : Type 0 where
  wakes_raw : Event
  wakes_out : Event
  signals : ℕ → ℕ → Event
  sends_data : Event

-- `struct tty`: the flags of `t_flags` and `t_state` are apart, `t_chan` is whether there is one.
-- `events` has the calls, newest first.
pub record Tty : Type 0 where
  pub pool : Pool
  pub t_rawq : Clist
  pub t_canq : Clist
  pub t_outq : Clist
  pub t_chan : Bool
  pub tandem : Bool
  pub cbreak : Bool
  pub lcase : Bool
  pub echo : Bool
  pub crmod : Bool
  pub raw : Bool
  pub nl_delay : ℕ
  pub tb_delay : ℕ
  pub cr_delay : ℕ
  pub vt_delay : Bool
  pub timeout : Bool
  pub carr_on : Bool
  pub busy : Bool
  pub ttstop : Bool
  pub tblock : Bool
  pub t_pgrp : ℕ
  pub t_delct : ℕ
  pub t_col : ℕ
  pub t_erase : ℕ
  pub t_kill : ℕ
  pub tk_nin : ℕ
  pub tk_nout : ℕ
  pub events : List Event

abbrev pub ceot : ℕ
ceot = 4

abbrev pub cstop : ℕ
cstop = 19

abbrev pub cquit : ℕ
cquit = 28

abbrev pub cintr : ℕ
cintr = 127

abbrev pub ttyhog : ℕ
ttyhog = 256

abbrev pub canbsiz : ℕ
canbsiz = 256

-- A call of UNIX_getc or UNIX_putc on one of the lists; that of UNIX_putc with whether it returned 0.
abbrev pub get_raw : Tty → Option ℕ × Tty
get_raw tp = (let (c, m, q) = getc tp.pool tp.t_rawq in (c, record tp { pool = m; t_rawq = q }))

abbrev pub get_can : Tty → Option ℕ × Tty
get_can tp = (let (c, m, q) = getc tp.pool tp.t_canq in (c, record tp { pool = m; t_canq = q }))

abbrev pub get_out : Tty → Option ℕ × Tty
get_out tp = (let (c, m, q) = getc tp.pool tp.t_outq in (c, record tp { pool = m; t_outq = q }))

abbrev pub put_raw : ℕ → Tty → Bool × Tty
put_raw c tp =
    (let (ok, m, q) = putc c tp.pool tp.t_rawq in (ok, record tp { pool = m; t_rawq = q }))

abbrev pub put_can : ℕ → Tty → Bool × Tty
put_can c tp =
    (let (ok, m, q) = putc c tp.pool tp.t_canq in (ok, record tp { pool = m; t_canq = q }))

abbrev pub put_out : ℕ → Tty → Bool × Tty
put_out c tp =
    (let (ok, m, q) = putc c tp.pool tp.t_outq in (ok, record tp { pool = m; t_outq = q }))

abbrev pub note : Event → Tty → Tty
note e tp = record tp { events = e ∷ tp.events }

-- UNIX_ttstart, where `oproc` is what `t_oproc` does.
unfoldable pub ttstart : (Tty → Tty) → Tty → Tty
ttstart oproc tp = if tp.timeout || tp.ttstop || tp.busy then tp else oproc tp

-- UNIX_ttrstrt.
unfoldable pub ttrstrt : (Tty → Tty) → Tty → Tty
ttrstrt oproc tp = ttstart oproc (record tp { timeout = false })

-- `while (UNIX_getc(&q) >= 0) ;` for at most `fuel` characters, on a list with its pool.
unfoldable pub drain : ℕ → Pool → Clist → Option (Pool × Clist)
drain zero m q = none
drain (suc fuel) m q =
    (let (c, m', q') = getc m q in
      let rest = drain fuel m' q' in elim c [ none ↦ some (m', q') | some x ↦ rest ])

-- UNIX_flushtty.
unfoldable pub flushtty : ℕ → Tty → Option Tty
flushtty fuel tp = drain fuel tp.pool tp.t_canq >>= λ (m₁, canq).
    drain fuel m₁ tp.t_outq >>= λ (m₂, outq). drain fuel m₂ tp.t_rawq >>= λ (m₃, rawq).
    some record tp {
      pool = m₃;
      t_canq = canq;
      t_outq = outq;
      t_rawq = rawq;
      t_delct = 0;
      events = wakes_out ∷ wakes_raw ∷ tp.events;
    }
