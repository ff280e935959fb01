-- ===== src/Terminals/Input.antt =====
-- UNIX_ttyinput, which takes a character from the line, and UNIX_canon, which makes a line of them.
-- The flags of `t_flags` may be read at any point, since the driver's output leaves them.
use hostable_32v.Prelude.{
  ℕ, zero, suc, ◌+◌, ◌-◌, ◌/◌, ◌%◌, Bool, true, false, not, ◌&&◌, ◌||◌, Option, none, some, List,
  [], ◌∷◌, ltb, leb, ◌==◌, if◌then◌else◌, get_or, length,
}
use hostable_32v.Terminals.{
  Tty, wakes_raw, signals, sends_data, ceot, cstop, cquit, cintr, ttyhog, canbsiz, get_raw, put_raw,
  put_can, put_out, note, ttstart, flushtty,
}
use hostable_32v.Terminals.Output.{ttyoutput}

-- UNIX_ttyinput before it tests RAW: the other side is asked to stop.
abbrev pub block_input : (Tty → Tty) → Tty → Tty
block_input oproc tp =
    if tp.tandem && leb (ttyhog / 2) tp.t_rawq.c_cc && not tp.tblock
    then (let (ok, tp₁) = put_out cstop tp in
        if ok then ttstart oproc (record tp₁ { tblock = true }) else tp₁)
    else tp

-- The wakeup of who reads.
abbrev pub tell_reader : Tty → Tty
tell_reader tp = if tp.t_chan then note sends_data tp else note wakes_raw tp

-- Whether the character is the one of `t_erase` or `t_kill`, which is negative from 128 on.
abbrev pub is_char : ℕ → ℕ → Bool
is_char c special = (c == special) && ltb special 128

abbrev pub do_echo : (Tty → Tty) → ℕ → Tty → Tty
do_echo oproc c tp =
    if tp.echo
    then (let tp₁ = ttyoutput c tp in
        ttstart oproc
          (if is_char c tp₁.t_kill && not tp₁.raw && not tp₁.cbreak then ttyoutput 10 tp₁ else tp₁))
    else tp

-- UNIX_ttyinput from its last UNIX_putc on.
unfoldable pub enter : (Tty → Tty) → ℕ → Tty → Tty
enter oproc c tp =
    let tp₁ = (put_raw c tp).1 in
    let cooked = not tp.raw && not tp.cbreak in
    let (ok, tp₂) = put_raw 255 tp₁ in
    let tp₃ = if ok then record tp₂ { t_delct = (tp₂.t_delct + 1) % 256 } else tp₂ in
    do_echo oproc c (
      if not cooked || (c == 10) || (c == ceot)
      then tell_reader (if cooked then tp₃ else tp₁)
      else tp₁)

-- UNIX_ttyinput from the test of the length of `t_rawq` on.
unfoldable pub input_char : (Tty → Tty) → ℕ → ℕ → Tty → Option Tty
input_char oproc fuel c tp =
    if ltb ttyhog tp.t_rawq.c_cc
    then flushtty fuel tp
    else some (enter oproc (if tp.lcase && leb 65 c && leb c 90 then c + 32 else c) tp)

-- UNIX_ttyinput where RAW is off.
unfoldable pub input_cooked : (Tty → Tty) → ℕ → ℕ → Tty → Option Tty
input_cooked oproc fuel c tp =
    if c == cstop
    then some (ttstart oproc (record tp { ttstop = not tp.ttstop }))
    else if (c == cquit) || (c == cintr)
    then flushtty fuel
        (note (signals tp.t_pgrp (if c == cintr then 2 else 3)) (record tp { ttstop = false }))
    else input_char oproc fuel (if (c == 13) && tp.crmod then 10 else c)
        (record tp { ttstop = false })

-- UNIX_ttyinput.
unfoldable pub ttyinput : (Tty → Tty) → ℕ → ℕ → Tty → Option Tty
ttyinput oproc fuel c tp =
    let tp₁ = block_input oproc (record tp { tk_nin = tp.tk_nin + 1 }) in
    if tp.raw then input_char oproc fuel (c % 256) tp₁ else input_cooked oproc fuel (c % 128) tp₁

-- The table of escapes, with its low seven bits. It has 128 entries; `past` is what is in memory behind
-- its end, where the program reads for a character from 128 on.
abbrev pub maptab : (ℕ → ℕ) → ℕ → ℕ
maptab past c =
    if leb 128 c
    then past (c - 128) % 128
    else if c == 4
    then ceot
    else if c == 33
    then 124
    else if c == 39
    then 96
    else if c == 40
    then 123
    else if c == 41
    then 125
    else if c == 94
    then 126
    else if leb 97 c && leb c 122
    then c - 32
    else 0

-- `bp[-1]` and `bp[-2]`, of the line with its last character first.
abbrev pub last_char : List ℕ → ℕ
last_char line = get_or line 0 0

abbrev pub before_last : List ℕ → ℕ
before_last line = get_or line 1 0

-- What a character of cooked input does to the line, its last character first; one kept is `kept`,
-- one that only edits `edited`.
pub data Edit : Type 0 where
  kept : List ℕ → Edit
  edited : List ℕ → Edit

abbrev pub drop_last : List ℕ → List ℕ
drop_last [] = []
drop_last (c ∷ line) = line

-- Behind a backslash.
unfoldable pub escaped : (ℕ → ℕ) → ℕ → ℕ → Bool → ℕ → List ℕ → Edit
escaped past erase kill lcase c line =
    let mc = if is_char c erase || is_char c kill then c else maptab past c in
    if not (mc == 0) && ((mc == c) || lcase)
    then kept ((if before_last line == 92 then c else mc) ∷ drop_last line)
    else kept (c ∷ line)

unfoldable pub edit : (ℕ → ℕ) → ℕ → ℕ → Bool → ℕ → List ℕ → Edit
edit past erase kill lcase c line =
    if last_char line == 92
    then escaped past erase kill lcase c line
    else if is_char c erase
    then edited (drop_last line)
    else if is_char c kill
    then edited []
    else if c == ceot
    then edited line
    else kept (c ∷ line)

-- The line after the edit, and whether the buffer is full then.
abbrev pub line_of : Edit → List ℕ
line_of (kept line) = line
line_of (edited line) = line

abbrev pub is_full : Edit → Bool
is_full (kept line) = leb (canbsiz - 2) (length line)
is_full (edited line) = false

abbrev pub cooked : Tty → Bool
cooked tp = not tp.raw && not tp.cbreak

abbrev pub edit_in : (ℕ → ℕ) → Tty → ℕ → List ℕ → Edit
edit_in past tp c line =
    if cooked tp then edit past tp.t_erase tp.t_kill tp.lcase c line else kept (c ∷ line)

-- The loop of UNIX_canon, for at most `fuel` characters; `none` when these are not enough.
unfoldable pub read_line : (ℕ → ℕ) → ℕ → List ℕ → Tty → Option (List ℕ × Tty)
read_line past zero line tp = none
read_line past (suc fuel) line tp =
    (let (got, tp₁) = get_raw tp in
      elim got [
        | none ↦ some (line, tp₁)
        | some c ↦
            let line' = edit_in past tp c line in
            let rest = read_line past fuel (line_of line') tp₁ in
            if cooked tp && (c == 255)
            then some (line, record tp₁ { t_delct = (tp₁.t_delct + 255) % 256 })
            else if is_full line'
            then some (line_of line', tp₁)
            else rest
      ])

-- The line goes to `t_canq`, its first character first.
unfoldable pub put_line : List ℕ → Tty → Tty
put_line [] tp = tp
put_line (c ∷ line) tp = (put_can c (put_line line tp)).1

-- The other side may go on.
unfoldable pub unblock_input : (Tty → Tty) → Tty → Tty
unblock_input oproc tp =
    if tp.tblock && ltb tp.t_rawq.c_cc (ttyhog / 5)
    then (let (ok, tp₁) = put_out cstop tp in
        if ok then ttstart oproc (record tp₁ { tblock = false }) else tp₁)
    else tp

-- UNIX_canon returns a count, sleeps on `t_rawq`, or needs more rounds.
pub data Canon : Type 0 where
  returned : ℕ → Tty → Canon
  sleeps : Canon
  out_of_fuel : Canon

abbrev pub has_input : Tty → Bool
has_input tp = if cooked tp then not (tp.t_delct == 0) else not (tp.t_rawq.c_cc == 0)

unfoldable pub canon : (ℕ → ℕ) → (Tty → Tty) → ℕ → Tty → Canon
canon past oproc fuel tp =
    if has_input tp
    then elim (read_line past fuel [] tp) [
      | none ↦ out_of_fuel
      | some (line, tp₁) ↦ returned (length line) (unblock_input oproc (put_line line tp₁))
    ]
    else if not tp.carr_on || tp.t_chan
    then returned 0 tp
    else sleeps
