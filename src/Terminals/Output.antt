-- ===== src/Terminals/Output.antt =====
-- UNIX_ttyoutput: tabs, escapes, newlines and delays of a terminal's output.
use hostable_32v.Prelude.{
  ℕ, ◌+◌, ◌-◌, ◌*◌, ◌/◌, ◌%◌, not, ◌&&◌, ltb, leb, ◌==◌, if◌then◌else◌, zero, suc, ◌^◌,
}
use hostable_32v.Terminals.{Tty, put_out, ceot, cstop}

-- `partab[c] & 077`.
abbrev pub partab : ℕ → ℕ
partab c =
    if c == 8
    then 2
    else if c == 9
    then 4
    else if c == 10
    then 3
    else if c == 12
    then 5
    else if c == 13
    then 6
    else if ltb c 32
    then 1
    else if ltb c 127
    then 0
    else 1

-- `(unsigned)*colp`, of a char.
abbrev pub unsigned : ℕ → ℕ
unsigned col = if ltb col 128 then col else col + (2 ^ 32 - 256)

abbrev pub max : ℕ → ℕ → ℕ
max a b = if ltb b a then a else b

-- The delay after the character, and the column then.
abbrev pub delay : ℕ → Tty → ℕ
delay c tp =
    if c == 10
    then (if tp.nl_delay == 1
        then (if tp.t_col == 0 then 0 else max (unsigned tp.t_col / 16 + 3) 6)
        else if tp.nl_delay == 2
        then 6
        else 0)
    else if c == 9
    then (if (tp.tb_delay == 1) && leb 5 (9 - tp.t_col % 8) then 9 - tp.t_col % 8 else 0)
    else if c == 12
    then (if tp.vt_delay then 127 else 0)
    else if c == 13
    then (if tp.cr_delay == 1 then 5 else if tp.cr_delay == 2 then 10 else 0)
    else 0

abbrev pub column : ℕ → ℕ → ℕ
column c col =
    if partab c == 0
    then (col + 1) % 256
    else if partab c == 2
    then (if col == 0 then 0 else col - 1)
    else if partab c == 3
    then 0
    else if partab c == 4
    then (col / 8 * 8 + 8) % 256
    else if partab c == 6
    then 0
    else col

-- From the UNIX_putc of the character to the end.
unfoldable pub put_delayed : ℕ → Tty → Tty
put_delayed c tp =
    let tp₁ = (put_out c tp).1 in
    let tp₂ = record tp₁ { t_col = column c tp₁.t_col } in
    if delay c tp₁ == 0 then tp₂ else (put_out (delay c tp₁ % 128 + 128) tp₂).1

-- The character whose escape this is, or 0: `colp = "({)}!|^~'`"`.
abbrev pub escape : ℕ → ℕ
escape c =
    if c == 123
    then 40
    else if c == 125
    then 41
    else if c == 124
    then 33
    else if c == 126
    then 94
    else if c == 96
    then 39
    else 0

abbrev pub upper : ℕ → ℕ
upper c = if leb 97 c && leb c 122 then c - 32 else c

-- The spaces for a tab, with at most `k` to go.
unfoldable pub put_tab : (ℕ → Tty → Tty) → ℕ → Tty → Tty
put_tab out zero tp = tp
put_tab out (suc k) tp =
    let tp₁ = out 32 tp in let rest = put_tab out k tp₁ in if tp₁.t_col % 8 == 0 then tp₁ else rest

-- What follows the tabs: the escapes and capitals of LCASE, and CRMOD.
unfoldable pub put_mapped : (ℕ → Tty → Tty) → ℕ → Tty → Tty
put_mapped out c tp =
    let escaped = tp.lcase && not (escape c == 0) in
    let tp₁ = if escaped then out 92 tp else tp in
    let c₁ = if escaped then escape c else c in
    let c₂ = if tp₁.lcase then upper c₁ else c₁ in
    let tp₂ = if (c₂ == 10) && tp₁.crmod then out 13 tp₁ else tp₁ in put_delayed c₂ tp₂

-- UNIX_ttyoutput, where `out` is its own call.
unfoldable pub ttyoutput_with : (ℕ → Tty → Tty) → ℕ → Tty → Tty
ttyoutput_with out c₀ tp₀ =
    let tp = record tp₀ { tk_nout = tp₀.tk_nout + 1 } in
    let c = c₀ % 128 in
    if tp.raw
    then (put_out c₀ tp).1
    else if c == ceot
    then tp
    else if tp.tandem && (c == cstop)
    then tp
    else if (c == 9) && (tp.tb_delay == 3)
    then put_tab out 9 tp
    else put_mapped out c tp

-- UNIX_ttyoutput: its own calls are for a space, a backslash and a return, and these make none.
unfoldable pub ttyoutput : ℕ → Tty → Tty
ttyoutput c tp = ttyoutput_with (ttyoutput_with (λ d t. t)) c tp
