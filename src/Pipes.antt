-- ===== src/Pipes.antt =====
-- Pipes, of pipe.c: UNIX_readp and UNIX_writep, on the file that holds the bytes.
mod Tests
pub mod Span
pub mod Content
pub mod Filled
pub mod Putting
pub mod History
use hostable_32v.Prelude.{
  ℕ, zero, suc, ◌+◌, ◌-◌, ◌/◌, ◌%◌, Bool, true, false, ◌&&◌, List, [], ◌∷◌, ◌++◌, ltb, leb, ◌==◌,
  if◌then◌else◌, Option, none, some, Outcome, done, out_of_fuel, panics, and_then, ◌≡◌, refl,
}
use hostable_32v.Inodes.{Inode, plock, prele}
use hostable_32v.FileIo.{Disk, State, Args, min_of, readi, writei}

abbrev pub pipsiz : ℕ
pipsiz = 4096

abbrev pub epipe : ℕ
epipe = 32

-- The pipe: its inode and disk, and the `f_offset` of the open file for reading.
pub record Pipe (S : Type 0) : Type 0 where
  pub ip : Inode
  pub disk : S
  pub f_offset : ℕ

-- The addresses to sleep on: the inode, and the next two.
pub data Channel : Type 0 where
  on_inode : Channel
  on_room : Channel
  on_bytes : Channel

-- How one time round a loop ends.
pub data Turn : Type 0 where
  leaves : Turn
  waits_on : Channel → Turn
  again : Turn

-- The pipe and the process's arguments afterwards, with the channels woken and whether SIGPIPE is sent.
-- `left` is the variable `c` of UNIX_writep.
pub record Passed (S : Type 0) : Type 0 where
  pub pipe : Pipe S
  pub u : Args
  pub left : ℕ
  pub turn : Turn
  pub woken : List Channel
  pub sigpipe : Bool

-- `i_mode |= IREAD` and so on: a bit of the mode by its place value.
abbrev pub with_bit : ℕ → ℕ → ℕ
with_bit bit mode = if mode / bit % 2 == 0 then mode + bit else mode

abbrev pub without_bit : ℕ → ℕ → ℕ
without_bit bit mode = if mode / bit % 2 == 0 then mode else mode - bit

abbrev pub bit_set : ℕ → ℕ → Bool
bit_set bit mode = mode / bit % 2 == 1

abbrev pub iread : ℕ
iread = 256

abbrev pub iwrite : ℕ
iwrite = 128

abbrev pub with_mode : ℕ → Inode → Inode
with_mode mode ip = record ip { i_mode = mode }

-- The channels that UNIX_prele wakes.
abbrev pub released : Bool → List Channel
released w = if w then on_inode ∷ [] else []

-- UNIX_readp from UNIX_readi on: `t` is what it leaves.
unfoldable pub readp_end : {S : Type 0} → State S → Passed S
readp_end t =
    let caught_up = t.u.u_offset == t.ip.i_size in
    let wakes = caught_up && bit_set iwrite t.ip.i_mode in
    let (ip', w) = prele (record (t.ip) {
      i_size = if caught_up then 0 else t.ip.i_size;
      i_mode = if wakes then without_bit iwrite t.ip.i_mode else t.ip.i_mode;
    }) in
    record {
      pipe = record { ip = ip'; disk = t.disk; f_offset = if caught_up then 0 else t.u.u_offset };
      u = t.u;
      left = 0;
      turn = leaves;
      woken = (if wakes then on_room ∷ [] else []) ++ released w;
      sigpipe = false;
    }

-- UNIX_readp, where nothing is in the pipe.
unfoldable pub readp_empty : {S : Type 0} → Pipe S → Args → Passed S
readp_empty p u =
    let (ip', w) = prele p.ip in
    let alone = ltb ip'.i_count 2 in
    record {
      pipe = record p {
        ip = with_mode (if alone then ip'.i_mode else with_bit iread ip'.i_mode) ip';
      };
      u = u;
      left = 0;
      turn = if alone then leaves else waits_on on_bytes;
      woken = released w;
      sigpipe = false;
    }

-- The inode locked by UNIX_plock, unless it has to wait.
unfoldable pub taken_lock : Inode → Option Inode
taken_lock ip = let (got, _) = plock ip in got

-- UNIX_plock sleeps, with the inode wanted, and tries again when it is woken.
unfoldable pub locked_out : {S : Type 0} → ℕ → Pipe S → Args → Passed S
locked_out left p u = record {
  pipe = record p { ip = record (p.ip) { i_want = true } };
  u = u;
  left = left;
  turn = waits_on on_inode;
  woken = [];
  sigpipe = false;
}

-- UNIX_readp from `loop` on, up to where it sleeps or returns.
unfoldable pub readp : {S : Type 0} → ℕ → Disk S → Args → Pipe S → Outcome (Passed S)
readp fuel d u p = elim (taken_lock p.ip) [
  | none ↦ done (locked_out 0 p u)
  | some ip' ↦
      if ip'.i_size == 0
      then done (readp_empty (record p { ip = ip' }) u)
      else and_then
          (readi fuel d
            (record { ip = ip'; u = record u { u_offset = p.f_offset }; disk = p.disk }))
          (λ t. done (readp_end t))
]

-- UNIX_writep behind UNIX_writei, with `left` bytes to come.
unfoldable pub writep_end : {S : Type 0} → ℕ → ℕ → State S → Passed S
writep_end left f_offset t =
    let (ip', w) = prele t.ip in
    let wakes = bit_set iread ip'.i_mode in
    record {
      pipe = record {
        ip = with_mode (if wakes then without_bit iread ip'.i_mode else ip'.i_mode) ip';
        disk = t.disk;
        f_offset = f_offset;
      };
      u = t.u;
      left = left;
      turn = again;
      woken = released w ++ (if wakes then on_bytes ∷ [] else []);
      sigpipe = false;
    }

-- UNIX_writep where it does not write: all is written, no one reads, or the pipe is full.
unfoldable pub writep_rest : {S : Type 0} → ℕ → Turn → ℕ → Bool → Inode → Pipe S → Args → Passed S
writep_rest left turn error sigpipe ip' p u =
    let (ip₂, w) = prele ip' in
    record {
      pipe = record p { ip = ip₂ };
      u = record u { u_error = error };
      left = left;
      turn = turn;
      woken = released w;
      sigpipe = sigpipe;
    }

-- UNIX_writep once from `loop` on, with `left` bytes to write.
unfoldable pub writep : {S : Type 0} → ℕ → Disk S → ℕ → Args → Pipe S → Outcome (Passed S)
writep fuel d left u p = elim (taken_lock p.ip) [
  | none ↦ done (locked_out left p u)
  | some ip' ↦
      let n = min_of left pipsiz in
      if left == 0
      then done (writep_rest left leaves u.u_error false ip' p (record u { u_count = 0 }))
      else if ltb ip'.i_count 2
      then done (writep_rest left leaves epipe true ip' p u)
      else if leb pipsiz ip'.i_size
      then done (
          writep_rest left (waits_on on_room) u.u_error false
            (with_mode (with_bit iwrite ip'.i_mode) ip') p u)
      else and_then
          (writei fuel d (record {
            ip = ip';
            u = record u { u_offset = ip'.i_size; u_count = n };
            disk = p.disk;
          }))
          (λ t. done (writep_end (left - n) p.f_offset t))
]

abbrev pub is_again : Turn → Bool
is_again again = true
is_again leaves = false
is_again (waits_on c) = false

-- The loop of UNIX_writep, until it sleeps or returns.
unfoldable pub writep_loop : {S : Type 0} → ℕ → ℕ → Disk S → ℕ → Args → Pipe S → Outcome (Passed S)
writep_loop zero fuel d left u p = out_of_fuel
writep_loop (suc rounds) fuel d left u p = elim (writep fuel d left u p) [
  | done r ↦
      let rest = writep_loop rounds fuel d r.left r.u r.pipe in
      if is_again r.turn then rest else done r
  | panics ↦ panics
  | out_of_fuel ↦ out_of_fuel
]

pub taken_lock-locked : (ip : Inode) → ip.i_lock ≡ true → taken_lock ip ≡ none
unfolding taken_lock
taken_lock-locked ip lock = rw lock refl

pub taken_lock-free :
    (ip : Inode) → ip.i_lock ≡ false → taken_lock ip ≡ some (record ip { i_lock = true })
unfolding taken_lock
taken_lock-free ip free = rw free refl
