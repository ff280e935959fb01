-- ===== src/Inodes/Access.antt =====
-- UNIX_access of fio.c: who may do what with a file.
use hostable_32v.Prelude.{
  ℕ, ◌/◌, ◌%◌, ◌≡◌, ◌∙◌, refl, Bool, true, false, not, ◌&&◌, ◌||◌, arith, ◌==◌, if◌then◌else◌,
  Bool-cases, inl, inr,
}
use hostable_32v.Inodes.{Inode}

-- What is asked for: IREAD, IWRITE or IEXEC.
pub data Wish : Type 0 where
  reading : Wish
  writing : Wish
  executing : Wish

abbrev pub mode_bit : Wish → ℕ
mode_bit reading = 256
mode_bit writing = 128
mode_bit executing = 64

abbrev pub erofs : ℕ
erofs = 30

abbrev pub etxtbsy : ℕ
etxtbsy = 26

abbrev pub eacces : ℕ
eacces = 13

-- `u_uid`, `u_gid` and `u_error` of the user structure.
pub record Asker : Type 0 where
  pub u_uid : ℕ
  pub u_gid : ℕ
  pub u_error : ℕ

-- UNIX_access from the test for the super user on: whether it returns 1.
unfoldable pub access_bits : ℕ → Inode → Asker → Bool × Asker
access_bits m ip u =
    let m' = if u.u_uid == ip.i_uid then m else if u.u_gid == ip.i_gid then m / 8 else m / 8 / 8 in
    if u.u_uid == 0
    then (false, u)
    else if ip.i_mode / m' % 2 == 1
    then (false, u)
    else (true, record u { u_error = eacces })

-- UNIX_access: whether it returns 1. `s_ronly` is the mark of the file system, and `xrele` what UNIX_xrele
-- makes of the inode, of which it may free the text.
unfoldable pub access : Bool → (Inode → Inode) → Wish → Inode → Asker → Bool × Inode × Asker
access s_ronly xrele reading ip u =
    let (refuses, u') = access_bits (mode_bit reading) ip u in (refuses, ip, u')
access s_ronly xrele executing ip u =
    let (refuses, u') = access_bits (mode_bit executing) ip u in (refuses, ip, u')
access s_ronly xrele writing ip u =
    let ip' = if ip.i_text then xrele ip else ip in
    let (refuses, u') = access_bits (mode_bit writing) ip' u in
    if s_ronly
    then (true, ip, record u { u_error = erofs })
    else if ip'.i_text
    then (true, ip', record u { u_error = etxtbsy })
    else (refuses, ip', u')

-- The octal digit of a mode for the owner, his group or others, and the bit of it for a wish.
abbrev digit_for : Inode → Asker → ℕ
digit_for ip u =
    if u.u_uid == ip.i_uid
    then ip.i_mode / 64 % 8
    else if u.u_gid == ip.i_gid
    then ip.i_mode / 8 % 8
    else ip.i_mode % 8

abbrev in_digit : Wish → ℕ → Bool
in_digit reading k = k / 4 % 2 == 1
in_digit writing k = k / 2 % 2 == 1
in_digit executing k = k % 2 == 1

-- The inode of which the mode is tested.
abbrev tested : (Inode → Inode) → Wish → Inode → Inode
tested xrele reading ip = ip
tested xrele executing ip = ip
tested xrele writing ip = if ip.i_text then xrele ip else ip

-- Whether a wish is to be refused whoever has it.
abbrev is_barred : Bool → (Inode → Inode) → Wish → Inode → Bool
is_barred s_ronly xrele reading ip = false
is_barred s_ronly xrele executing ip = false
is_barred s_ronly xrele writing ip = s_ronly || (tested xrele writing ip).i_text

pub record Decided (s_ronly : Bool) (xrele : Inode → Inode) (w : Wish) (ip : Inode) (u : Asker)
    (r : Bool × Inode × Asker) : Type 0 where
  pub refuses :
      (let (b, _, _) = r in b)
      ≡ not (
          not (is_barred s_ronly xrele w ip)
          && ((u.u_uid == 0) || in_digit w (digit_for (tested xrele w ip) u)))
  pub error : (let (_, _, u') = r in u'.u_error) ≡ (
      if (let (b, _, _) = r in b)
      then if is_barred s_ronly xrele w ip then if s_ronly then erofs else etxtbsy else eacces
      else u.u_error)

access_bits-digit :
    (w : Wish) (ip : Inode) (u : Asker)
    → (let (b, _) = access_bits (mode_bit w) ip u in b)
      ≡ not ((u.u_uid == 0) || in_digit w (digit_for ip u))
unfolding access_bits
access_bits-digit reading ip u = ground arith
access_bits-digit writing ip u = ground arith
access_bits-digit executing ip u = ground arith

access_bits-error :
    (m : ℕ) (ip : Inode) (u : Asker)
    → (let (_, u') = access_bits m ip u in u'.u_error)
      ≡ (if (let (b, _) = access_bits m ip u in b) then eacces else u.u_error)
unfolding access_bits
access_bits-error m ip u = ground arith

-- `UNIX_access` refuses to write where the file system is read-only or the file's text is in use; all
-- else it allows to the super user, and to others if the octal digit of the mode for them (the owner's, his
-- group's or the last) has the bit for it. Where it refuses, the error says which of these it was, and
-- else it sets none.
pub access-Decided :
    (s_ronly : Bool) (xrele : Inode → Inode) (w : Wish) (ip : Inode) (u : Asker)
    → Decided s_ronly xrele w ip u (access s_ronly xrele w ip u)
unfolding access
access-Decided s_ronly xrele reading ip u = record {
  refuses = access_bits-digit reading ip u;
  error = access_bits-error (mode_bit reading) ip u;
}
access-Decided s_ronly xrele executing ip u = record {
  refuses = access_bits-digit executing ip u;
  error = access_bits-error (mode_bit executing) ip u;
}
access-Decided true xrele writing ip u = record { refuses = refl; error = refl }
access-Decided false xrele writing ip u =
    elim (Bool-cases (if ip.i_text then xrele ip else ip).i_text) [
      | inl busy ↦ rw busy record { refuses = rw busy refl; error = rw busy refl }
      | inr free ↦ rw free record {
        refuses = access_bits-digit writing (tested xrele writing ip) u ∙ rw free refl;
        error = access_bits-error (mode_bit writing) (tested xrele writing ip) u ∙ rw free refl;
      }
    ]
