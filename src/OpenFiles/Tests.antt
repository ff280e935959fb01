-- ===== src/OpenFiles/Tests.antt =====
-- Open files at concrete inputs.
use hostable_32v.Prelude.{
  ℕ, zero, suc, ◌≡◌, refl, false, Option, none, some, ◌∷◌, arith, get_or, replicate, ap,
}
use hostable_32v.OpenFiles.{
  User, getf, first_null, ufalloc, first_unused, take_file, enter_file, falloc, suser, unused,
}
use hostable_32v.OpenFiles.Search.{is_unused}
use hostable_32v.OpenFiles.Falloc.{IsUser, Fallocated, falloc_lem}

-- Descriptor 0 names file 0, which has one reference; nothing else is open.
abbrev user : User
user = record {
  file = record { f_flag = 3; f_count = 1; f_inode = 7; f_offset = 512 } ∷ replicate 174 unused;
  u_ofile = some 0 ∷ replicate 19 none;
  u_pofile = replicate 20 0;
  r_val1 = 0;
  u_error = 0;
  u_uid = 5;
  asu = false;
}

-- Descriptor 1 and file 1 are taken.
opens_second : (falloc user).0 ≡ some 1
unfolding falloc take_file enter_file ufalloc first_null first_unused
opens_second = refl

closed_descriptor : (getf 3 user).1.u_error ≡ 9
unfolding getf
closed_descriptor = refl

no_super_user : suser user ≡ (false, record user { u_error = 1 })
unfolding suser
no_super_user = refl

get_or-none : (n d : ℕ) → let null : Option ℕ = none in get_or (replicate n null) d null ≡ null
get_or-none zero d = refl
get_or-none (suc n) zero = refl
get_or-none (suc n) (suc d) = get_or-none n d

only_file : (d fp : ℕ) → get_or user.u_ofile d none ≡ some fp → fp ≡ 0
only_file zero fp e = ground (arith, e)
only_file (suc d) fp e = absurd (ground (arith, e, get_or-none 19 d))

user-IsUser : IsUser user
user-IsUser = record {
  descriptors = refl;
  files = refl;
  in_table = λ d fp e. omega (arith, only_file d fp e);
  in_use = λ d fp e. ap (λ k. is_unused (get_or user.file k unused)) (only_file d fp e);
}

falloc_lem_example : Fallocated user (falloc user)
falloc_lem_example = falloc_lem user user-IsUser
