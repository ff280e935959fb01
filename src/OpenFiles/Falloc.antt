-- ===== src/OpenFiles/Falloc.antt =====
-- UNIX_falloc: a new descriptor for a file that no descriptor names.
use hostable_32v.Prelude.{
  ℕ, ◌+◌, ◌<◌, ◌≡◌, ◌≢◌, refl, true, false, Option, none, some, arith, ltb, ◌==◌, get_or, set,
  length, ap, ◌∙◌, sym, get_or-set_self, get_or-set_ne, length-set, subst, ℕ_discrete,
}
use hostable_32v.OpenFiles.{
  OpenFile, User, getf, first_null, ufalloc, first_unused, take_file, enter_file, unused, open_at,
  falloc,
}
use hostable_32v.OpenFiles.Search.{
  IsFirst, NoneFits, is_null, is_unused, at_first, nowhere, first_null-Searched,
  first_unused-Searched,
}

-- There are NOFILE descriptors and NFILE files, and a descriptor names a file that is in use.
pub record IsUser (u : User) : Type 0 where
  pub descriptors : length u.u_ofile ≡ 20
  pub files : length u.file ≡ 175
  pub in_table : (d fp : ℕ) → get_or u.u_ofile d none ≡ some fp → fp < 175
  pub in_use :
      (d fp : ℕ) → get_or u.u_ofile d none ≡ some fp → is_unused (get_or u.file fp unused) ≡ false

-- What falloc does: descriptor `d`, the first that was NULL, names file `fp`, the first that was
-- not in use. The other descriptors and files are as they were.
pub record Opened (u : User) (d fp : ℕ) (r : Option ℕ × User) : Type 0 where
  pub after : User
  pub equation : r ≡ (some fp, after)
  pub first_descriptor : IsFirst is_null none u.u_ofile d
  pub first_file : IsFirst is_unused unused u.file fp
  pub returned : after.r_val1 ≡ d
  pub named : getf d after ≡ (some fp, after)
  pub others : (d' : ℕ) → d' ≢ d → get_or after.u_ofile d' none ≡ get_or u.u_ofile d' none
  pub one_reference : (get_or after.file fp unused).f_count ≡ 1
  pub from_start : (get_or after.file fp unused).f_offset ≡ 0
  pub other_files : (k : ℕ) → k ≢ fp → get_or after.file k unused ≡ get_or u.file k unused
  pub alone : (d' : ℕ) → get_or after.u_ofile d' none ≡ some fp → d' ≡ d
  pub well_formed : IsUser after

-- Where a descriptor and a file are found.
module _ (u : User) (d fp : ℕ) (w : IsUser u) (first : IsFirst is_null none u.u_ofile d)
    (file : IsFirst is_unused unused u.file fp) where
  start : User
  start = record u { r_val1 = d; u_pofile = set u.u_pofile d 0 }

  new_entry : OpenFile
  new_entry = let e = get_or u.file fp unused in record e { f_count = e.f_count + 1; f_offset = 0 }

  new_entry_count : new_entry.f_count ≡ 1
  unfolding new_entry
  new_entry_count = ground (arith, file.fit)

  not_named : (d' : ℕ) → get_or u.u_ofile d' none ≢ some fp
  not_named d' e = ground (arith, w.in_use d' fp e, file.fit)

  new_descriptor : get_or (set u.u_ofile d (some fp)) d none ≡ some fp
  new_descriptor = get_or-set_self u.u_ofile d (some fp) none first.inside

  other_descriptor :
      (d' : ℕ) → d' ≢ d → get_or (set u.u_ofile d (some fp)) d' none ≡ get_or u.u_ofile d' none
  other_descriptor d' n = get_or-set_ne u.u_ofile d d' (some fp) none (λ e. n (sym e))

  new_file : get_or (set u.file fp new_entry) fp unused ≡ new_entry
  new_file = get_or-set_self u.file fp new_entry unused file.inside

  other_file : (k : ℕ) → k ≢ fp → get_or (set u.file fp new_entry) k unused ≡ get_or u.file k unused
  other_file k n = get_or-set_ne u.file fp k new_entry unused (λ e. n (sym e))

  alone : (d' : ℕ) → get_or (set u.u_ofile d (some fp)) d' none ≡ some fp → d' ≡ d
  alone d' e = elim (ℕ_discrete d' d) [
    | yes same ↦ same
    | no n ↦ absurd (not_named d' (sym (other_descriptor d' n) ∙ e))
  ]

  table_after :
      (d' k : ℕ)
      → get_or (set u.u_ofile d (some fp)) d' none ≡ some k
      → (k < 175) × (is_unused (get_or (set u.file fp new_entry) k unused) ≡ false)
  table_after d' k e = elim (ℕ_discrete k fp) [
    | yes same ↦ (
      omega (arith, same, file.inside, w.files),
      ap (λ j. is_unused (get_or (set u.file fp new_entry) j unused)) same
          ∙ ap is_unused new_file
          ∙ ap (λ c. c == 0) new_entry_count,
    )
    | no n ↦ elim (ℕ_discrete d' d) [
      | yes at ↦
          let same : some fp ≡ some k =
            sym new_descriptor ∙ ap (λ j. get_or (set u.u_ofile d (some fp)) j none) (sym at) ∙ e in
          absurd (ground (arith, same, n))
      | no o ↦
          let e' = sym (other_descriptor d' o) ∙ e in
          (w.in_table d' k e', ap is_unused (other_file k n) ∙ w.in_use d' k e')
    ]
  ]

  pub Opened-open_at :
      Opened u d fp (some fp, open_at d fp (record u { r_val1 = d; u_pofile = set u.u_pofile d 0 }))
  unfolding open_at start new_entry getf
  Opened-open_at = record {
    after = open_at d fp start;
    equation = refl;
    first_descriptor = first;
    first_file = file;
    returned = refl;
    named =
        let t : ltb d 20 ≡ true = ground (arith, first.inside, w.descriptors) in
        rw (t, new_descriptor) refl;
    others = other_descriptor;
    one_reference = ap OpenFile.f_count new_file ∙ new_entry_count;
    from_start = ap OpenFile.f_offset new_file;
    other_files = other_file;
    alone = alone;
    well_formed = record {
      descriptors = length-set u.u_ofile d (some fp) ∙ w.descriptors;
      files = length-set u.file fp new_entry ∙ w.files;
      in_table = λ d' k e. (table_after d' k e).0;
      in_use = λ d' k e. (table_after d' k e).1;
    };
  }

-- What falloc ends in.
pub data Fallocated (u : User) (r : Option ℕ × User) : Type 0 where
  opens : (d fp : ℕ) → Opened u d fp r → Fallocated u r
  no_descriptor :
      NoneFits is_null none u.u_ofile → r ≡ (none, record u { u_error = 24 }) → Fallocated u r
  no_file :
      (d : ℕ)
      → IsFirst is_null none u.u_ofile d
      → NoneFits is_unused unused u.file
      → r ≡ (none, record u { r_val1 = d; u_pofile = set u.u_pofile d 0; u_error = 23 })
      → Fallocated u r

ufalloc-found :
    (u : User) (d : ℕ)
    → first_null 0 u.u_ofile ≡ some d
    → ufalloc u ≡ (some d, record u { r_val1 = d; u_pofile = set u.u_pofile d 0 })
unfolding ufalloc
ufalloc-found u d e = rw (e, ufalloc) refl

falloc-found :
    (u : User) (d : ℕ) (r : Option ℕ)
    → first_null 0 u.u_ofile ≡ some d
    → first_unused 0 u.file ≡ r
    → falloc u ≡ enter_file d r (record u { r_val1 = d; u_pofile = set u.u_pofile d 0 })
unfolding falloc take_file
falloc-found u d r e e' =
    ap take_file (ufalloc-found u d e)
    ∙ ap (λ s. enter_file d s (record u { r_val1 = d; u_pofile = set u.u_pofile d 0 })) e'

-- On well-formed tables UNIX_falloc either makes the first descriptor that was NULL name the first
-- file that was not in use, alone, at offset 0 and with one reference, and the tables stay well
-- formed; or it returns NULL and sets EMFILE, because no descriptor is NULL; or it returns NULL and
-- sets ENFILE, because every file is in use. In the last two cases descriptors and files stay.
pub falloc_lem : (u : User) → IsUser u → Fallocated u (falloc u)
unfolding falloc ufalloc take_file enter_file
falloc_lem u w = elim (first_null-Searched 0 u.u_ofile) [
  | nowhere e n ↦ no_descriptor n (rw (e, ufalloc) refl)
  | at_first d e₀ f ↦
      let e : first_null 0 u.u_ofile ≡ some d = e₀ ∙ ap some (omega arith) in
      elim (first_unused-Searched unused 0 u.file) [
        | nowhere e' n ↦ no_file d f n (falloc-found u d none e e')
        | at_first fp e₁ f' ↦
            let e' : first_unused 0 u.file ≡ some fp = e₁ ∙ ap some (omega arith) in
            opens d fp (
              subst (λ r. Opened u d fp r) (sym (falloc-found u d (some fp) e e'))
                (Opened-open_at u d fp w f f'))
      ]
]
