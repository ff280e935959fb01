-- ===== src/Callout/Ripe.antt =====
-- The entries of the table that are due now, and requests made while they stand in front.
use hostable_32v.Prelude.{
  ℕ, suc, ◌+◌, ◌-◌, ◌≤◌, ◌<◌, ◌≡◌, refl, true, false, List, [], ◌∷◌, ◌++◌, arith, leb, ltb, ◌==◌,
  if◌then◌else◌, length, some, inl, inr, Bool-cases, ap, ◌∙◌, get_elem?, drop, length-append,
}
use hostable_32v.Callout.{Table, ok, place, timeout, Request, serve, Handlers}
use hostable_32v.Callout.Timeout.{place-Placed, timeout-some}
use hostable_32v.Callout.Due.{Deadline, deadline, due, insert, insert_all}

-- The entries due now, at the front of the table, and those after them.
unfoldable pub ripe : Table → Table
ripe [] = []
ripe (e ∷ es) = if e.c_time == 0 then e ∷ ripe es else []

unfoldable pub unripe : Table → Table
unripe [] = []
unripe (e ∷ es) = if e.c_time == 0 then unripe es else e ∷ es

abbrev pub AllRipe : Table → Type 0
AllRipe [] = Unit
AllRipe (e ∷ es) = (e.c_time ≡ 0) × AllRipe es

abbrev pub HeadLate : Table → Type 0
HeadLate [] = Unit
HeadLate (e ∷ es) = 0 < e.c_time

pub split_ripe : (t : Table) → (t ≡ ripe t ++ unripe t) × AllRipe (ripe t) × HeadLate (unripe t)
unfolding ripe unripe
split_ripe [] = (refl, tt, tt)
split_ripe (e ∷ es) = elim (Bool-cases (e.c_time == 0)) [
  | inl z ↦ let (s, a, h) = split_ripe es in rw z (ap (λ k. e ∷ k) s, (ground arith, a), h)
  | inr l ↦ rw l (refl, tt, ground arith)
]

-- The entries due now come first in the deadlines too, and place passes over them.
pub due-ripe : (zs rest : Table) → AllRipe zs → due (zs ++ rest) ≡ due zs ++ due rest
due-ripe [] rest a = refl
due-ripe (e ∷ es) rest (z, a) =
    let now : 0 + e.c_time ≡ 0 = omega arith in rw (now, due-ripe es rest a) refl

pub place-ripe :
    (i t fun arg : ℕ) (zs rest : Table) (r : Table)
    → AllRipe zs
    → place (i + length zs) t fun arg rest ≡ some r
    → place i t fun arg (zs ++ rest) ≡ some (zs ++ r)
unfolding place
place-ripe i t fun arg [] rest r a e = (let n : i + 0 ≡ i = omega arith in rw n at e)
place-ripe i t fun arg (z ∷ zs) rest r (q, a) e =
    let on : leb z.c_time t ≡ true = ground arith in
    let same : t - z.c_time ≡ t = omega arith in
    let n : i + suc (length zs) ≡ i + 1 + length zs = omega arith in
    rw (on, same, place-ripe (i + 1) t fun arg zs rest r a (rw (← n) e)) refl

abbrev pub FirstLate : List Deadline → Type 0
FirstLate [] = Unit
FirstLate (d ∷ ds) = 0 < d.at

pub FirstLate-insert :
    (d : Deadline) (ds : List Deadline) → 0 < d.at → FirstLate ds → FirstLate (insert d ds)
FirstLate-insert d [] h l = h
FirstLate-insert d (e ∷ es) h l = elim (Bool-cases (leb e.at d.at)) [
  | inl on ↦ rw on l
  | inr stop ↦ rw stop h
]

pub HeadLate-of : (t : Table) → FirstLate (due t) → HeadLate t
HeadLate-of [] h = tt
HeadLate-of (e ∷ es) h = omega arith

pub HeadLate-due : (t : Table) → HeadLate t → FirstLate (due t)
HeadLate-due [] h = tt
HeadLate-due (e ∷ es) h = omega arith

-- Every request is for a later tick.
abbrev pub AllLater : List Request → Type 0
AllLater [] = Unit
AllLater (r ∷ rs) = (0 < r.tim) × AllLater rs

-- The requests were served while the entries `zs` due now stood before `rest`.
pub record Served (zs rest : Table) (rs : List Request) : Type 0 where
  pub left : Table
  pub equation : serve rs (zs ++ rest) ≡ ok (zs ++ left)
  pub dues : due left ≡ insert_all rs (due rest)
  pub late : HeadLate left
  pub as_many : length left ≡ length rest + length rs

pub serve-Served :
    (zs rest : Table) (rs : List Request)
    → AllRipe zs
    → HeadLate rest
    → AllLater rs
    → length zs + length rest + length rs ≤ 19
    → Served zs rest rs
unfolding serve
serve-Served zs rest [] a h l n = record {
  left = rest;
  equation = refl;
  dues = refl;
  late = h;
  as_many = omega arith;
}
serve-Served zs rest (r ∷ rs) a h (t, l) n =
    let (q, eq, p) = place-Placed (0 + length zs) r.tim r.fun r.arg rest (omega arith) in
    let step = place-ripe 0 r.tim r.fun r.arg zs rest q a eq in
    let fits : ltb 19 (length (zs ++ q)) ≡ false = ground (arith, length-append zs q, p.one_more) in
    let done : timeout (zs ++ rest) r.fun r.arg r.tim ≡ ok (zs ++ q) =
      timeout-some (zs ++ rest) (zs ++ q) r.fun r.arg r.tim step ∙ rw fits refl in
    let now : 0 + r.tim ≡ r.tim = omega arith in
    let dues' = p.dues 0 ∙ ap (λ k. insert (deadline k r.arg r.fun) (due rest)) now in
    let late' = HeadLate-of q (
      rw dues'
        (FirstLate-insert (deadline r.tim r.arg r.fun) (due rest) t (HeadLate-due rest h))) in
    let k = serve-Served zs q rs a late' l (omega (arith, p.one_more)) in
    record {
      left = k.left;
      equation = rw (done, serve) k.equation;
      dues = k.dues ∙ ap (insert_all rs) dues';
      late = k.late;
      as_many = omega (arith, k.as_many, p.one_more);
    }

abbrev pub requests : Handlers → Table → List Request
requests hs [] = []
requests hs (e ∷ es) = hs e ++ requests hs es

pub insert_all-append :
    (rs ss : List Request) (ds : List Deadline)
    → insert_all (rs ++ ss) ds ≡ insert_all ss (insert_all rs ds)
insert_all-append [] ss ds = refl
insert_all-append (r ∷ rs) ss ds = insert_all-append rs ss (insert (deadline r.tim r.arg r.fun) ds)

pub get_elem?-append : (zs rest : Table) → get_elem? (zs ++ rest) (length zs) ≡ get_elem? rest 0
get_elem?-append [] rest = refl
get_elem?-append (z ∷ zs) rest = get_elem?-append zs rest

pub drop-append : (zs rest : Table) → drop (length zs) (zs ++ rest) ≡ rest
drop-append [] rest = refl
drop-append (z ∷ zs) rest = drop-append zs rest
