-- ===== src/Snapshots/Paths.antt =====
-- Which paths name something in the directory of snapshots of src/lib/vfs/cbe/vfs.cc.
use cbe.Snapshots.Lookups.{by_id-has}
use cbe.Prelude.{
  List, ℕ, ◌≡◌, some, ◌++◌, ◌↔◌, ◌∷◌, Bool-cases, ◌==◌, inl, true, arith, [], ap, refl, sym, ◌∙◌,
  inr, none, Option, Option-cases, if◌then◌else◌, throw, invalid_path, ok,
}
use cbe.Snapshots.{
  Registry, has, open_snapshot, sub_path, pass_on, by_path, strip, passed_on, skip_slash, type_name,
  ends_element, starts_with_slash, not_passed, by_id,
}

strip-append :
    (name path : List ℕ) (rest : List ℕ) → strip name path ≡ some rest → path ≡ name ++ rest
strip-append [] path rest e = ground arith
strip-append (n ∷ ns) [] rest e = cc
strip-append (n ∷ ns) (c ∷ cs) rest e = elim (Bool-cases (n == c)) [
  | inl same ↦
      let m : n ≡ c = ground arith in
      ap (λ d. d ∷ cs) (sym m) ∙ ap (λ l. n ∷ l) (strip-append ns cs rest (rw same at e))
  | inr other ↦ absurd (let wrong : none ≡ some rest = rw other at e in cc)
]

strip-name : (name rest : List ℕ) → strip name (name ++ rest) ≡ some rest
strip-name [] rest = refl
strip-name (n ∷ ns) rest = let same : (n == n) ≡ true = ground arith in rw same (strip-name ns rest)

abbrev sub_of : Option (List ℕ) → Option (List ℕ)
sub_of o = elim o [ none ↦ none | some rest ↦ if ends_element rest then some rest else none ]

from_strip :
    (name s rest : List ℕ)
    → sub_of (strip name s) ≡ some rest
    → (s ≡ name ++ rest) × (ends_element rest ≡ true)
from_strip name s rest e = elim (Option-cases (strip name s)) [
  | inl nothing ↦ absurd (let wrong : none ≡ some rest = rw nothing at e in cc)
  | inr (r, found) ↦
      let e' : (if ends_element r then some r else none) ≡ some rest = rw found at e in
      elim (Bool-cases (ends_element r)) [
        | inl whole ↦
            let same : r ≡ rest = (let h : some r ≡ some rest = rw whole at e' in cc) in
            (
              strip-append name s rest (found ∙ ap (λ l. some l) same),
              ap ends_element (sym same) ∙ whole,
            )
        | inr cut ↦ absurd (let wrong : none ≡ some rest = rw cut at e' in cc)
      ]
]

to_strip :
    (name s rest : List ℕ)
    → (s ≡ name ++ rest) × (ends_element rest ≡ true)
    → sub_of (strip name s) ≡ some rest
to_strip name s rest (e, whole) = rw (e, strip-name name rest, whole) refl

-- A path belongs to the directory exactly if it is, behind at most one slash, the name of the
-- directory, and then ends or goes on with a slash; what remains is the rest of it.
pub sub_path_iff :
    (path rest : List ℕ)
    → (sub_path path ≡ some rest)
      ↔ ((skip_slash path ≡ type_name ++ rest) × (ends_element rest ≡ true))
unfolding sub_path
sub_path_iff path rest =
    (from_strip type_name (skip_slash path) rest, to_strip type_name (skip_slash path) rest)

pass_on-has :
    (ascii_to : List ℕ → ℕ) (reg : Registry) (p rest : List ℕ) (id : ℕ)
    → pass_on ascii_to reg p ≡ passed_on id rest
    → (p ≡ rest) × (id ≡ ascii_to (skip_slash p)) × (has id reg.snap_fs ≡ true)
unfolding pass_on by_path
pass_on-has ascii_to reg p rest id e =
    let n = ascii_to (skip_slash p) in
    elim (Bool-cases (has n reg.snap_fs)) [
      | inr missing ↦
          let none_found : by_id reg n ≡ throw invalid_path = by_id-has reg n ∙ (rw missing refl) in
          absurd (let wrong : not_passed ≡ passed_on id rest = rw (pass_on, none_found) at e in cc)
      | inl there ↦
          let found : by_id reg n ≡ ok n = by_id-has reg n ∙ (rw there refl) in
          let same : passed_on n p ≡ passed_on id rest = rw (pass_on, found) at e in
          let same_id : n ≡ id = cc in
          (cc, sym same_id, ap (λ k. has k reg.snap_fs) (sym same_id) ∙ there)
    ]

-- `open` is passed on to a snapshot, with the rest of the path, only for paths that are the
-- name of the directory behind at most one slash, and then a slash and more or nothing, and
-- only if the registry has an object for the number that is read behind that slash.
pub open_snapshot-passed :
    (ascii_to : List ℕ → ℕ) (reg : Registry) (path rest : List ℕ) (id : ℕ)
    → open_snapshot ascii_to reg path ≡ passed_on id rest
    → (skip_slash path ≡ type_name ++ rest)
      × (starts_with_slash rest ≡ true)
      × (id ≡ ascii_to (skip_slash rest))
      × (has id reg.snap_fs ≡ true)
unfolding open_snapshot pass_on by_path
open_snapshot-passed ascii_to reg path rest id e = elim (Option-cases (sub_path path)) [
  | inl nothing ↦
      absurd (let wrong : not_passed ≡ passed_on id rest = rw (open_snapshot, nothing) at e in cc)
  | inr (r, found) ↦
      let e' : (if starts_with_slash r then pass_on ascii_to reg r else not_passed)
          ≡ passed_on id rest =
        rw (open_snapshot, found) at e in
      elim (Bool-cases (starts_with_slash r)) [
        | inr plain ↦ absurd (let wrong : not_passed ≡ passed_on id rest = rw plain at e' in cc)
        | inl slashed ↦
            let (same, by_number, there) = pass_on-has ascii_to reg r rest id (rw slashed at e') in
            (
              ((sub_path_iff path rest).0 (found ∙ ap (λ l. some l) same)).0,
              ap starts_with_slash (sym same) ∙ slashed,
              by_number ∙ ap (λ l. ascii_to (skip_slash l)) same,
              there,
            )
      ]
]
