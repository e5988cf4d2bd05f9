-- ===== src/Snapshots/Lookups.antt =====
-- The lookups in the registry of src/lib/vfs/cbe/vfs.cc, against the list of its objects.
use cbe.Types.{u32}
use cbe.Prelude.{
  List, ℕ, Option, length, ◌+◌, ◌<◌, ◌≡◌, get_elem?, if◌then◌else◌, ◌^◌, none, ok, some, ◌∷◌, arith,
  throw, ◌==◌, false, invalid_path, suc, true, ◌∙◌, ◌⊎◌, [], ◌≤◌, refl, zero, Bool-cases, leb, inl,
  inr, Bool, ap, ◌||◌,
}
use cbe.Snapshots.{
  Registry, has, by_id, by_index, find_id, find_index, query_snapshots, entry, end_of_directory,
}
use cbe.Snapshots.Updates.{IsValid}

find_index-past :
    (idx i : ℕ) (xs : List ℕ) (found : Option ℕ)
    → idx < i
    → i + length xs < 2 ^ 32
    → find_index idx i xs found ≡ found
unfolding find_index
find_index-past idx i [] found p s = refl
find_index-past idx i (x ∷ xs) found p s =
    let ne : (i == idx) ≡ false = ground arith in
    let step : u32 (i + 1) ≡ suc i = omega arith in
    rw (ne, step) (find_index-past idx (suc i) xs found (omega arith) (omega arith))

find_index-get_elem? :
    (idx i : ℕ) (xs : List ℕ)
    → i + length xs < 2 ^ 32
    → find_index (i + idx) i xs none ≡ get_elem? xs idx
unfolding find_index
find_index-get_elem? idx i [] s = refl
find_index-get_elem? zero i (x ∷ xs) s =
    let same : (i == i + 0) ≡ true = ground arith in
    let step : u32 (i + 1) ≡ suc i = omega arith in
    rw (same, step) (find_index-past (i + 0) (suc i) xs (some x) (omega arith) (omega arith))
find_index-get_elem? (suc idx) i (x ∷ xs) s =
    let ne : (i == i + suc idx) ≡ false = ground arith in
    let step : u32 (i + 1) ≡ suc i = omega arith in
    let shift : i + suc idx ≡ suc i + idx = omega arith in
    rw (ne, step)
      (ap (λ k. find_index k (suc i) xs none) shift
        ∙ find_index-get_elem? idx (suc i) xs (omega arith))

get_elem?-inside : (xs : List ℕ) (i : ℕ) → i < length xs → (x : ℕ) × (get_elem? xs i ≡ some x)
get_elem?-inside [] i h = absurd (omega arith)
get_elem?-inside (x ∷ xs) zero h = (x, refl)
get_elem?-inside (x ∷ xs) (suc i) h = get_elem?-inside xs i (omega arith)

-- `by_index` finds the object at the index.
by_index-get_elem? :
    (r : Registry) (i x : ℕ)
    → length r.snap_fs < 2 ^ 32
    → i < length r.snap_fs
    → get_elem? r.snap_fs i ≡ some x
    → by_index r i ≡ ok x
unfolding by_index
by_index-get_elem? r i x s h e =
    let small : u32 i ≡ 0 + i = omega arith in
    let found : find_index (u32 i) 0 r.snap_fs none ≡ some x =
      ap (λ k. find_index k 0 r.snap_fs none) small
      ∙ find_index-get_elem? i 0 r.snap_fs (omega arith)
      ∙ e in
    rw (by_index, found) refl

-- Reading the directory of snapshots lists the objects of the registry one by one, and then its
-- end; the read of an entry never fails.
pub query_snapshots-lists :
    (r : Registry) (i : ℕ)
    → IsValid r
    → length r.snap_fs < 2 ^ 32
    → ((i < length r.snap_fs)
        × ((id : ℕ) × (get_elem? r.snap_fs i ≡ some id) × (query_snapshots r i ≡ entry i id)))
      ⊎ ((length r.snap_fs ≤ i) × (query_snapshots r i ≡ end_of_directory))
unfolding query_snapshots
query_snapshots-lists r i v s =
    let n : r.number_of_snapshots ≡ length r.snap_fs = v.counted ∙ omega arith in
    elim (Bool-cases (leb r.number_of_snapshots i)) [
      | inl past ↦ inr (ground arith, rw past refl)
      | inr within ↦
          let inside : i < length r.snap_fs = ground arith in
          let (id, e) = get_elem?-inside r.snap_fs i inside in
          inl (inside, (id, e, rw (within, by_index-get_elem? r i id s inside e) refl))
    ]

last_found :
    (id x : ℕ) (b : Bool) (found : Option ℕ)
    → (if b then some id else if x == id then some x else found)
      ≡ (if (x == id) || b then some id else found)
last_found id x b found = ground arith

find_id-found :
    (id : ℕ) (xs : List ℕ) (found : Option ℕ)
    → find_id id xs found ≡ (if has id xs then some id else found)
unfolding find_id
find_id-found id [] found = refl
find_id-found id (x ∷ xs) found =
    find_id-found id xs (if x == id then some x else found) ∙ last_found id x (has id xs) found

-- A snapshot is found by its id exactly if the registry has an object for it.
pub by_id-has :
    (r : Registry) (id : ℕ) → by_id r id ≡ (if has id r.snap_fs then ok id else throw invalid_path)
unfolding by_id
by_id-has r id =
    rw (by_id, find_id-found id r.snap_fs none)
      (elim (Bool-cases (has id r.snap_fs)) [
        | inl there ↦ rw there refl
        | inr missing ↦ rw missing refl
      ])
