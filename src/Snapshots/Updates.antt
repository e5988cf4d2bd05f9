-- ===== src/Snapshots/Updates.antt =====
-- What `Snapshot_registry::update` of src/lib/vfs/cbe/vfs.cc makes of the registry.
use cbe.Types.{u32}
use cbe.Prelude.{
  List, ℕ, ◌≡◌, Bool, not, true, ◌&&◌, ◌==◌, arith, length, map, ◌+◌, ◌||◌, ◌∷◌, [], suc, false,
  refl, Bool-cases, subst, ◌^◌, inl, ◌-◌, ◌∙◌, ap, inr,
}
use cbe.Snapshots.{Registry, has, destroy_stale, is_stale, alloc, alloc_new, update_with}

-- The ids that the CBE has are those that are not 0 in its list.
abbrev pub wanted : ℕ → List ℕ → Bool
wanted id list = not (id == 0) && has id (map u32 list)

abbrev pub distinct : List ℕ → Bool
distinct [] = true
distinct (x ∷ xs) = not (has x xs) && distinct xs

-- Genode's registry: a new object is one of its elements, and the others stay.
pub record Enters (enter : ℕ → List ℕ → List ℕ) : Type 0 where
  pub enter_has : (i y : ℕ) (l : List ℕ) → has y (enter i l) ≡ ((i == y) || has y l)
  pub enter_length : (i : ℕ) (l : List ℕ) → length (enter i l) ≡ suc (length l)
  pub enter_distinct :
      (i : ℕ) (l : List ℕ) → distinct l ≡ true → has i l ≡ false → distinct (enter i l) ≡ true

-- Every snapshot has one object, and the number is that of the objects.
pub record IsValid (r : Registry) : Type 0 where
  pub counted : r.number_of_snapshots ≡ u32 (length r.snap_fs)
  pub once : distinct r.snap_fs ≡ true

is_stale-wanted : (id : ℕ) (list : List ℕ) → is_stale id list ≡ not (wanted id list)
unfolding is_stale
is_stale-wanted id [] = ground arith
is_stale-wanted id (v ∷ vs) = ground (arith, is_stale-wanted id vs)

-- An object that goes was not wanted.
passed_over :
    (y x : ℕ) (list : List ℕ) (b : Bool)
    → is_stale x list ≡ true
    → (b && not (is_stale y list)) ≡ (((x == y) || b) && not (is_stale y list))
passed_over y x list b stale = elim (Bool-cases (x == y)) [
  | inl same ↦
      rw (let e : x ≡ y = ground arith in subst (λ z. is_stale z list ≡ true) e stale)
        (ground arith)
  | inr other ↦ ground arith
]

kept :
    (y x : ℕ) (list : List ℕ) (b : Bool)
    → is_stale x list ≡ false
    → ((x == y) || (b && not (is_stale y list))) ≡ (((x == y) || b) && not (is_stale y list))
kept y x list b fresh = elim (Bool-cases (x == y)) [
  | inl same ↦
      rw (let e : x ≡ y = ground arith in subst (λ z. is_stale z list ≡ false) e fresh)
        (ground arith)
  | inr other ↦ ground arith
]

one_less : (n k l : ℕ) → n ≡ u32 (k + suc l) → u32 (n + 2 ^ 32 - 1) ≡ u32 (k + l)
one_less n k l e = omega arith

destroy-has :
    (y : ℕ) (list xs : List ℕ) (n : ℕ)
    → has y (destroy_stale list xs n).snap_fs ≡ (has y xs && not (is_stale y list))
unfolding destroy_stale
destroy-has y list [] n = refl
destroy-has y list (x ∷ xs) n = elim (Bool-cases (is_stale x list)) [
  | inl stale ↦
      rw stale
        (destroy-has y list xs (u32 (n + 2 ^ 32 - 1)) ∙ passed_over y x list (has y xs) stale)
  | inr fresh ↦
      rw fresh (ap (λ b. (x == y) || b) (destroy-has y list xs n) ∙ kept y x list (has y xs) fresh)
]

destroy-distinct :
    (list xs : List ℕ) (n : ℕ)
    → distinct xs ≡ true
    → distinct (destroy_stale list xs n).snap_fs ≡ true
unfolding destroy_stale
destroy-distinct list [] n d = refl
destroy-distinct list (x ∷ xs) n d = elim (Bool-cases (is_stale x list)) [
  | inl stale ↦ rw stale (destroy-distinct list xs (u32 (n + 2 ^ 32 - 1)) (ground arith))
  | inr fresh ↦ rw fresh (
      rw (destroy-has x list xs n)
        (let rest = destroy-distinct list xs n (ground arith) in ground arith))
]

destroy-counted :
    (list xs : List ℕ) (n k : ℕ)
    → n ≡ u32 (k + length xs)
    → let r = destroy_stale list xs n in r.number_of_snapshots ≡ u32 (k + length r.snap_fs)
unfolding destroy_stale
destroy-counted list [] n k e = e
destroy-counted list (x ∷ xs) n k e = elim (Bool-cases (is_stale x list)) [
  | inl stale ↦
      rw stale (destroy-counted list xs (u32 (n + 2 ^ 32 - 1)) k (one_less n k (length xs) e))
  | inr fresh ↦ rw fresh (
      let rest = destroy-counted list xs n (suc k) (e ∙ ap u32 (omega arith)) in
      rest ∙ ap u32 (omega arith))
]

one_more : (n l : ℕ) → n ≡ u32 l → u32 (n + 1) ≡ u32 (suc l)
one_more n l e = omega arith

already :
    (y id : ℕ) (l : List ℕ) → has id l ≡ true → has y l ≡ ((not false && (id == y)) || has y l)
already y id l old = elim (Bool-cases (id == y)) [
  | inl same ↦
      rw (let e : id ≡ y = ground arith in subst (λ z. has z l ≡ true) e old) (ground arith)
  | inr other ↦ rw other refl
]

-- What one more value of the list adds to the ids that are wanted.
regroup :
    (w : Bool) (i y : ℕ) (m b : Bool)
    → w ≡ (not (y == 0) && m)
    → (w || ((not (i == 0) && (i == y)) || b)) ≡ ((not (y == 0) && ((i == y) || m)) || b)
regroup w i y m b e = ground arith

absorb : (w b : Bool) → ((w || b) && not (not w)) ≡ w
absorb w b = ground arith

destroy-count :
    (list xs : List ℕ) (n : ℕ)
    → n ≡ u32 (length xs)
    → let r = destroy_stale list xs n in r.number_of_snapshots ≡ u32 (length r.snap_fs)
destroy-count list xs n e =
    let r = destroy_stale list xs n in
    destroy-counted list xs n 0 (e ∙ ap u32 (omega arith))
    ∙ (let none_before : 0 + length r.snap_fs ≡ length r.snap_fs = omega arith in
        ap u32 none_before)

module _ (enter : ℕ → List ℕ → List ℕ) (enters : Enters enter) where
  alloc-has :
      (y id : ℕ) (r : Registry)
      → has y (alloc enter id r).snap_fs ≡ ((not (id == 0) && (id == y)) || has y r.snap_fs)
  unfolding alloc
  alloc-has y id r = elim (Bool-cases (id == 0)) [
    | inl null ↦ rw null refl
    | inr real ↦ elim (Bool-cases (has id r.snap_fs)) [
      | inl old ↦ rw (real, old) (already y id r.snap_fs old)
      | inr new ↦ rw (real, new) (enters.enter_has id y r.snap_fs)
    ]
  ]

  alloc-IsValid : (id : ℕ) (r : Registry) → IsValid r → IsValid (alloc enter id r)
  unfolding alloc
  alloc-IsValid id r v = elim (Bool-cases (id == 0)) [
    | inl null ↦ rw null v
    | inr real ↦ elim (Bool-cases (has id r.snap_fs)) [
      | inl old ↦ rw (real, old) v
      | inr new ↦
          rw (real, new)
            (record {
              counted =
                  rw (enters.enter_length id r.snap_fs)
                    (one_more r.number_of_snapshots _ v.counted);
              once = enters.enter_distinct id r.snap_fs v.once new;
            })
    ]
  ]

  alloc_new-IsValid : (vs : List ℕ) (r : Registry) → IsValid r → IsValid (alloc_new enter vs r)
  unfolding alloc_new
  alloc_new-IsValid [] r v = v
  alloc_new-IsValid (i ∷ vs) r v =
      alloc_new-IsValid vs (alloc enter (u32 i) r) (alloc-IsValid (u32 i) r v)

  alloc_new-has :
      (y : ℕ) (vs : List ℕ) (r : Registry)
      → has y (alloc_new enter vs r).snap_fs ≡ (wanted y vs || has y r.snap_fs)
  unfolding alloc_new
  alloc_new-has y [] r = ground arith
  alloc_new-has y (i ∷ vs) r =
      alloc_new-has y vs (alloc enter (u32 i) r)
      ∙ ap (λ b. wanted y vs || b) (alloc-has y (u32 i) r)
      ∙ regroup (wanted y vs) (u32 i) y (has y (map u32 vs)) (has y r.snap_fs) refl

  -- With a list of objects that keeps what is entered, there is an object after an update for
  -- each snapshot that the CBE has, and for no other, whatever the registry held before.
  pub update_with-has :
      (list : List ℕ) (r : Registry) (id : ℕ)
      → has id (update_with enter list r).snap_fs ≡ wanted id list
  unfolding update_with
  update_with-has list r id =
      let new = alloc_new enter list r in
      destroy-has id list new.snap_fs new.number_of_snapshots
      ∙ ap (λ b. b && not (is_stale id list)) (alloc_new-has id list r)
      ∙ ap (λ b. (wanted id list || has id r.snap_fs) && not b) (is_stale-wanted id list)
      ∙ absorb (wanted id list) (has id r.snap_fs)

  -- With a list of objects that keeps what is entered, an update of a well-formed registry keeps
  -- the objects distinct, and their number, cut to 32 bits, what the registry says.
  pub update_with-IsValid :
      (list : List ℕ) (r : Registry) → IsValid r → IsValid (update_with enter list r)
  unfolding update_with
  update_with-IsValid list r v =
      let new = alloc_new enter list r in
      let v' : IsValid new = alloc_new-IsValid list r v in
      record {
        counted = destroy-count list new.snap_fs new.number_of_snapshots v'.counted;
        once = destroy-distinct list new.snap_fs new.number_of_snapshots v'.once;
      }
