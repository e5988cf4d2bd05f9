-- ===== src/Tester/Snapshots.antt =====
-- src/app/cbe_tester/main.cc, classes `Created_snapshot` and `Created_snapshots_tree`: the
-- snapshots that the tests created, by the id that the test gives them.
--
-- Genode's `Avl_tree` is what the source sees of it, a tree with the children `child (false)` and
-- `child (true)`, here left and right; how it inserts, removes and balances is a parameter.
use cbe.Prelude.{
  ℕ, ◌==◌, ltb, if◌then◌else◌, Result, ok, throw, failed_to_find_created_snapshot, if_elim, ◌<◌,
  ◌≡◌, ◌≤◌, arith, inl, ◌≢◌, ◌⊎◌, inr, refl,
}

pub record Snapshot : Type 0 where
  pub id : ℕ
  pub generation : ℕ

pub data Tree : Type 0 where
  leaf : Tree
  node : Tree → Snapshot → Tree → Tree

pub record Avl : Type 0 where
  pub insert : Snapshot → Tree → Tree
  pub remove : Snapshot → Tree → Tree

-- `higher` puts the lower ids to the side `true`, where they are looked for.
unfoldable pub find_by_id : ℕ → Tree → Result Snapshot
find_by_id id leaf = throw failed_to_find_created_snapshot
find_by_id id (node left snap right) =
    let in_left = find_by_id id left in
    let in_right = find_by_id id right in
    if id == snap.id then ok snap else if ltb id snap.id then in_right else in_left

-- A snapshot is in the tree.
abbrev pub In : Snapshot → Tree → Type 0
In s leaf = ⊥
In s (node left snap right) = (s ≡ snap) ⊎ In s left ⊎ In s right

-- The ids at one side of a node are at least its id, those at the other at most.
abbrev pub IsSearch : Tree → Type 0
IsSearch leaf = Unit
IsSearch (node left snap right) =
    ((s : Snapshot) → In s left → snap.id ≤ s.id)
    × ((s : Snapshot) → In s right → s.id ≤ snap.id)
    × IsSearch left
    × IsSearch right

-- What looking for an id comes to: a snapshot of the tree with that id, or there is none.
abbrev pub Looked : ℕ → Tree → Result Snapshot → Type 0
Looked id t (ok s) = (s.id ≡ id) × In s t
Looked id t (throw e) =
    (e ≡ failed_to_find_created_snapshot) × ((s : Snapshot) → In s t → s.id ≢ id)

wider :
    (id : ℕ) (small big : Tree) (r : Result Snapshot)
    → ((s : Snapshot) → In s small → In s big)
    → ((s : Snapshot) → In s big → s.id ≡ id → In s small)
    → Looked id small r
    → Looked id big r
wider id small big (ok s) into out h = (h.0, into s h.1)
wider id small big (throw e) into out h = (h.0, λ s i p. h.1 s (out s i p) p)

-- An id below, or above, that of a node is at one side only.
module _ (id : ℕ) (left : Tree) (snap : Snapshot) (right : Tree)
    (h : IsSearch (node left snap right)) where
  lower : id < snap.id → (s : Snapshot) → In s (node left snap right) → s.id ≡ id → In s right
  lower lt s (inl e) p = absurd (ground arith)
  lower lt s (inr (inl i)) p = absurd (omega (arith, h.0 s i))
  lower lt s (inr (inr i)) p = i

  upper : snap.id < id → (s : Snapshot) → In s (node left snap right) → s.id ≡ id → In s left
  upper lt s (inl e) p = absurd (ground arith)
  upper lt s (inr (inl i)) p = i
  upper lt s (inr (inr i)) p = absurd (omega (arith, h.1 s i))

-- In a tree in the order in which Genode's tree keeps it, with ids that may come more than once: an
-- id that is looked up yields a snapshot of the tree with that id, and throws exactly if there is
-- none.
pub find_by_id-Looked : (id : ℕ) (t : Tree) → IsSearch t → Looked id t (find_by_id id t)
unfolding find_by_id
find_by_id-Looked id leaf h = (refl, λ s i p. i)
find_by_id-Looked id (node left snap right) h =
    let whole = node left snap right in
    if_elim (Looked id whole) (id == snap.id) _ _ (λ e. (ground arith, inl refl))
      λ e.
        if_elim (Looked id whole) (ltb id snap.id) _ _
          (λ lt.
            wider id right whole _ (λ s i. inr (inr i)) (lower id left snap right h (ground arith))
              (find_by_id-Looked id right h.3))
          (λ ge.
            wider id left whole _ (λ s i. inr (inl i)) (upper id left snap right h (ground arith))
              (find_by_id-Looked id left h.2))
