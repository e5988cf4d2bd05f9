-- ===== src/Snapshots/Listings.antt =====
-- Listing the directory of snapshots of src/lib/vfs/cbe/vfs.cc, from opening it to its last
-- entry.
use cbe.Snapshots.Lookups.{query_snapshots-lists}
use native.Mathlib.Nat.{mul-div_cancel}
use cbe.Prelude.{>>=-eq-ok, subst, ap, ok-injective, refl, ◌∙◌}
use cbe.Wrapper.Handle.{active_snapshot_ids, handle_frontend_request}
use cbe.Prelude.{
  ℕ, length, List, ◌<◌, ◌^◌, ◌≤◌, get_elem?, ◌≡◌, some, false, ◌||◌, ◌*◌, true, ◌⊎◌, ok, ◌/◌, ltb,
  arith,
}
use cbe.Snapshots.Directory.{read_directory, opendir, Opened, root_dir, top_dir, directory_handle}
use cbe.Interfaces.{Library, Crypto, BlockFile}
use cbe.Snapshots.{Registry, has, entry, end_of_directory, update, update_with}
use cbe.Snapshots.Updates.{IsValid, Enters, wanted, update_with-IsValid, update_with-has}
use cbe.Wrapper.{Wrapper}

module _ {L C H : Type 0} (lib : Library L) (cry : Crypto C) (fs : BlockFile H)
    (enter : ℕ → List ℕ → List ℕ) (enters : Enters enter) (ascii_to : List ℕ → ℕ) where
  update-current :
      (fuel : ℕ) (r : Registry) (w : Wrapper L C H) (u : Registry × Wrapper L C H)
      → IsValid r
      → update lib cry fs enter fuel r w ≡ ok u
      → IsValid u.0
        × ((id : ℕ) → has id u.0.snap_fs ≡ wanted id (Library.active_snapshot_ids lib w.cbe))
  unfolding update active_snapshot_ids
  update-current fuel r w u v e =
      let ids = Library.active_snapshot_ids lib w.cbe in
      let (a, ran, q) = >>=-eq-ok (active_snapshot_ids lib cry fs fuel w) _ e in
      let (z, driven, q') = >>=-eq-ok (handle_frontend_request lib cry fs fuel w) _ ran in
      let listed : ids ≡ a.0 = ap (λ (y : List ℕ × Wrapper L C H). y.0) (ok-injective q') in
      let made : update_with enter ids r ≡ u.0 =
        ap (λ l. update_with enter l r) listed
        ∙ ap (λ (y : Registry × Wrapper L C H). y.0) (ok-injective q) in
      (
        subst (λ y. IsValid y) made (update_with-IsValid enter enters ids r v),
        λ id.
            subst (λ y. has id y.snap_fs ≡ wanted id ids) made
              (update_with-has enter enters ids r id),
      )

  -- With a list of objects that keeps what is entered, a call that opens the directory of
  -- snapshots by either path, and returns, brings a well-formed registry up to date: it then
  -- has an object for every snapshot id other than 0 that the CBE reports, cut to 32 bits, and
  -- for no other, and stays well-formed.
  pub opendir-updates :
      (fuel : ℕ) (path : List ℕ) (r : Registry) (w : Wrapper L C H)
      (t : Opened × Registry × Wrapper L C H)
      → IsValid r
      → (root_dir path || top_dir path) ≡ true
      → opendir lib cry fs enter ascii_to fuel path false r w ≡ ok t
      → (t.0 ≡ directory_handle (top_dir path))
        × IsValid t.1
        × ((id : ℕ) → has id t.1.snap_fs ≡ wanted id (Library.active_snapshot_ids lib w.cbe))
  unfolding opendir update active_snapshot_ids
  opendir-updates fuel path r w t v p e =
      let (u, ran, q) = >>=-eq-ok (update lib cry fs enter fuel r w) _ (rw (opendir, p) at e) in
      subst
        (λ (z : Opened × Registry × Wrapper L C H).
          (z.0 ≡ directory_handle (top_dir path))
          × IsValid z.1
          × ((id : ℕ) → has id z.1.snap_fs ≡ wanted id (Library.active_snapshot_ids lib w.cbe)))
        (ok-injective q)
        (refl, (update-current fuel r w u v ran).0, (update-current fuel r w u v ran).1)

-- With a buffer that has room for an entry and fewer than 2^32 objects, a handle on the
-- directory of snapshots whose position is that of the entry with index `i` reads
-- the object at `i` of a well-formed registry, or the end of the directory behind the last one.
pub read_directory-lists :
    (size : ℕ) (r : Registry) (i count : ℕ)
    → IsValid r
    → length r.snap_fs < 2 ^ 32
    → 0 < size
    → size ≤ count
    → ((i < length r.snap_fs)
        × ((id : ℕ) × (get_elem? r.snap_fs i ≡ some id)
            × (read_directory size r false (i * size) count ≡ entry i id)))
      ⊎ ((length r.snap_fs ≤ i) × (read_directory size r false (i * size) count ≡ end_of_directory))
unfolding read_directory
read_directory-lists size r i count v s p enough =
    let index : i * size / size ≡ i = mul-div_cancel i p in
    let fits : ltb count size ≡ false = ground arith in
    rw (fits, index) (query_snapshots-lists r i v s)
