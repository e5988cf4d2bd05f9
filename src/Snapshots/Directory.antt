-- ===== src/Snapshots/Directory.antt =====
-- src/lib/vfs/cbe/vfs.cc, the directory service of `Snapshots_file_system`, and what its
-- directory handles read.
--
-- The size of a directory entry is Genode's, and a parameter.
use cbe.Prelude.{none, some, not, throw}
use cbe.Interfaces.{Library, Crypto, BlockFile}
use cbe.Prelude.{
  Bool, List, ℕ, Option, if◌then◌else◌, true, ◌/◌, ltb, ◌==◌, ◌∷◌, Result, [], false, ok, ◌&&◌,
  ◌>>=◌, ◌||◌,
}
use cbe.Snapshots.{
  Registry, Listing, entry, end_of_directory, read_invalid, slash, sub_path, query_snapshots,
  type_name, update, by_path, starts_with_slash,
}
use cbe.Wrapper.{Wrapper}

abbrev pub same_path : List ℕ → List ℕ → Bool
same_path [] [] = true
same_path (a ∷ p) (b ∷ q) = (a == b) && same_path p q
same_path _ _ = false

-- `_root_dir` and `_top_dir`
abbrev pub root_dir : List ℕ → Bool
root_dir path = same_path path (slash ∷ type_name)

abbrev pub top_dir : List ℕ → Bool
top_dir path = same_path path (slash ∷ [])

-- `_query_root`: the one entry is the directory of snapshots, whose entry has no id.
unfoldable pub query_root : ℕ → Listing
query_root index = if index == 0 then entry 0 0 else end_of_directory

-- `Dir_vfs_handle::read`; the flag is the handle's `_root_dir`
unfoldable pub read_directory : ℕ → Registry → Bool → ℕ → ℕ → Listing
unfolding query_root
read_directory dirent_size r is_root seek count =
    let index = seek / dirent_size in
    if ltb count dirent_size
    then read_invalid
    else if is_root
    then query_root index
    else query_snapshots r index

-- What `opendir` hands out: a handle on this directory, or one that a snapshot's file system
-- opens.
pub data Opened : Type 0 where
  permission_denied lookup_failed : Opened
  directory_handle : Bool → Opened
  snapshot_handle : ℕ → List ℕ → Opened

unfoldable pub opendir_below : (List ℕ → ℕ) → Registry → List ℕ → Opened
opendir_below ascii_to r path = elim (sub_path path) [
  | none ↦ lookup_failed
  | some rest ↦ elim (by_path ascii_to r rest) [
    | ok id ↦ snapshot_handle id rest
    | throw e ↦ lookup_failed
  ]
]

-- What `stat` says: no such entry, this directory, or what a snapshot's file system says.
pub data Statistics : Type 0 where
  no_entry this_directory : Statistics
  statistics_of : ℕ → List ℕ → Statistics

abbrev pub is_empty : List ℕ → Bool
is_empty [] = true
is_empty (c ∷ cs) = false

unfoldable pub stat : (List ℕ → ℕ) → Registry → List ℕ → Statistics
stat ascii_to r path = elim (sub_path path) [
  | none ↦ no_entry
  | some rest ↦
      if is_empty rest || top_dir rest
      then this_directory
      else if not (starts_with_slash rest)
      then no_entry
      else elim (by_path ascii_to r rest) [ ok id ↦ statistics_of id rest | throw e ↦ no_entry ]
]

-- `directory`: true of this directory, else what the snapshot's file system says, which `below`
-- is.
unfoldable pub directory : (List ℕ → ℕ) → (ℕ → List ℕ → Bool) → Registry → List ℕ → Bool
directory ascii_to below r path = if root_dir path then true else elim (sub_path path) [
  | none ↦ false
  | some rest ↦ elim (by_path ascii_to r rest) [ ok id ↦ below id rest | throw e ↦ false ]
]

-- `leaf_path`, with the answer of the snapshot's file system, which may be a null pointer
unfoldable pub leaf_path :
    (List ℕ → ℕ) → (ℕ → List ℕ → Option (List ℕ)) → Registry → List ℕ → Option (List ℕ)
leaf_path ascii_to below r path = elim (sub_path path) [
  | none ↦ none
  | some rest ↦
      if is_empty rest
      then some rest
      else elim (by_path ascii_to r rest) [ ok id ↦ below id rest | throw e ↦ none ]
]

module _ {L C H : Type 0} (lib : Library L) (cry : Crypto C) (fs : BlockFile H)
    (enter : ℕ → List ℕ → List ℕ) (ascii_to : List ℕ → ℕ) where
  -- `opendir`, which brings the registry up to date when this directory is opened
  unfoldable pub opendir :
      ℕ → List ℕ → Bool → Registry → Wrapper L C H → Result (Opened × Registry × Wrapper L C H)
  unfolding opendir_below
  opendir fuel path create r w =
      let top = top_dir path in
      if create
      then ok (permission_denied, r, w)
      else if root_dir path || top
      then (update lib cry fs enter fuel r w >>= λ u. ok (directory_handle top, u.0, u.1))
      else ok (opendir_below ascii_to r path, r, w)

  unfoldable pub entries_below : (ℕ → List ℕ → ℕ) → Registry → List ℕ → ℕ
  entries_below below r path = elim (sub_path path) [
    | none ↦ 0
    | some rest ↦ elim (by_path ascii_to r rest) [ ok id ↦ below id rest | throw e ↦ 0 ]
  ]

  -- `num_dirent`
  unfoldable pub num_dirent :
      (ℕ → List ℕ → ℕ)
      → ℕ
      → List ℕ
      → Registry
      → Wrapper L C H
      → Result (ℕ × Registry × Wrapper L C H)
  unfolding entries_below
  num_dirent below fuel path r w = update lib cry fs enter fuel r w >>= λ u. ok (
    if top_dir path || root_dir path then u.0.number_of_snapshots else entries_below below u.0 path,
    u.0,
    u.1,
  )
