-- ===== src/Snapshots.antt =====
-- src/lib/vfs/cbe/vfs.cc, class `Snapshots_file_system`: the directory of snapshots, one entry
-- for each snapshot that the CBE has.
--
-- A `Snapshot_file_system` is known by its id, a 32-bit number; what it does with a path is a
-- matter of Genode's directory file system, so a call that is passed on to it is a value that
-- says so. Genode's registry of objects is a list, in which a new object takes the place that
-- `enter` gives it. Paths are lists of characters without the null at the end, and `ascii_to` is
-- Genode's reading of a number.
pub mod Updates
pub mod Lookups
pub mod Paths
pub mod Directory
pub mod Handles
pub mod Listings
pub mod Tests
use cbe.Wrapper.Handle.{active_snapshot_ids}
use cbe.Types.{u32}
use cbe.Prelude.{
  List, ℕ, Bool, Option, Result, if◌then◌else◌, ok, ◌∷◌, [], false, leb, none, some, throw, true,
  ◌==◌, invalid_index, invalid_path, ◌+◌, ◌||◌, ◌>>=◌, ◌^◌, ◌-◌,
}
use cbe.Interfaces.{Library, Crypto, BlockFile}
use cbe.Wrapper.{Wrapper}

pub record Registry : Type 0 where
  pub number_of_snapshots : ℕ
  pub snap_fs : List ℕ

-- `find_old` over all objects
abbrev pub has : ℕ → List ℕ → Bool
has id [] = false
has id (x ∷ xs) = (x == id) || has id xs

module _ (enter : ℕ → List ℕ → List ℕ) where
  unfoldable pub alloc : ℕ → Registry → Registry
  alloc id r = if id == 0 then r else if has id r.snap_fs then r else record {
    number_of_snapshots = u32 (r.number_of_snapshots + 1);
    snap_fs = enter id r.snap_fs;
  }

  -- the loop that allocates the new ones
  unfoldable pub alloc_new : List ℕ → Registry → Registry
  unfolding alloc
  alloc_new [] r = r
  alloc_new (v ∷ vs) r = alloc_new vs (alloc (u32 v) r)

-- the loop of `find_stale`
unfoldable pub is_stale : ℕ → List ℕ → Bool
is_stale id [] = true
is_stale id (v ∷ vs) =
    let rest = is_stale id vs in if u32 v == 0 then rest else if id == u32 v then false else rest

-- `find_stale` over all objects, with the number that is counted down
unfoldable pub destroy_stale : List ℕ → List ℕ → ℕ → Registry
unfolding is_stale
destroy_stale list [] n = record { number_of_snapshots = n; snap_fs = [] }
destroy_stale list (x ∷ xs) n =
    let stale = is_stale x list in
    let rest = destroy_stale list xs (if stale then u32 (n + 2 ^ 32 - 1) else n) in
    if stale then rest else record rest { snap_fs = x ∷ rest.snap_fs }

-- `update`, with the ids that the CBE has
unfoldable pub update_with : (ℕ → List ℕ → List ℕ) → List ℕ → Registry → Registry
unfolding alloc_new destroy_stale
update_with enter list r =
    let new = alloc_new enter list r in destroy_stale list new.snap_fs new.number_of_snapshots

module _ {L C H : Type 0} (lib : Library L) (cry : Crypto C) (fs : BlockFile H) where
  -- `Snapshot_registry::update`
  unfoldable pub update :
      (ℕ → List ℕ → List ℕ) → ℕ → Registry → Wrapper L C H → Result (Registry × Wrapper L C H)
  unfolding active_snapshot_ids update_with
  update enter fuel r w =
      active_snapshot_ids lib cry fs fuel w >>= λ a. ok (update_with enter a.0 r, a.1)

-- `lookup` of `by_index`: the position that is counted, and what was found so far
unfoldable pub find_index : ℕ → ℕ → List ℕ → Option ℕ → Option ℕ
find_index idx i [] found = found
find_index idx i (x ∷ xs) found =
    find_index idx (u32 (i + 1)) xs (if i == idx then some x else found)

unfoldable pub by_index : Registry → ℕ → Result ℕ
unfolding find_index
by_index r idx = elim (find_index (u32 idx) 0 r.snap_fs none) [
  | some id ↦ ok id
  | none ↦ throw invalid_index
]

-- `lookup` of `_by_id`
unfoldable pub find_id : ℕ → List ℕ → Option ℕ → Option ℕ
find_id id [] found = found
find_id id (x ∷ xs) found = find_id id xs (if x == id then some x else found)

unfoldable pub by_id : Registry → ℕ → Result ℕ
unfolding find_id
by_id r id = elim (find_id id r.snap_fs none) [ some found ↦ ok found | none ↦ throw invalid_path ]

-- What a directory handle reads: an entry, the end of the directory, or `READ_ERR_INVALID`.
pub data Listing : Type 0 where
  entry : ℕ → ℕ → Listing
  end_of_directory : Listing
  read_invalid : Listing

-- `_query_snapshots`
unfoldable pub query_snapshots : Registry → ℕ → Listing
unfolding by_index
query_snapshots r index =
    if leb r.number_of_snapshots index
    then end_of_directory
    else elim (by_index r index) [ ok id ↦ entry index id | throw e ↦ read_invalid ]

-- the character `/`
abbrev pub slash : ℕ
slash = 47

-- the characters of `snapshots`, the type name
abbrev pub type_name : List ℕ
type_name = 115 ∷ 110 ∷ 97 ∷ 112 ∷ 115 ∷ 104 ∷ 111 ∷ 116 ∷ 115 ∷ []

abbrev pub skip_slash : List ℕ → List ℕ
skip_slash [] = []
skip_slash (c ∷ cs) = if c == slash then cs else c ∷ cs

-- `strcmp` on the length of the name, and the rest of the path behind it
abbrev pub strip : List ℕ → List ℕ → Option (List ℕ)
strip [] path = some path
strip (n ∷ ns) [] = none
strip (n ∷ ns) (c ∷ cs) = if n == c then strip ns cs else none

-- the end of the first path element
abbrev pub ends_element : List ℕ → Bool
ends_element [] = true
ends_element (c ∷ cs) = c == slash

-- `_sub_path`
unfoldable pub sub_path : List ℕ → Option (List ℕ)
sub_path path = elim (strip type_name (skip_slash path)) [
  | none ↦ none
  | some rest ↦ if ends_element rest then some rest else none
]

-- `by_path`, which no caller gives a null pointer
unfoldable pub by_path : (List ℕ → ℕ) → Registry → List ℕ → Result ℕ
unfolding by_id
by_path ascii_to r path = by_id r (ascii_to (skip_slash path))

abbrev pub starts_with_slash : List ℕ → Bool
starts_with_slash [] = false
starts_with_slash (c ∷ cs) = c == slash

-- A call that is refused, or passed on to the file system of a snapshot with the rest of the
-- path.
pub data Passed : Type 0 where
  not_passed : Passed
  passed_on : ℕ → List ℕ → Passed

unfoldable pub pass_on : (List ℕ → ℕ) → Registry → List ℕ → Passed
unfolding by_path
pass_on ascii_to r path = elim (by_path ascii_to r path) [
  | ok id ↦ passed_on id path
  | throw e ↦ not_passed
]

-- `open`
unfoldable pub open_snapshot : (List ℕ → ℕ) → Registry → List ℕ → Passed
unfolding sub_path pass_on
open_snapshot ascii_to r path = elim (sub_path path) [
  | none ↦ not_passed
  | some rest ↦ if starts_with_slash rest then pass_on ascii_to r rest else not_passed
]
