-- ===== src/Snapshots/Tests.antt =====
-- The directory of snapshots of src/lib/vfs/cbe/vfs.cc at a small registry, and the theorems
-- there.
use cbe.Snapshots.Listings.{read_directory-lists, opendir-updates}
use cbe.Wrapper.Handle.{active_snapshot_ids}
use cbe.Types.{Request}
use cbe.Wrapper.{Wrapper, fresh_wrapper}
use cbe.Snapshots.Directory.{
  Opened, directory_handle, lookup_failed, opendir, read_directory, top_dir,
}
use cbe.Interfaces.Samples.{Disk, prompt_library, quiet_crypto, disk_file}
use cbe.Interfaces.{Buffers, Library}
use cbe.Snapshots.Paths.{open_snapshot-passed, sub_path_iff}
use cbe.Snapshots.Lookups.{by_id-has}
use cbe.Prelude.{
  List, refl, ◌<◌, ◌∷◌, [], arith, ℕ, ◌≡◌, get_elem?, if◌then◌else◌, some, ◌-◌, ok, ◌++◌, ◌↔◌,
  throw, invalid_path, true, ◌⊎◌, ◌≤◌, Result, Bool, false, ◌*◌,
}
use cbe.Snapshots.{
  Registry, has, by_id, open_snapshot, sub_path, update_with, skip_slash, type_name, ends_element,
  entry, starts_with_slash, end_of_directory, update, slash,
}
use cbe.Snapshots.Updates.{IsValid, Enters, update_with-IsValid, wanted, update_with-has}

-- A registry that puts new objects in front.
cons-Enters : Enters (λ i l. i ∷ l)
cons-Enters = record {
  enter_has = λ i y l. refl;
  enter_length = λ i l. refl;
  enter_distinct = λ i l d n. ground arith;
}

abbrev registry : Registry
registry = record { number_of_snapshots = 2; snap_fs = 3 ∷ 5 ∷ [] }

registry-IsValid : IsValid registry
registry-IsValid = record { counted = refl; once = refl }

-- The CBE has the snapshots 5 and 8: the object of 3 goes, and one for 8 comes.
abbrev active : List ℕ
active = 0 ∷ 5 ∷ 8 ∷ 0 ∷ []

updated : (update_with (λ i l. i ∷ l) active registry).snap_fs ≡ 8 ∷ 5 ∷ []
unfolding update_with
updated = refl

update_with-has_example :
    has 8 (update_with (λ i l. i ∷ l) active registry).snap_fs ≡ wanted 8 active
update_with-has_example = update_with-has (λ i l. i ∷ l) cons-Enters active registry 8

update_with-IsValid_example : IsValid (update_with (λ i l. i ∷ l) active registry)
update_with-IsValid_example =
    update_with-IsValid (λ i l. i ∷ l) cons-Enters active registry registry-IsValid

by_id-has_example : by_id registry 5 ≡ (if has 5 registry.snap_fs then ok 5 else throw invalid_path)
by_id-has_example = by_id-has registry 5

-- The path `snapshots/5`, and a reading of numbers that knows one digit.
abbrev path : List ℕ
path = 115 ∷ 110 ∷ 97 ∷ 112 ∷ 115 ∷ 104 ∷ 111 ∷ 116 ∷ 115 ∷ 47 ∷ 53 ∷ []

abbrev digit : List ℕ → ℕ
digit [] = 0
digit (c ∷ cs) = c - 48

sub_path_iff_example :
    (sub_path path ≡ some (47 ∷ 53 ∷ []))
    ↔ ((skip_slash path ≡ type_name ++ (47 ∷ 53 ∷ [])) × (ends_element (47 ∷ 53 ∷ []) ≡ true))
sub_path_iff_example = sub_path_iff path (47 ∷ 53 ∷ [])

open_snapshot-passed_example :
    (skip_slash path ≡ type_name ++ (47 ∷ 53 ∷ []))
    × (starts_with_slash (47 ∷ 53 ∷ []) ≡ true)
    × (5 ≡ digit (skip_slash (47 ∷ 53 ∷ [])))
    × (has 5 registry.snap_fs ≡ true)
unfolding open_snapshot
open_snapshot-passed_example = open_snapshot-passed digit registry path (47 ∷ 53 ∷ []) 5 refl

read_directory-lists_example :
    ((1 < 2)
      × ((id : ℕ) × (get_elem? registry.snap_fs 1 ≡ some id)
          × (read_directory 144 registry false (1 * 144) 200 ≡ entry 1 id)))
    ⊎ ((2 ≤ 1) × (read_directory 144 registry false (1 * 144) 200 ≡ end_of_directory))
read_directory-lists_example =
    read_directory-lists 144 registry 1 200 registry-IsValid (omega arith) (omega arith)
      (omega arith)

-- A plugin that opens the directory of snapshots, on a CBE without snapshots.
abbrev disk : Disk
disk = record { at = 0; bytes = λ i. 0 }

abbrev buffers : Buffers
buffers = record { io_data = λ i. 0; plain_data = λ i. 0; cipher_data = λ i. 0 }

abbrev plugin : Wrapper Request ℕ Disk
plugin = fresh_wrapper prompt_library 0 disk buffers (λ i. 0) 8192 16384

abbrev Outcome : Type 0
Outcome = Opened × Registry × Wrapper Request ℕ Disk

or_else : {A : Type 0} → A → Result A → A
or_else d (ok t) = t
or_else d (throw e) = d

abbrev is_ok : {A : Type 0} → Result A → Bool
is_ok (ok t) = true
is_ok (throw e) = false

or_else-ok : {A : Type 0} (d : A) (r : Result A) → is_ok r ≡ true → r ≡ ok (or_else d r)
unfolding or_else
or_else-ok d (ok t) p = refl
or_else-ok d (throw e) p = cc

opened : Outcome
opened =
    or_else (lookup_failed, registry, plugin)
      (opendir prompt_library quiet_crypto disk_file (λ i l. i ∷ l) digit 9 (slash ∷ type_name)
        false registry plugin)

opendir_returns :
    opendir prompt_library quiet_crypto disk_file
      (λ i l. i ∷ l)
      digit
      9
      (slash ∷ type_name)
      false
      registry
      plugin
    ≡ ok opened
unfolding opened opendir update fresh_wrapper active_snapshot_ids
    cbe.Wrapper.Frontend.Admit.submit_frontend cbe.Wrapper.Frontend.Admit.submit_helpers
    cbe.Wrapper.Frontend.Complete.drain cbe.Wrapper.Frontend.Transfer.client_read
    cbe.Wrapper.Frontend.Transfer.client_write cbe.Wrapper.Frontend.Helper.finish_helper_write
    cbe.Wrapper.Frontend.Helper.finish_helper_read
opendir_returns =
    or_else-ok _
      (opendir prompt_library quiet_crypto disk_file (λ i l. i ∷ l) digit 9 (slash ∷ type_name)
        false registry plugin)
      refl

opendir-updates_example :
    (opened.0 ≡ directory_handle (top_dir (slash ∷ type_name)))
    × IsValid opened.1
    × ((id : ℕ)
        → has id opened.1.snap_fs
          ≡ wanted id (Library.active_snapshot_ids prompt_library plugin.cbe))
opendir-updates_example =
    opendir-updates prompt_library quiet_crypto disk_file (λ i l. i ∷ l) cons-Enters digit 9
      (slash ∷ type_name) registry plugin opened registry-IsValid refl opendir_returns
