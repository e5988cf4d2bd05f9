-- ===== src/Snapshots/Handles.antt =====
-- src/lib/vfs/cbe/vfs.cc, the file I/O service of `Snapshots_file_system`: calls on a handle, by
-- what the handle is.
--
-- A handle on a file of a snapshot (`Dir_snap_vfs_handle`) holds one of another file system,
-- which is a parameter: `queue` and `complete` are its `queue_read` and `complete_read`.
use cbe.Prelude.{ℕ, Bool, true}
use cbe.Interfaces.{WriteResult, write_err_io}
use cbe.Snapshots.{Registry, Listing}
use cbe.Snapshots.Directory.{read_directory}

-- `Dir_vfs_handle` with its `_root_dir` and its position, `Dir_snap_vfs_handle`, or neither
pub data Handle (S : Type 0) : Type 0 where
  directory_at : Bool → ℕ → Handle S
  in_snapshot : S → Handle S
  other_handle : Handle S

-- What `complete_read` answers: an entry, what the other file system answers, or `READ_ERR_IO`.
pub data Answer (A : Type 0) : Type 0 where
  listed : Listing → Answer A
  passed_answer : A → Answer A
  no_answer : Answer A

module _ {S A : Type 0} (queue : ℕ → S → Bool × S) (complete : ℕ → S → A × S) where
  unfoldable pub queue_read : ℕ → Handle S → Bool × Handle S
  queue_read size (directory_at root seek) = (true, directory_at root seek)
  queue_read size (in_snapshot s) = let (queued, t) = queue size s in (queued, in_snapshot t)
  queue_read size other_handle = (true, other_handle)

  unfoldable pub complete_read : ℕ → Registry → ℕ → Handle S → Answer A × Handle S
  unfolding read_directory
  complete_read dirent_size r count (directory_at root seek) =
      (listed (read_directory dirent_size r root seek count), directory_at root seek)
  complete_read dirent_size r count (in_snapshot s) =
      let (answer, t) = complete count s in (passed_answer answer, in_snapshot t)
  complete_read dirent_size r count other_handle = (no_answer, other_handle)

  -- Nothing is written below this directory.
  unfoldable pub write_handle : Handle S → WriteResult
  write_handle h = write_err_io
