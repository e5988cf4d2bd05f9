-- ===== src/DataFile.antt =====
-- src/lib/vfs/cbe/vfs.cc, class `Data_file_system`: the file that the client reads and writes.
--
-- A handle is known by a number; its `seek` is the position that the virtual file system keeps.
-- `Insufficient_buffer`, which `write` throws, is a result. An `out_count` that a call does not
-- set is `none`. The mutex around each call is left out: a call is one step.
pub mod Keeps
pub mod Session
pub mod Replies
pub mod Size
pub mod Tests
use cbe.Types.{u64, Operation, block_size}
use cbe.Wrapper.Submit.{submit_frontend_request}
use cbe.Wrapper.Handle.{handle_frontend_request}
use cbe.Prelude.{ℕ, Bool, Option, Result, ◌+◌, if◌then◌else◌, ok, ◌*◌, not, ◌>>=◌}
use cbe.Interfaces.{
  Library, Crypto, BlockFile, ReadResult, SyncResult, WriteResult, sync_queued, insufficient_buffer,
  read_queued, sync_ok, read_err_io, read_ok, sync_err_invalid, write_err_io, write_ok,
}
use cbe.Wrapper.{Wrapper, enqueue_handle, ack_frontend_request, FrontendState, frontend_idle}

pub record FileHandle : Type 0 where
  pub id : ℕ
  pub seek : ℕ
  pub snap_id : ℕ

-- What becomes of a call before the requests are driven on.
pub data Admission (A : Type 0) : Type 0 where
  busy : Admission A
  refused : A → Admission A
  admitted : A → Admission A

module _ {L C H : Type 0} where
  -- The end of `Vfs_handle::read`, by the state of the request.
  unfoldable pub read_result :
      FileHandle → FrontendState → Wrapper L C H → ReadResult × Option ℕ × Wrapper L C H
  unfolding enqueue_handle ack_frontend_request
  read_result h FrontendState.pending w = (read_queued, Option.none, enqueue_handle h.id w)
  read_result h FrontendState.in_progress w = (read_queued, Option.none, enqueue_handle h.id w)
  read_result h FrontendState.complete w =
      (read_ok, Option.some w.frontend.count, ack_frontend_request w)
  read_result h FrontendState.error_eof w = (read_ok, Option.some 0, ack_frontend_request w)
  read_result h FrontendState.error w = (read_err_io, Option.some 0, ack_frontend_request w)
  read_result h FrontendState.none w = (read_err_io, Option.none, w)

  -- The end of `Vfs_handle::write`.
  unfoldable pub write_result :
      FileHandle → FrontendState → Wrapper L C H → WriteResult × Option ℕ × Wrapper L C H
  unfolding enqueue_handle ack_frontend_request
  write_result h FrontendState.pending w = (insufficient_buffer, Option.none, enqueue_handle h.id w)
  write_result h FrontendState.in_progress w =
      (insufficient_buffer, Option.none, enqueue_handle h.id w)
  write_result h FrontendState.complete w =
      (write_ok, Option.some w.frontend.count, ack_frontend_request w)
  write_result h FrontendState.error_eof w = (write_ok, Option.some 0, ack_frontend_request w)
  write_result h FrontendState.error w = (write_err_io, Option.some 0, ack_frontend_request w)
  write_result h FrontendState.none w = (write_err_io, Option.none, w)

  -- The end of `Vfs_handle::sync`.
  unfoldable pub sync_result :
      FileHandle → FrontendState → Wrapper L C H → SyncResult × Wrapper L C H
  unfolding enqueue_handle ack_frontend_request
  sync_result h FrontendState.pending w = (sync_queued, enqueue_handle h.id w)
  sync_result h FrontendState.in_progress w = (sync_queued, enqueue_handle h.id w)
  sync_result h FrontendState.complete w = (sync_ok, ack_frontend_request w)
  sync_result h FrontendState.error w = (sync_err_invalid, ack_frontend_request w)
  sync_result h _ w = (sync_err_invalid, w)

module _ {L C H : Type 0} (lib : Library L) (cry : Crypto C) (fs : BlockFile H) where
  -- The beginning of all three calls: a request is submitted if none is under way.
  unfoldable pub admit :
      FileHandle → ℕ → ℕ → Operation → ℕ → Wrapper L C H → Admission (Wrapper L C H)
  admit h address count op snap_id w =
      let (accepted, v) = submit_frontend_request h.seek address count op snap_id w in
      if not (frontend_idle w.frontend)
      then admitted w
      else if not (Library.client_request_acceptable lib w.cbe)
      then busy
      else if accepted
      then admitted v
      else refused v

  -- `Vfs_handle::read`
  unfoldable pub read :
      ℕ → FileHandle → ℕ → ℕ → Wrapper L C H → Result (ReadResult × Option ℕ × Wrapper L C H)
  unfolding admit handle_frontend_request read_result
  read fuel h dst count w = elim (admit h dst count Operation.read h.snap_id w) [
    | busy ↦ ok (read_queued, Option.none, w)
    | refused v ↦ ok (read_err_io, Option.none, v)
    | admitted v ↦
        handle_frontend_request lib cry fs fuel v >>= λ u. ok (read_result h u.frontend.state u)
  ]

  -- `Vfs_handle::write`
  unfoldable pub write :
      ℕ → FileHandle → ℕ → ℕ → Wrapper L C H → Result (WriteResult × Option ℕ × Wrapper L C H)
  unfolding admit handle_frontend_request write_result
  write fuel h src count w = elim (admit h src count Operation.write h.snap_id w) [
    | busy ↦ ok (insufficient_buffer, Option.none, w)
    | refused v ↦ ok (write_err_io, Option.none, v)
    | admitted v ↦
        handle_frontend_request lib cry fs fuel v >>= λ u. ok (write_result h u.frontend.state u)
  ]

  -- `Vfs_handle::sync`
  unfoldable pub sync : ℕ → FileHandle → Wrapper L C H → Result (SyncResult × Wrapper L C H)
  unfolding admit handle_frontend_request sync_result
  sync fuel h w = elim (admit h 0 0 Operation.sync 0 w) [
    | busy ↦ ok (sync_queued, w)
    | refused v ↦ ok (sync_err_invalid, v)
    | admitted v ↦
        handle_frontend_request lib cry fs fuel v >>= λ u. ok (sync_result h u.frontend.state u)
  ]

module _ {L C H : Type 0} (lib : Library L) where
  -- `out.size` of `stat`: the size of a `file_size`, 64 bits
  unfoldable pub stat_size : Wrapper L C H → ℕ
  stat_size w = u64 ((Library.max_vba lib w.cbe + 1) * block_size)

-- `open`: the path is that of the file, or not, as Genode's `_single_file` says, and the CBE is
-- initialised. The handle begins at position 0.
unfoldable pub open_data : ℕ → ℕ → Bool → Option FileHandle
open_data id snap_id single_file =
    if single_file
    then Option.some (record { id = id; seek = 0; snap_id = snap_id })
    else Option.none
