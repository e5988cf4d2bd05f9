-- ===== src/DataFile/Session.antt =====
-- Every history of calls on the plugin of src/lib/vfs/cbe/vfs.cc: the data file's, the control
-- files' and the signals of the back end, in any order.
use cbe.Wrapper.Handle.Control.{
  start_rekeying-IsValid, start_extending-IsValid, create_snapshot-IsValid,
  discard_snapshot-IsValid, active_snapshot_ids-IsValid, notify_backend_io_progress-IsValid,
}
use cbe.Wrapper.Handle.Invariant.{PairValid}
use cbe.DataFile.Keeps.{read-IsValid, write-IsValid, sync-IsValid}
use cbe.Wrapper.Handle.Keeps.{fresh_wrapper-IsValid, Val}
use cbe.Prelude.{ℕ, Bytes, Option, ◌≡◌, ok, Bool, List}
use cbe.IoJob.Calls.{IfOk-ok}
use cbe.Interfaces.Contracts.{Answers}
use cbe.Interfaces.{Library, Crypto, BlockFile, Buffers, ReadResult, WriteResult, SyncResult}
use cbe.Wrapper.Handle.{
  create_snapshot, discard_snapshot, start_rekeying, start_extending, active_snapshot_ids,
  notify_backend_io_progress,
}
use cbe.DataFile.{read, write, sync, FileHandle}
use cbe.Wrapper.Frontend.Invariant.{IsValid}
use cbe.Wrapper.{Wrapper, fresh_wrapper, TreeType}

-- One call that returns, from the state `w` to the state `v`.
pub data Call {L C H : Type 0} (lib : Library L) (cry : Crypto C) (fs : BlockFile H)
    (w v : Wrapper L C H) : Type 0 where
  called_read :
      (fuel : ℕ) (h : FileHandle) (dst count : ℕ) (r : ReadResult) (n : Option ℕ)
      → read lib cry fs fuel h dst count w ≡ ok (r, n, v)
      → Call lib cry fs w v
  called_write :
      (fuel : ℕ) (h : FileHandle) (src count : ℕ) (r : WriteResult) (n : Option ℕ)
      → write lib cry fs fuel h src count w ≡ ok (r, n, v)
      → Call lib cry fs w v
  called_sync :
      (fuel : ℕ) (h : FileHandle) (r : SyncResult)
      → sync lib cry fs fuel h w ≡ ok (r, v)
      → Call lib cry fs w v
  called_rekey :
      (fuel : ℕ) (b : Bool) → start_rekeying lib cry fs fuel w ≡ ok (b, v) → Call lib cry fs w v
  called_extend :
      (fuel : ℕ) (type : TreeType) (blocks : ℕ) (b : Bool)
      → start_extending lib cry fs fuel type blocks w ≡ ok (b, v)
      → Call lib cry fs w v
  called_create :
      (fuel : ℕ) (b : Bool) → create_snapshot lib cry fs fuel w ≡ ok (b, v) → Call lib cry fs w v
  called_discard :
      (fuel id : ℕ) (b : Bool)
      → discard_snapshot lib cry fs fuel id w ≡ ok (b, v)
      → Call lib cry fs w v
  called_ids :
      (fuel : ℕ) (ids : List ℕ)
      → active_snapshot_ids lib cry fs fuel w ≡ ok (ids, v)
      → Call lib cry fs w v
  signalled : (fuel : ℕ) → notify_backend_io_progress lib cry fs fuel w ≡ ok v → Call lib cry fs w v

pub data Reach {L C H : Type 0} (lib : Library L) (cry : Crypto C) (fs : BlockFile H)
    (w : Wrapper L C H) : Wrapper L C H → Type 0 where
  initial : Reach lib cry fs w w
  after : {v u : Wrapper L C H} → Reach lib cry fs w v → Call lib cry fs v u → Reach lib cry fs w u

module _ {L C H : Type 0} (lib : Library L) (answers : Answers lib) (cry : Crypto C)
    (fs : BlockFile H) where
  Call-IsValid :
      {w v : Wrapper L C H} → Call lib cry fs w v → IsValid lib answers w → IsValid lib answers v
  Call-IsValid {w = w} (called_read fuel h dst count r n e) i =
      IfOk-ok (λ (t : ReadResult × Option ℕ × Wrapper L C H). IsValid lib answers t.2)
        (read-IsValid lib answers cry fs fuel h dst count w i) e
  Call-IsValid {w = w} (called_write fuel h src count r n e) i =
      IfOk-ok (λ (t : WriteResult × Option ℕ × Wrapper L C H). IsValid lib answers t.2)
        (write-IsValid lib answers cry fs fuel h src count w i) e
  Call-IsValid {w = w} (called_sync fuel h r e) i =
      IfOk-ok (λ (t : SyncResult × Wrapper L C H). IsValid lib answers t.1)
        (sync-IsValid lib answers cry fs fuel h w i) e
  Call-IsValid {w = w} (called_rekey fuel b e) i =
      IfOk-ok (PairValid lib answers) (start_rekeying-IsValid lib answers cry fs fuel w i) e
  Call-IsValid {w = w} (called_extend fuel type blocks b e) i =
      IfOk-ok (PairValid lib answers)
        (start_extending-IsValid lib answers cry fs fuel type blocks w i) e
  Call-IsValid {w = w} (called_create fuel b e) i =
      IfOk-ok (PairValid lib answers) (create_snapshot-IsValid lib answers cry fs fuel w i) e
  Call-IsValid {w = w} (called_discard fuel id b e) i =
      IfOk-ok (PairValid lib answers) (discard_snapshot-IsValid lib answers cry fs fuel id w i) e
  Call-IsValid {w = w} (called_ids fuel ids e) i =
      IfOk-ok (λ (t : List ℕ × Wrapper L C H). IsValid lib answers t.1)
        (active_snapshot_ids-IsValid lib answers cry fs fuel w i) e
  Call-IsValid {w = w} (signalled fuel e) i =
      IfOk-ok (Val lib answers) (notify_backend_io_progress-IsValid lib answers cry fs fuel w i) e

  Reach-keeps :
      {w v : Wrapper L C H} → IsValid lib answers w → Reach lib cry fs w v → IsValid lib answers v
  Reach-keeps i initial = i
  Reach-keeps i (after r c) = Call-IsValid c (Reach-keeps i r)

  -- With a CBE that answers only what it was asked, whatever calls return, in whatever order,
  -- from the construction of the plugin on: the requests of the client and of the helpers are
  -- in states that go together, and the bytes of an unaligned request lie within its block.
  pub Reach-IsValid :
      (crypto : C) (handle : H) (buffers : Buffers) (memory : Bytes) (a b : ℕ) (v : Wrapper L C H)
      → Reach lib cry fs (fresh_wrapper lib crypto handle buffers memory a b) v
      → IsValid lib answers v
  Reach-IsValid crypto handle buffers memory a b v r =
      Reach-keeps (fresh_wrapper-IsValid lib answers crypto handle buffers memory a b) r
