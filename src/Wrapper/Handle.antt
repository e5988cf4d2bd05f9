-- ===== src/Wrapper/Handle.antt =====
-- src/lib/vfs/cbe/vfs.cc, `Wrapper::handle_frontend_request`, which drives the three parts
-- until none makes progress, and the operations of the `Wrapper` that start background
-- requests.
pub mod Invariant
pub mod Keeps
pub mod Control
pub mod Settled
pub mod Tests
use cbe.Prelude.{Option, ◌∷◌}
use cbe.Wrapper.Backend.{handle_cbe_backend}
use cbe.Prelude.{ℕ, Result, Bool, List, false, ◌>>=◌, ok, if◌then◌else◌, ◌||◌, not, true}
use cbe.Wrapper.Encryption.{repeat, handle_crypto}
use cbe.Wrapper.Frontend.{handle_cbe_frontend}
use cbe.Types.{Info, Operation, request, is_op, valid}
use cbe.Interfaces.{Library, Crypto, BlockFile}
use cbe.Wrapper.{Wrapper, TreeType, Extending, Rekeying, ControlState, FrontendState, LastResult}

abbrev pub extending_operation : TreeType → Operation
extending_operation TreeType.vbd = Operation.extend_vbd
extending_operation TreeType.ft = Operation.extend_ft
extending_operation TreeType.invalid = Operation.invalid

module _ {L C H : Type 0} (lib : Library L) (cry : Crypto C) (fs : BlockFile H) where
  -- One round of the loop.
  unfoldable pub handle_all : ℕ → Wrapper L C H → Result (Bool × Wrapper L C H)
  unfolding handle_cbe_frontend handle_cbe_backend handle_crypto
  handle_all fuel w = handle_cbe_frontend lib fuel w >>= λ a. handle_cbe_backend lib fs a.1 >>= λ b.
      handle_crypto lib cry fuel b.1 >>= λ c. ok (a.0 || b.0 || c.0, c.1)

  -- What the CBE reports of an extension or a rekeying that it found under way.
  unfoldable pub resume_extending : Info → Extending → Extending
  resume_extending info e = elim e.state [
    | ControlState.unknown ↦
        if not info.valid
        then e
        else if info.extending_ft
        then record e { state = ControlState.in_progress; type = TreeType.ft }
        else if info.extending_vbd
        then record e { state = ControlState.in_progress; type = TreeType.vbd }
        else record e { state = ControlState.idle }
    | _ ↦ e
  ]

  unfoldable pub resume_rekeying : Info → Rekeying → Rekeying
  resume_rekeying info r = elim r.state [
    | ControlState.unknown ↦ if not info.valid then r else record r {
      state = if info.rekeying then ControlState.in_progress else ControlState.idle;
    }
    | _ ↦ r
  ]

  unfoldable pub resume : Wrapper L C H → Wrapper L C H
  unfolding resume_extending resume_rekeying
  resume w =
      let info = Library.info lib w.cbe in
      record w {
        extend_obj = resume_extending info w.extend_obj;
        rekey_obj = resume_rekeying info w.rekey_obj;
      }

  unfoldable pub handle_frontend_request : ℕ → Wrapper L C H → Result (Wrapper L C H)
  unfolding handle_all resume repeat
  handle_frontend_request fuel w = repeat (handle_all fuel) fuel false w >>= λ r. ok (resume r.1)

  unfoldable pub start_rekeying : ℕ → Wrapper L C H → Result (Bool × Wrapper L C H)
  unfolding handle_frontend_request
  start_rekeying fuel w =
      let req = record (request Operation.rekey 0 0 0) { key_id = w.rekey_obj.key_id } in
      let started = record w {
        cbe = Library.submit_client_request lib req 0 w.cbe;
        rekey_obj = record w.rekey_obj {
          state = ControlState.in_progress;
          last_result = LastResult.failed;
        };
      } in
      if not (Library.client_request_acceptable lib w.cbe)
      then ok (false, w)
      else (handle_frontend_request fuel started >>= λ v. ok (true, v))

  unfoldable pub start_extending : ℕ → TreeType → ℕ → Wrapper L C H → Result (Bool × Wrapper L C H)
  unfolding handle_frontend_request
  start_extending fuel type blocks w =
      let op = extending_operation type in
      let started = record w {
        cbe = Library.submit_client_request lib (request op 0 0 blocks) 0 w.cbe;
        extend_obj = record {
          type = type;
          state = ControlState.in_progress;
          last_result = LastResult.none;
        };
      } in
      if not (Library.client_request_acceptable lib w.cbe)
      then ok (false, w)
      else if is_op op Operation.invalid
      then ok (false, w)
      else (handle_frontend_request fuel started >>= λ v. ok (true, v))

  unfoldable pub active_snapshot_ids : ℕ → Wrapper L C H → Result (List ℕ × Wrapper L C H)
  unfolding handle_frontend_request
  active_snapshot_ids fuel w =
      handle_frontend_request fuel w >>= λ v. ok (Library.active_snapshot_ids lib w.cbe, v)

  unfoldable pub create_snapshot : ℕ → Wrapper L C H → Result (Bool × Wrapper L C H)
  unfolding handle_frontend_request
  create_snapshot fuel w =
      let req = request Operation.create_snapshot 0 0 1 in
      let started = record w {
        cbe = Library.submit_client_request lib req 0 w.cbe;
        create_snapshot_request = record w.create_snapshot_request {
          cbe_request = req;
          state = FrontendState.in_progress;
        };
      } in
      if not (Library.client_request_acceptable lib w.cbe)
      then ok (false, w)
      else if valid w.create_snapshot_request.cbe_request
      then ok (false, w)
      else (handle_frontend_request fuel started >>= λ v. ok (true, v))

  -- The generation that the caller names is not used.
  unfoldable pub discard_snapshot : ℕ → ℕ → Wrapper L C H → Result (Bool × Wrapper L C H)
  unfolding handle_frontend_request
  discard_snapshot fuel id w =
      let req = request Operation.discard_snapshot 0 0 1 in
      let started = record w {
        cbe = Library.submit_client_request lib req 0 w.cbe;
        discard_snapshot_request = record w.discard_snapshot_request {
          cbe_request = req;
          state = FrontendState.in_progress;
        };
      } in
      if not (Library.client_request_acceptable lib w.cbe)
      then ok (false, w)
      else if valid w.discard_snapshot_request.cbe_request
      then ok (false, w)
      else (handle_frontend_request fuel started >>= λ v. ok (true, v))

  -- `_notify_backend_io_progress`: who waits is told, else the requests are driven on.
  unfoldable pub notify_backend_io_progress : ℕ → Wrapper L C H → Result (Wrapper L C H)
  unfolding handle_frontend_request
  notify_backend_io_progress fuel w = elim w.enqueued_handle [
    | Option.some h ↦ ok (record w { notified = h ∷ w.notified })
    | Option.none ↦
        handle_frontend_request fuel w >>= λ v. ok (record v { io_progress_pending = true })
  ]
