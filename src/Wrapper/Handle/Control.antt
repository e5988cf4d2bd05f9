-- ===== src/Wrapper/Handle/Control.antt =====
-- The background requests of src/lib/vfs/cbe/vfs.cc, which `start_rekeying`, `start_extending`,
-- `create_snapshot` and `discard_snapshot` submit: what they leave alone, and what they keep.
use cbe.Wrapper.Handle.{create_snapshot, discard_snapshot}
use cbe.Wrapper.Handle.Keeps.{Val, handle_frontend_request-IsValid}
use cbe.Wrapper.Handle.Invariant.{PairValid, same-IsValid}
use cbe.IoJob.Calls.{IfOk, IfOk-bind}
use cbe.Prelude.{ℕ, Bool-cases, List, inl, inr, ◌>>=◌, ◌≡◌, ok, true, refl, Option, some, ◌∷◌}
use cbe.Types.{is_op, Operation, valid}
use cbe.Wrapper.Handle.{
  active_snapshot_ids, notify_backend_io_progress, start_extending, start_rekeying,
  extending_operation, handle_frontend_request,
}
use cbe.Interfaces.Contracts.{Answers, is_control}
use cbe.Interfaces.{Library, Crypto, BlockFile}
use cbe.Wrapper.Frontend.Invariant.{IsValid}
use cbe.Wrapper.{Wrapper, TreeType}

module _ {L C H : Type 0} (lib : Library L) (answers : Answers lib) (cry : Crypto C)
    (fs : BlockFile H) where
  -- A request is submitted, and then the requests are driven on.
  driven :
      (fuel : ℕ) (w : Wrapper L C H)
      → IsValid lib answers w
      → IfOk
          (PairValid lib answers)
          (handle_frontend_request lib cry fs fuel w >>= λ v. ok (true, v))
  driven fuel w v =
      IfOk-bind (Val lib answers) (PairValid lib answers)
        (handle_frontend_request lib cry fs fuel w) _
        (handle_frontend_request-IsValid lib answers cry fs fuel w v) λ u vu. vu

  pub start_rekeying-IsValid :
      (fuel : ℕ) (w : Wrapper L C H)
      → IsValid lib answers w
      → IfOk (PairValid lib answers) (start_rekeying lib cry fs fuel w)
  unfolding start_rekeying
  start_rekeying-IsValid fuel w v =
      elim (Bool-cases (Library.client_request_acceptable lib w.cbe)) [
        | inr busy ↦ rw busy v
        | inl free ↦ rw free (
            driven fuel _ (
              same-IsValid lib answers w _ refl refl refl (answers.submit_control _ 0 w.cbe refl)
                v))
      ]

  start_extending_as :
      (fuel : ℕ) (type : TreeType) (blocks : ℕ) (w : Wrapper L C H)
      → is_control (extending_operation type) ≡ true
      → IsValid lib answers w
      → IfOk (PairValid lib answers) (start_extending lib cry fs fuel type blocks w)
  unfolding start_extending
  start_extending_as fuel type blocks w c v =
      elim (Bool-cases (Library.client_request_acceptable lib w.cbe)) [
        | inr busy ↦ rw busy v
        | inl free ↦ elim (Bool-cases (is_op (extending_operation type) Operation.invalid)) [
          | inl bad ↦ rw (free, bad) v
          | inr good ↦
              rw (free, good)
                (driven fuel _ (
                  same-IsValid lib answers w _ refl refl refl (answers.submit_control _ 0 w.cbe c)
                    v))
        ]
      ]

  pub start_extending-IsValid :
      (fuel : ℕ) (type : TreeType) (blocks : ℕ) (w : Wrapper L C H)
      → IsValid lib answers w
      → IfOk (PairValid lib answers) (start_extending lib cry fs fuel type blocks w)
  unfolding start_extending
  start_extending-IsValid fuel TreeType.vbd blocks w v =
      start_extending_as fuel TreeType.vbd blocks w refl v
  start_extending-IsValid fuel TreeType.ft blocks w v =
      start_extending_as fuel TreeType.ft blocks w refl v
  start_extending-IsValid fuel TreeType.invalid blocks w v =
      elim (Bool-cases (Library.client_request_acceptable lib w.cbe)) [
        | inr busy ↦ rw busy v
        | inl free ↦ rw free v
      ]

  pub create_snapshot-IsValid :
      (fuel : ℕ) (w : Wrapper L C H)
      → IsValid lib answers w
      → IfOk (PairValid lib answers) (create_snapshot lib cry fs fuel w)
  unfolding create_snapshot
  create_snapshot-IsValid fuel w v =
      elim (Bool-cases (Library.client_request_acceptable lib w.cbe)) [
        | inr busy ↦ rw busy v
        | inl free ↦ elim (Bool-cases (valid w.create_snapshot_request.cbe_request)) [
          | inl taken ↦ rw (free, taken) v
          | inr good ↦
              rw (free, good)
                (driven fuel _ (
                  same-IsValid lib answers w _ refl refl refl
                    (answers.submit_control _ 0 w.cbe refl) v))
        ]
      ]

  pub discard_snapshot-IsValid :
      (fuel id : ℕ) (w : Wrapper L C H)
      → IsValid lib answers w
      → IfOk (PairValid lib answers) (discard_snapshot lib cry fs fuel id w)
  unfolding discard_snapshot
  discard_snapshot-IsValid fuel id w v =
      elim (Bool-cases (Library.client_request_acceptable lib w.cbe)) [
        | inr busy ↦ rw busy v
        | inl free ↦ elim (Bool-cases (valid w.discard_snapshot_request.cbe_request)) [
          | inl taken ↦ rw (free, taken) v
          | inr good ↦
              rw (free, good)
                (driven fuel _ (
                  same-IsValid lib answers w _ refl refl refl
                    (answers.submit_control _ 0 w.cbe refl) v))
        ]
      ]

  pub active_snapshot_ids-IsValid :
      (fuel : ℕ) (w : Wrapper L C H)
      → IsValid lib answers w
      → IfOk (λ r. IsValid lib answers r.1) (active_snapshot_ids lib cry fs fuel w)
  unfolding active_snapshot_ids
  active_snapshot_ids-IsValid fuel w v =
      IfOk-bind (Val lib answers) (λ (r : List ℕ × Wrapper L C H). IsValid lib answers r.1)
        (handle_frontend_request lib cry fs fuel w) _
        (handle_frontend_request-IsValid lib answers cry fs fuel w v) λ u vu. vu

  pub notify_backend_io_progress-IsValid :
      (fuel : ℕ) (w : Wrapper L C H)
      → IsValid lib answers w
      → IfOk (Val lib answers) (notify_backend_io_progress lib cry fs fuel w)
  unfolding notify_backend_io_progress
  notify_backend_io_progress-IsValid fuel w v = go w.enqueued_handle
    where
      go :
          (o : Option ℕ)
          → IfOk (Val lib answers) (elim o [
            | some h ↦ ok (record w { notified = h ∷ w.notified })
            | Option.none ↦ handle_frontend_request lib cry fs fuel w >>= λ u.
                ok (record u { io_progress_pending = true })
          ])
      go (some h) = same-IsValid lib answers w _ refl refl refl refl v
      go Option.none =
          IfOk-bind (Val lib answers) (Val lib answers) (handle_frontend_request lib cry fs fuel w)
            _ (handle_frontend_request-IsValid lib answers cry fs fuel w v)
            λ u vu. same-IsValid lib answers u _ refl refl refl refl vu
