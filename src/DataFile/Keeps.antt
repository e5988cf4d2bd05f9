-- ===== src/DataFile/Keeps.antt =====
-- The calls on the data file of src/lib/vfs/cbe/vfs.cc keep the states that the requests can be
-- in together.
use cbe.Wrapper.Submit.{submit_frontend_request}
use cbe.Wrapper.Handle.{handle_frontend_request}
use cbe.Wrapper.Handle.Keeps.{
  enqueue_handle-IsValid, ack_frontend_request-IsValid, submit_frontend_request-IsValid, Val,
  handle_frontend_request-IsValid,
}
use cbe.Types.{Operation}
use cbe.IoJob.Calls.{IfOk, IfOk-bind}
use cbe.Prelude.{ℕ, ◌≡◌, ok, Bool-cases, Option, arith, ◌>>=◌, inr, refl, inl}
use cbe.Interfaces.Contracts.{Answers}
use cbe.Interfaces.{Library, Crypto, BlockFile, ReadResult, SyncResult, WriteResult}
use cbe.DataFile.{
  read, write, sync, read_result, write_result, sync_result, Admission, FileHandle, refused, admit,
  admitted, busy,
}
use cbe.Wrapper.Frontend.Invariant.{IsValid}
use cbe.Wrapper.{Wrapper, FrontendState, frontend_idle}

module _ {L C H : Type 0} (lib : Library L) (answers : Answers lib) where
  -- The end of a call acknowledges a request that has come to an end, or leaves it.
  read_result-IsValid :
      (h : FileHandle) (s : FrontendState) (w : Wrapper L C H)
      → s ≡ w.frontend.state
      → IsValid lib answers w
      → IsValid lib answers (read_result h s w).2
  unfolding read_result
  read_result-IsValid h FrontendState.pending w e v = enqueue_handle-IsValid lib answers h.id w v
  read_result-IsValid h FrontendState.in_progress w e v =
      enqueue_handle-IsValid lib answers h.id w v
  read_result-IsValid h FrontendState.none w e v = v
  read_result-IsValid h _ w e v =
      ack_frontend_request-IsValid lib answers w v (ground arith) (ground arith)

  write_result-IsValid :
      (h : FileHandle) (s : FrontendState) (w : Wrapper L C H)
      → s ≡ w.frontend.state
      → IsValid lib answers w
      → IsValid lib answers (write_result h s w).2
  unfolding write_result
  write_result-IsValid h FrontendState.pending w e v = enqueue_handle-IsValid lib answers h.id w v
  write_result-IsValid h FrontendState.in_progress w e v =
      enqueue_handle-IsValid lib answers h.id w v
  write_result-IsValid h FrontendState.none w e v = v
  write_result-IsValid h _ w e v =
      ack_frontend_request-IsValid lib answers w v (ground arith) (ground arith)

  sync_result-IsValid :
      (h : FileHandle) (s : FrontendState) (w : Wrapper L C H)
      → s ≡ w.frontend.state
      → IsValid lib answers w
      → IsValid lib answers (sync_result h s w).1
  unfolding sync_result
  sync_result-IsValid h FrontendState.pending w e v = enqueue_handle-IsValid lib answers h.id w v
  sync_result-IsValid h FrontendState.in_progress w e v =
      enqueue_handle-IsValid lib answers h.id w v
  sync_result-IsValid h FrontendState.complete w e v =
      ack_frontend_request-IsValid lib answers w v (ground arith) (ground arith)
  sync_result-IsValid h FrontendState.error w e v =
      ack_frontend_request-IsValid lib answers w v (ground arith) (ground arith)
  sync_result-IsValid h _ w e v = v

  abbrev Admits : Admission (Wrapper L C H) → Type 0
  Admits busy = Unit
  Admits (refused v) = IsValid lib answers v
  Admits (admitted v) = IsValid lib answers v

  module _ (cry : Crypto C) (fs : BlockFile H) where
    admit-IsValid :
        (h : FileHandle) (address count : ℕ) (op : Operation) (snap_id : ℕ) (w : Wrapper L C H)
        → IsValid lib answers w
        → Admits (admit lib cry fs h address count op snap_id w)
    unfolding admit
    admit-IsValid h address count op snap_id w v =
        let next =
          submit_frontend_request-IsValid lib answers h.seek address count op snap_id w v in
        elim (Bool-cases (frontend_idle w.frontend)) [
          | inr taken ↦ rw taken v
          | inl idle ↦ elim (Bool-cases (Library.client_request_acceptable lib w.cbe)) [
            | inr full ↦ rw (idle, full) tt
            | inl free ↦
                elim (Bool-cases (submit_frontend_request h.seek address count op snap_id w).0) [
                  | inl good ↦ rw (idle, free, good) next
                  | inr bad ↦ rw (idle, free, bad) next
                ]
          ]
        ]

    -- A call that begins by `admit`, drives the requests on and ends by `done`.
    call-IsValid :
        {A : Type 0} (P : A → Type 0) (fuel : ℕ) (a : Admission (Wrapper L C H)) (b : A)
        (r done : Wrapper L C H → A)
        → Admits a
        → P b
        → ((v : Wrapper L C H) → IsValid lib answers v → P (r v))
        → ((v : Wrapper L C H) → IsValid lib answers v → P (done v))
        → IfOk P (elim a [
          | busy ↦ ok b
          | refused v ↦ ok (r v)
          | admitted v ↦ handle_frontend_request lib cry fs fuel v >>= λ u. ok (done u)
        ])
    call-IsValid P fuel busy b r done va pb pr pd = pb
    call-IsValid P fuel (refused v) b r done va pb pr pd = pr v va
    call-IsValid P fuel (admitted v) b r done va pb pr pd =
        IfOk-bind (Val lib answers) P (handle_frontend_request lib cry fs fuel v) _
          (handle_frontend_request-IsValid lib answers cry fs fuel v va) pd

    pub read-IsValid :
        (fuel : ℕ) (h : FileHandle) (dst count : ℕ) (w : Wrapper L C H)
        → IsValid lib answers w
        → IfOk (λ t. IsValid lib answers t.2) (read lib cry fs fuel h dst count w)
    unfolding read
    read-IsValid fuel h dst count w v =
        call-IsValid (λ (t : ReadResult × Option ℕ × Wrapper L C H). IsValid lib answers t.2) fuel
          (admit lib cry fs h dst count Operation.read h.snap_id w) _ _ _
          (admit-IsValid h dst count Operation.read h.snap_id w v) v (λ u vu. vu)
          (λ u vu. read_result-IsValid h u.frontend.state u refl vu)

    pub write-IsValid :
        (fuel : ℕ) (h : FileHandle) (src count : ℕ) (w : Wrapper L C H)
        → IsValid lib answers w
        → IfOk (λ t. IsValid lib answers t.2) (write lib cry fs fuel h src count w)
    unfolding write
    write-IsValid fuel h src count w v =
        call-IsValid (λ (t : WriteResult × Option ℕ × Wrapper L C H). IsValid lib answers t.2) fuel
          (admit lib cry fs h src count Operation.write h.snap_id w) _ _ _
          (admit-IsValid h src count Operation.write h.snap_id w v) v (λ u vu. vu)
          (λ u vu. write_result-IsValid h u.frontend.state u refl vu)

    pub sync-IsValid :
        (fuel : ℕ) (h : FileHandle) (w : Wrapper L C H)
        → IsValid lib answers w
        → IfOk (λ t. IsValid lib answers t.1) (sync lib cry fs fuel h w)
    unfolding sync
    sync-IsValid fuel h w v =
        call-IsValid (λ (t : SyncResult × Wrapper L C H). IsValid lib answers t.1) fuel
          (admit lib cry fs h 0 0 Operation.sync 0 w) _ _ _
          (admit-IsValid h 0 0 Operation.sync 0 w v) v (λ u vu. vu)
          (λ u vu. sync_result-IsValid h u.frontend.state u refl vu)
