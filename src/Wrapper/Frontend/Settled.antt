-- ===== src/Wrapper/Frontend/Settled.antt =====
-- What `_handle_cbe_frontend` of src/lib/vfs/cbe/vfs.cc leaves undone when it reports no progress.
use cbe.Wrapper.Frontend.Transfer.{client_read, client_write, obtain, supply, place, Place}
use cbe.Wrapper.Frontend.Helper.{finish_helper_read, finish_helper_write}
use cbe.Wrapper.Frontend.Complete.{drain, complete_request, drop}
use cbe.Wrapper.Frontend.Admit.{
  Flow, go, stop, submit_frontend, submit_helper_read, submit_helper_write, submit_helpers,
}
use cbe.Wrapper.Frontend.{handle_cbe_frontend, run_stages, execute_cbe}
use cbe.Wrapper.Frontend.Invariant.{
  IsValid, allowed, submit_helper_read-IsValid, submit_helper_write-IsValid,
}
use cbe.IoJob.Calls.{IfOk, IfOk-bind, IfOk-any}
use cbe.Types.{valid, is_read, is_write, item, invalid_index_value}
use cbe.Prelude.{
  ℕ, Bool, true, false, ◌≡◌, ◌&&◌, ◌==◌, Bool-cases, inl, inr, arith, zero, suc, ok, Bytes, refl,
}
use cbe.Interfaces.{Library}
use cbe.Interfaces.Contracts.{Answers, HasRoom}
use cbe.Wrapper.{
  Wrapper, FrontendState, set_frontend, helper_pending, helper_complete, frontend_pending,
}

module _ {L C H : Type 0} where
  -- No request waits to be handed to the CBE.
  pub record Submitted (w : Wrapper L C H) : Type 0 where
    pub read : helper_pending w.helper_read ≡ false
    pub write : helper_pending w.helper_write ≡ false
    pub client : frontend_pending w.frontend ≡ false

  -- Nor does one that has come back wait to be dealt with.
  pub record Settled (w : Wrapper L C H) : Type 0 where
    pub submitted : Submitted w
    pub read : helper_complete w.helper_read ≡ false
    pub write : helper_complete w.helper_write ≡ false

  -- What holds behind a stage that reports no progress.
  abbrev pub Unless : (Wrapper L C H → Type 0) → Bool × Wrapper L C H → Type 0
  Unless P r = r.0 ≡ false → P r.1

  abbrev FlowUnless : Flow (Wrapper L C H) → Type 0
  FlowUnless (go b v) = Unless Settled (b, v)
  FlowUnless (stop b v) = Unless Settled (b, v)

  abbrev FlowSubmitted : Flow (Wrapper L C H) → Type 0
  FlowSubmitted (go b v) = (b ≡ false) × Submitted v
  FlowSubmitted (stop b v) = Settled v

  abbrev ReadDone : Wrapper L C H → Type 0
  ReadDone w = Submitted w × (helper_complete w.helper_read ≡ false)

  finish_helper_read-Unless :
      (b : Bool) (w : Wrapper L C H)
      → Unless Submitted (b, w)
      → Unless ReadDone (finish_helper_read b w)
  unfolding finish_helper_read
  finish_helper_read-Unless b w h = elim (Bool-cases (helper_complete w.helper_read)) [
    | inl back ↦ rw back (λ e. cc)
    | inr none_back ↦ rw none_back (λ e. (h e, none_back))
  ]

  finish_helper_write-Unless :
      (b : Bool) (w : Wrapper L C H)
      → Unless ReadDone (b, w)
      → Unless Settled (finish_helper_write b w)
  unfolding finish_helper_write
  finish_helper_write-Unless b w h = elim (Bool-cases (helper_complete w.helper_write)) [
    | inl back ↦ rw back (λ e. cc)
    | inr none_back ↦
        rw none_back (λ e. record { submitted = (h e).0; read = (h e).1; write = none_back })
  ]

module _ {L C H : Type 0} (lib : Library L) where
  drain-Unless :
      (fuel : ℕ) (b : Bool) (w : Wrapper L C H)
      → Unless Submitted (b, w)
      → IfOk (Unless Submitted) (drain lib fuel b w)
  unfolding drain
  drain-Unless zero b w h = tt
  drain-Unless (suc fuel) b w h =
      let r = Library.peek_completed_client_request lib w.cbe in
      let next = complete_request r (drop lib r w) in
      elim (Bool-cases (valid r)) [
        | inr none_left ↦ rw none_left h
        | inl found ↦ elim (Bool-cases next.0) [
          | inl more ↦ rw (found, more) (drain-Unless fuel true next.1 (λ e. cc))
          | inr left ↦ rw (found, left) (λ e. cc)
        ]
      ]

  set_cbe-Settled : (l : L) (w : Wrapper L C H) → Settled w → Settled (record w { cbe = l })
  set_cbe-Settled l w s = record {
    submitted = record {
      read = s.submitted.read;
      write = s.submitted.write;
      client = s.submitted.client;
    };
    read = s.read;
    write = s.write;
  }

  failed-Settled :
      (l : L) (w : Wrapper L C H)
      → Settled w
      → Settled (set_frontend FrontendState.error (record w { cbe = l }))
  failed-Settled l w s = record {
    submitted = record { read = s.submitted.read; write = s.submitted.write; client = refl };
    read = s.read;
    write = s.write;
  }

  client_read-Unless :
      (b : Bool) (w : Wrapper L C H) → Unless Settled (b, w) → IfOk FlowUnless (client_read lib b w)
  unfolding client_read obtain
  client_read-Unless b w h =
      let (r, l) = Library.client_data_ready lib w.cbe in
      let i = Library.client_data_index lib r l in
      let got = Library.obtain_client_data lib r l in
      elim (Bool-cases (valid r && is_read r)) [
        | inr none_ready ↦ rw none_ready (λ e. set_cbe-Settled l w (h e))
        | inl ready ↦ elim (Bool-cases (i == invalid_index_value)) [
          | inl unknown ↦ rw (ready, unknown) (λ e. failed-Settled l w (h e))
          | inr known ↦
              rw (ready, known)
                (IfOk-bind (λ (p : Place). Unit {0}) FlowUnless
                  (place lib w.helper_read r i (record w { cbe = l })) _
                  (IfOk-any (place lib w.helper_read r i (record w { cbe = l })))
                  λ p _. elim (Bool-cases got.0) [
                    | inr no_data ↦ rw no_data (λ e. set_cbe-Settled got.2 w (h e))
                    | inl has_data ↦ rw has_data (
                        IfOk-bind (λ (d : Bytes). Unit {0}) FlowUnless
                          (item w.buffers.plain_data got.1) _
                          (IfOk-any (item w.buffers.plain_data got.1)) λ d _ e. cc)
                  ])
        ]
      ]

  client_write-Unless :
      (b : Bool) (w : Wrapper L C H)
      → Unless Settled (b, w)
      → IfOk (Unless Settled) (client_write lib b w)
  unfolding client_write supply
  client_write-Unless b w h =
      let (r, l) = Library.client_data_required lib w.cbe in
      let i = Library.client_data_index lib r l in
      elim (Bool-cases (valid r && is_write r)) [
        | inr none_required ↦ rw none_required (λ e. set_cbe-Settled l w (h e))
        | inl required ↦ elim (Bool-cases (i == invalid_index_value)) [
          | inl unknown ↦ rw (required, unknown) (λ e. failed-Settled l w (h e))
          | inr known ↦
              rw (required, known)
                (IfOk-bind (λ (p : Place). Unit {0}) (Unless Settled)
                  (place lib w.helper_write r i (record w { cbe = l })) _
                  (IfOk-any (place lib w.helper_write r i (record w { cbe = l }))) λ p _ e. cc)
        ]
      ]

  run_stages-Unless :
      (fuel : ℕ) (w : Wrapper L C H) → Submitted w → IfOk (Unless Settled) (run_stages lib fuel w)
  unfolding run_stages execute_cbe
  run_stages-Unless fuel w s =
      let run = execute_cbe lib w in
      IfOk-bind (Unless Submitted) (Unless Settled) (drain lib fuel run.0 run.1) _
        (drain-Unless fuel run.0 run.1
          (λ e. record { read = s.read; write = s.write; client = s.client }))
        λ r h.
          let a = finish_helper_read r.0 r.1 in
          let b = finish_helper_write a.0 a.1 in
          IfOk-bind FlowUnless (Unless Settled) (client_read lib b.0 b.1) _
            (client_read-Unless b.0 b.1
              (finish_helper_write-Unless a.0 a.1 (finish_helper_read-Unless r.0 r.1 h)))
            after_read-Unless
    where
      after_read-Unless :
          (f : Flow (Wrapper L C H))
          → FlowUnless f
          → IfOk (Unless Settled) (elim f [ stop b v ↦ ok (b, v) | go b v ↦ client_write lib b v ])
      after_read-Unless (stop b v) q = q
      after_read-Unless (go b v) q = client_write-Unless b v q

  module _ (answers : Answers lib) (room : HasRoom lib answers) where
    open answers use {owes}

    submit_helper_read-submits :
        (w : Wrapper L C H)
        → IsValid lib answers w
        → helper_pending (submit_helper_read lib w).helper_read ≡ false
    unfolding submit_helper_read allowed
    submit_helper_read-submits w v = ground (arith, room.takes w.cbe)

    submit_helper_write-submits :
        (w : Wrapper L C H)
        → IsValid lib answers w
        → helper_pending w.helper_read ≡ false
        → let u = submit_helper_write lib w in
          (helper_pending u.helper_read ≡ false) × (helper_pending u.helper_write ≡ false)
    unfolding submit_helper_write allowed
    submit_helper_write-submits w v h = ground (arith, room.takes w.cbe)

    submit_frontend-submits :
        (w : Wrapper L C H)
        → IsValid lib answers w
        → helper_pending w.helper_read ≡ false
        → helper_pending w.helper_write ≡ false
        → FlowSubmitted (submit_frontend lib w)
    unfolding submit_frontend allowed
    submit_frontend-submits w v p q = ground (arith, room.takes w.cbe)

    flow-Unless :
        (fuel : ℕ) (f : Flow (Wrapper L C H))
        → FlowSubmitted f
        → IfOk (Unless Settled) (elim f [ stop b v ↦ ok (b, v) | go b v ↦ run_stages lib fuel v ])
    flow-Unless fuel (stop b v) q = λ e. q
    flow-Unless fuel (go b v) q = run_stages-Unless fuel v q.1

    -- A call that reports no progress leaves every request with the CBE, or over.
    pub handle_cbe_frontend-Settled :
        (fuel : ℕ) (w : Wrapper L C H)
        → IsValid lib answers w
        → IfOk (Unless Settled) (handle_cbe_frontend lib fuel w)
    unfolding handle_cbe_frontend submit_helpers
    handle_cbe_frontend-Settled fuel w v =
        let v1 = submit_helper_read-IsValid lib answers w v in
        let v2 = submit_helper_write-IsValid lib answers _ v1 in
        let (p, q) = submit_helper_write-submits _ v1 (submit_helper_read-submits w v) in
        flow-Unless fuel _ (submit_frontend-submits _ v2 p q)
