-- ===== src/Wrapper/Handle/Keeps.antt =====
-- Every operation of the `Wrapper` in src/lib/vfs/cbe/vfs.cc keeps the states that its requests
-- can be in together.
use cbe.Wrapper.Backend.{handle_cbe_backend}
use cbe.Wrapper.Frontend.Invariant.Data.{Ends}
use cbe.Wrapper.Encryption.{repeat, handle_crypto}
use cbe.Wrapper.Frontend.Safety.{handle_cbe_frontend-Ends}
use cbe.Types.{Operation, is_op}
use cbe.Wrapper.Frontend.{handle_cbe_frontend}
use cbe.Wrapper.Handle.Invariant.{
  PairValid, same-IsValid, handle_cbe_backend-IfOk, repeat-IfOk, handle_crypto-IfOk,
}
use cbe.IoJob.Calls.{IfOk, IfOk-bind}
use cbe.Wrapper.Handle.{handle_all, handle_frontend_request, resume}
use cbe.Prelude.{ℕ, Bool-cases, inl, inr, refl, Result, Bytes, false, ◌≡◌, arith, ok, throw, true}
use cbe.Wrapper.Submit.{
  submit_frontend_request, submit_sync, submit_unaligned, submit_aligned, unaligned,
}
use cbe.Interfaces.Contracts.{Answers}
use cbe.Interfaces.{Library, Crypto, BlockFile, Buffers}
use cbe.Wrapper.Frontend.Invariant.{IsValid, allowed}
use cbe.Wrapper.{
  Wrapper, ack_frontend_request, enqueue_handle, fresh_wrapper, frontend_pending, frontend_idle,
  frontend_in_progress,
}

Ends-IfOk : {A : Type 0} (P : A → Type 0) (m : Result A) → Ends P m → IfOk P m
Ends-IfOk P (ok a) e = e
Ends-IfOk P (throw x) e = tt

module _ {L C H : Type 0} (lib : Library L) (answers : Answers lib) where
  open answers use {owes}

  abbrev pub Val : Wrapper L C H → Type 0
  Val w = IsValid lib answers w

  -- A wrapper as it is constructed.
  pub fresh_wrapper-IsValid :
      (crypto : C) (handle : H) (buffers : Buffers) (memory : Bytes) (a b : ℕ)
      → IsValid lib answers (fresh_wrapper lib crypto handle buffers memory a b)
  unfolding fresh_wrapper allowed
  fresh_wrapper-IsValid crypto handle buffers memory a b = ground (arith, answers.fresh_owes)

  submit_unaligned-IsValid :
      (offset address count : ℕ) (op : Operation) (snap_id : ℕ) (w : Wrapper L C H)
      → IsValid lib answers w
      → frontend_idle w.frontend ≡ true
      → IsValid lib answers (submit_unaligned offset address count op snap_id w)
  unfolding submit_unaligned allowed
  submit_unaligned-IsValid offset address count op snap_id w v idle = record {
    states = ground arith;
    bounded = λ _. ground arith;
  }

  submit_aligned-IsValid :
      (offset address count : ℕ) (op : Operation) (snap_id : ℕ) (w : Wrapper L C H)
      → IsValid lib answers w
      → frontend_idle w.frontend ≡ true
      → IsValid lib answers (submit_aligned offset address count op snap_id w)
  unfolding submit_aligned allowed
  submit_aligned-IsValid offset address count op snap_id w v idle = record {
    states = ground arith;
    bounded = λ h. ground arith;
  }

  -- A request of the client may be submitted at any time.
  pub submit_frontend_request-IsValid :
      (offset address count : ℕ) (op : Operation) (snap_id : ℕ) (w : Wrapper L C H)
      → IsValid lib answers w
      → IsValid lib answers (submit_frontend_request offset address count op snap_id w).1
  unfolding submit_frontend_request submit_sync submit_unaligned submit_aligned allowed
  submit_frontend_request-IsValid offset address count op snap_id w v =
      elim (Bool-cases (frontend_idle w.frontend)) [
        | inr taken ↦ rw taken v
        | inl idle ↦ elim (Bool-cases (is_op op Operation.sync)) [
          | inl is_sync ↦ rw (idle, is_sync) (ground arith)
          | inr other ↦ elim (Bool-cases (unaligned offset count)) [
            | inl un ↦
                rw (idle, other, un)
                  (submit_unaligned-IsValid offset address count op snap_id w v idle)
            | inr al ↦
                rw (idle, other, al)
                  (submit_aligned-IsValid offset address count op snap_id w v idle)
          ]
        ]
      ]

  -- A request is acknowledged when it has come to an end.
  pub ack_frontend_request-IsValid :
      (w : Wrapper L C H)
      → IsValid lib answers w
      → frontend_pending w.frontend ≡ false
      → frontend_in_progress w.frontend ≡ false
      → IsValid lib answers (ack_frontend_request w)
  unfolding ack_frontend_request allowed
  ack_frontend_request-IsValid w v p q = ground arith

  pub enqueue_handle-IsValid :
      (h : ℕ) (w : Wrapper L C H) → IsValid lib answers w → IsValid lib answers (enqueue_handle h w)
  unfolding enqueue_handle
  enqueue_handle-IsValid h w v = elim (Bool-cases w.io_progress_pending) [
    | inl told ↦ rw told (same-IsValid lib answers w _ refl refl refl refl v)
    | inr waits ↦ rw waits (same-IsValid lib answers w _ refl refl refl refl v)
  ]

  module _ (cry : Crypto C) (fs : BlockFile H) where
    pub handle_all-IsValid :
        (fuel : ℕ) (w : Wrapper L C H)
        → IsValid lib answers w
        → IfOk (PairValid lib answers) (handle_all lib cry fs fuel w)
    unfolding handle_all
    handle_all-IsValid fuel w v =
        IfOk-bind (PairValid lib answers) (PairValid lib answers) (handle_cbe_frontend lib fuel w) _
          (Ends-IfOk (PairValid lib answers) (handle_cbe_frontend lib fuel w)
            (handle_cbe_frontend-Ends lib answers fuel w v))
          λ a va.
            IfOk-bind (PairValid lib answers) (PairValid lib answers)
              (handle_cbe_backend lib fs a.1) _
              (handle_cbe_backend-IfOk lib answers Val (same-IsValid lib answers) fs a.1 va)
              λ b vb.
                IfOk-bind (PairValid lib answers) (PairValid lib answers)
                  (handle_crypto lib cry fuel b.1) _
                  (handle_crypto-IfOk lib answers Val (same-IsValid lib answers) cry fuel b.1 vb)
                  λ c vc. vc

    -- A call that drives the requests on.
    pub handle_frontend_request-IsValid :
        (fuel : ℕ) (w : Wrapper L C H)
        → IsValid lib answers w
        → IfOk Val (handle_frontend_request lib cry fs fuel w)
    unfolding handle_frontend_request resume
    handle_frontend_request-IsValid fuel w v =
        IfOk-bind (PairValid lib answers) Val (repeat (handle_all lib cry fs fuel) fuel false w) _
          (repeat-IfOk Val (handle_all lib cry fs fuel) (handle_all-IsValid fuel) fuel false w v)
          λ r vr. same-IsValid lib answers r.1 _ refl refl refl refl vr
