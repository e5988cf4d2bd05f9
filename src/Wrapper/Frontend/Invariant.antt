-- ===== src/Wrapper/Frontend/Invariant.antt =====
-- The states that the requests of src/lib/vfs/cbe/vfs.cc can be in together, and that every
-- stage of `_handle_cbe_frontend` keeps to them.
pub mod Data
use cbe.Wrapper.Frontend.Transfer.{obtain, store_block, Place, client, helper, place}
use cbe.Wrapper.Frontend.Helper.{finish_helper_read, finish_helper_write, serve_client}
use cbe.Wrapper.Frontend.Complete.{complete_request, drop, drain}
use cbe.Types.{block_size, Operation, valid, Request, item, u64}
use cbe.Wrapper.Frontend.{execute_cbe}
use cbe.Prelude.{
  Bool, arith, ◌≡◌, false, true, not, ◌||◌, ◌+◌, ◌≤◌, subst, ℕ, ok, refl, suc, Bool-cases, inr,
  ok-injective, inl, zero, Result, if◌then◌else◌, throw, Bytes, ◌≢◌, minus_one, ◌>>=◌, ◌==◌, ap,
  ◌*◌,
}
use cbe.Interfaces.{Library}
use cbe.Wrapper.{
  Wrapper, HelperState, FrontendState, helper_complete, HelperRequest, helper_in_progress,
}
use cbe.Wrapper.Frontend.Admit.{
  submit_frontend, go, stop, Flow, submit_helper_read, submit_helper_write,
}
use cbe.Interfaces.Contracts.{Answers, is_control}

-- Which states of the helper read, the helper write and the client's request go together, and
-- whether the CBE may then owe the answer to a data request.
unfoldable pub allowed : HelperState → HelperState → FrontendState → Bool → Bool
allowed HelperState.none HelperState.none FrontendState.in_progress owes = true
allowed HelperState.none HelperState.none f owes = not owes
allowed HelperState.pending HelperState.none FrontendState.in_progress owes = not owes
allowed HelperState.in_progress HelperState.none FrontendState.in_progress owes = true
allowed HelperState.complete HelperState.none FrontendState.in_progress owes = not owes
allowed HelperState.none HelperState.pending FrontendState.in_progress owes = not owes
allowed HelperState.none HelperState.in_progress FrontendState.in_progress owes = true
allowed HelperState.none HelperState.complete FrontendState.in_progress owes = not owes
allowed r w f owes = false

abbrev pub helps : HelperState → Bool
helps HelperState.none = false
helps _ = true

module _ {L C H : Type 0} (lib : Library L) (answers : Answers lib) where
  open answers use {owes}

  pub record IsValid (w : Wrapper L C H) : Type 0 where
    pub states :
        allowed w.helper_read.state w.helper_write.state w.frontend.state (owes w.cbe) ≡ true
    pub bounded :
        (helps w.helper_read.state || helps w.helper_write.state) ≡ true
        → w.frontend.helper_offset + w.frontend.count ≤ block_size

  pub submit_helper_read-IsValid :
      (w : Wrapper L C H) → IsValid w → IsValid (submit_helper_read lib w)
  unfolding submit_helper_read allowed
  submit_helper_read-IsValid w v = ground arith

  pub submit_helper_write-IsValid :
      (w : Wrapper L C H) → IsValid w → IsValid (submit_helper_write lib w)
  unfolding submit_helper_write allowed
  submit_helper_write-IsValid w v = ground arith

  abbrev pub FlowIsValid : Flow (Wrapper L C H) → Type 0
  FlowIsValid (go b v) = IsValid v
  FlowIsValid (stop b v) = IsValid v

  pub submit_frontend-IsValid :
      (w : Wrapper L C H) → IsValid w → FlowIsValid (submit_frontend lib w)
  unfolding submit_frontend allowed
  submit_frontend-IsValid w v = ground arith

  pub execute_cbe-IsValid : (w : Wrapper L C H) → IsValid w → IsValid (execute_cbe lib w).1
  unfolding execute_cbe allowed
  execute_cbe-IsValid w v = ground (arith, answers.execute_owes w.buffers w.cbe)

  -- One round of the loop. The CBE owed a data request that has completed, and `l` is its state
  -- once the request is dropped.
  pub complete_op-IsValid :
      (o : Operation) (r : Request) (l : L) (w : Wrapper L C H)
      → IsValid w
      → (is_control o ≡ false → owes w.cbe ≡ true)
      → (is_control o ≡ false → owes l ≡ false)
      → (is_control o ≡ true → owes l ≡ owes w.cbe)
      → IsValid (complete_request (record r { operation = o }) (record w { cbe = l })).1
  unfolding complete_request allowed
  complete_op-IsValid Operation.rekey r l w v p q k = ground (arith, k refl)
  complete_op-IsValid Operation.extend_vbd r l w v p q k = ground (arith, k refl)
  complete_op-IsValid Operation.extend_ft r l w v p q k = ground (arith, k refl)
  complete_op-IsValid Operation.create_snapshot r l w v p q k = ground (arith, k refl)
  complete_op-IsValid Operation.discard_snapshot r l w v p q k = ground (arith, k refl)
  complete_op-IsValid _ r l w v p q k = ground (arith, p refl, q refl)

  pub complete_request-IsValid :
      (w : Wrapper L C H)
      → let r = Library.peek_completed_client_request lib w.cbe in
        valid r ≡ true → IsValid w → IsValid (complete_request r (drop lib r w)).1
  complete_request-IsValid w p v =
      let r = Library.peek_completed_client_request lib w.cbe in
      complete_op-IsValid r.operation r _ w v (answers.peek_owed w.cbe p)
        (answers.drop_data r w.cbe) (answers.drop_control r w.cbe)

  pub drain-IsValid :
      (fuel : ℕ) (progress : Bool) (w : Wrapper L C H) (t : Bool × Wrapper L C H)
      → IsValid w
      → drain lib fuel progress w ≡ ok t
      → IsValid t.1
  unfolding drain
  drain-IsValid zero progress w t v e = cc
  drain-IsValid (suc fuel) progress w t v e =
      let r = Library.peek_completed_client_request lib w.cbe in
      let next = complete_request r (drop lib r w) in
      elim (Bool-cases (valid r)) [
        | inr none_left ↦ subst (λ u. IsValid u.1) (ok-injective (rw none_left at e)) v
        | inl found ↦
            let v' : IsValid next.1 = complete_request-IsValid w found v in
            elim (Bool-cases next.0) [
              | inl more ↦ drain-IsValid fuel true next.1 t v' (rw (found, more) at e)
              | inr left ↦ subst (λ u. IsValid u.1) (ok-injective (rw (found, left) at e)) v'
            ]
      ]

  pub finish_helper_read-IsValid :
      (progress : Bool) (w : Wrapper L C H) → IsValid w → IsValid (finish_helper_read progress w).1
  unfolding finish_helper_read allowed
  finish_helper_read-IsValid progress w v = go w.frontend.cbe_request.operation
    where
      go :
          (o : Operation)
          → IsValid (
              let r : Bool × Wrapper L C H =
                (if helper_complete w.helper_read
                  then (true, serve_client o w)
                  else (progress, w)) in
              r.1)
      go Operation.read = ground arith
      go Operation.write = ground arith
      go _ = ground arith

  pub finish_helper_write-IsValid :
      (progress : Bool) (w : Wrapper L C H) → IsValid w → IsValid (finish_helper_write progress w).1
  unfolding finish_helper_write allowed
  finish_helper_write-IsValid progress w v = ground arith

  pub set_cbe-IsValid :
      (l : L) (w : Wrapper L C H) → IsValid w → owes l ≡ owes w.cbe → IsValid (record w { cbe = l })
  unfolding allowed
  set_cbe-IsValid l w v e = ground arith

  pub store_block-IsValid :
      (p : Place) (d : Bytes) (w : Wrapper L C H) → IsValid w → IsValid (store_block lib p d w)
  unfolding store_block
  store_block-IsValid helper d w v = record { states = v.states; bounded = v.bounded }
  store_block-IsValid (client a) d w v = record { states = v.states; bounded = v.bounded }
