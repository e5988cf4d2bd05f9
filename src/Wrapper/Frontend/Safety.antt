-- ===== src/Wrapper/Frontend/Safety.antt =====
-- `_handle_cbe_frontend` of src/lib/vfs/cbe/vfs.cc as a whole: the invariant that it keeps, and
-- the end of its loop.
use cbe.Types.{valid, Operation, Request}
use cbe.Wrapper.Frontend.Admit.{Flow, stop, go, submit_helpers}
use cbe.Wrapper.Frontend.Transfer.{client_read, client_write}
use cbe.Wrapper.Frontend.Helper.{finish_helper_read, finish_helper_write}
use cbe.Wrapper.Frontend.Complete.{drain, complete_request, drop}
use cbe.Wrapper.Frontend.Invariant.Data.{
  Ends, Ends-bind, FlowIsVal, client_read-IsValid, client_write-IsValid,
}
use cbe.Wrapper.{Wrapper}
use cbe.Prelude.{
  ℕ, Bool, ◌≡◌, ok, Exception, Result-cases, inl, throw, out_of_fuel, inr, suc, sym, ◌≢◌, minus_one,
  ◌<◌, ◌∙◌, Bool-cases, true, zero, arith, refl,
}
use cbe.Wrapper.Frontend.{handle_cbe_frontend, run_stages, execute_cbe}
use cbe.Interfaces.Contracts.{Answers, Drains}
use cbe.Interfaces.{Library}
use cbe.Wrapper.Frontend.Invariant.{
  IsValid, drain-IsValid, execute_cbe-IsValid, finish_helper_read-IsValid,
  finish_helper_write-IsValid, submit_helper_write-IsValid, submit_helper_read-IsValid,
  submit_frontend-IsValid,
}

out_of_fuel-≢-minus_one : out_of_fuel ≢ minus_one
out_of_fuel-≢-minus_one e = cc

ok-≢-throw : {A : Type 0} {P : Type 0} {a : A} {x : Exception} → ok a ≡ throw x → P
ok-≢-throw e = cc

complete_op-cbe :
    {L C H : Type 0} (o : Operation) (r : Request) (w : Wrapper L C H)
    → Wrapper.cbe (complete_request (record r { operation = o }) w).1 ≡ w.cbe
unfolding complete_request
complete_op-cbe Operation.rekey r w = refl
complete_op-cbe Operation.extend_vbd r w = refl
complete_op-cbe Operation.extend_ft r w = refl
complete_op-cbe Operation.create_snapshot r w = refl
complete_op-cbe Operation.discard_snapshot r w = refl
complete_op-cbe _ r w = ground arith

complete_request-cbe :
    {L C H : Type 0} (r : Request) (w : Wrapper L C H)
    → Wrapper.cbe (complete_request r w).1 ≡ w.cbe
complete_request-cbe r w = complete_op-cbe r.operation r w

module _ {L C H : Type 0} (lib : Library L) (answers : Answers lib) where
  open answers use {owes}

  abbrev PairIsValid : Bool × Wrapper L C H → Type 0
  PairIsValid r = IsValid lib answers r.1

  drain-throws :
      (fuel : ℕ) (progress : Bool) (w : Wrapper L C H) (x : Exception)
      → drain lib fuel progress w ≡ throw x
      → x ≡ out_of_fuel
  unfolding drain
  drain-throws zero progress w x e = cc
  drain-throws (suc fuel) progress w x e =
      let r = Library.peek_completed_client_request lib w.cbe in
      let next = complete_request r (drop lib r w) in
      elim (Bool-cases (valid r)) [
        | inr none_left ↦ cc
        | inl found ↦ elim (Bool-cases next.0) [
          | inl more ↦ drain-throws fuel true next.1 x (rw (found, more) at e)
          | inr left ↦ ok-≢-throw (rw (found, left) at e)
        ]
      ]

  drain-Ends :
      (fuel : ℕ) (progress : Bool) (w : Wrapper L C H)
      → IsValid lib answers w
      → Ends PairIsValid (drain lib fuel progress w)
  drain-Ends fuel progress w v = elim (Result-cases (drain lib fuel progress w)) [
    | inl (t, e) ↦ rw e (drain-IsValid lib answers fuel progress w t v e)
    | inr (x, e) ↦ rw e (λ m. out_of_fuel-≢-minus_one (sym (drain-throws fuel progress w x e) ∙ m))
  ]

  after_read-Ends :
      (f : Flow (Wrapper L C H))
      → FlowIsVal lib answers f
      → Ends PairIsValid (elim f [ stop b v ↦ ok (b, v) | go b v ↦ client_write lib b v ])
  after_read-Ends (stop b v) q = q
  after_read-Ends (go b v) q = client_write-IsValid lib answers b v q

  run_stages-Ends :
      (fuel : ℕ) (w : Wrapper L C H)
      → IsValid lib answers w
      → Ends PairIsValid (run_stages lib fuel w)
  unfolding run_stages
  run_stages-Ends fuel w v =
      let run = execute_cbe lib w in
      Ends-bind PairIsValid PairIsValid (drain lib fuel run.0 run.1) _
        (drain-Ends fuel run.0 run.1 (execute_cbe-IsValid lib answers w v))
        λ r p.
          let v2 = finish_helper_read-IsValid lib answers r.0 r.1 p in
          let s = finish_helper_read r.0 r.1 in
          let t = finish_helper_write s.0 s.1 in
          Ends-bind (FlowIsVal lib answers) PairIsValid (client_read lib t.0 t.1) _
            (client_read-IsValid lib answers t.0 t.1
              (finish_helper_write-IsValid lib answers s.0 s.1 v2))
            λ f q. after_read-Ends f q

  flow-Ends :
      (fuel : ℕ) (f : Flow (Wrapper L C H))
      → FlowIsVal lib answers f
      → Ends PairIsValid (elim f [ stop b v ↦ ok (b, v) | go b v ↦ run_stages lib fuel v ])
  flow-Ends fuel (stop b v) q = q
  flow-Ends fuel (go b v) q = run_stages-Ends fuel v q

  -- With a CBE that answers only what it was asked, and from states that go together, the
  -- function never finds data of the CBE that belongs to no request, which is its `throw -1`;
  -- and a call that returns leaves the requests of the client and of the helpers in states that
  -- go together, and the bytes of an unaligned request within its block.
  pub handle_cbe_frontend-Ends :
      (fuel : ℕ) (w : Wrapper L C H)
      → IsValid lib answers w
      → Ends PairIsValid (handle_cbe_frontend lib fuel w)
  unfolding handle_cbe_frontend submit_helpers
  handle_cbe_frontend-Ends fuel w v =
      let v1 =
        submit_helper_write-IsValid lib answers _ (submit_helper_read-IsValid lib answers w v) in
      flow-Ends fuel _ (submit_frontend-IsValid lib answers _ v1)

  fewer_left :
      (drains : Drains lib) (fuel : ℕ) (w : Wrapper L C H)
      → let r = Library.peek_completed_client_request lib w.cbe in
        let next = complete_request r (drop lib r w) in
        Drains.queued drains w.cbe < suc fuel
        → valid r ≡ true
        → Drains.queued drains next.1.cbe < fuel
  fewer_left drains fuel w b found =
      let r = Library.peek_completed_client_request lib w.cbe in
      rw (complete_request-cbe r (drop lib r w))
        (let fewer = drains.drop_fewer w.cbe found in omega arith)

  -- With a CBE that hands out each completed request once, the loop that collects them ends: it
  -- returns within one round more than there are requests that wait.
  pub drain_ends :
      (drains : Drains lib) (fuel : ℕ) (progress : Bool) (w : Wrapper L C H)
      → Drains.queued drains w.cbe < fuel
      → (t : Bool × Wrapper L C H) × (drain lib fuel progress w ≡ ok t)
  unfolding drain
  drain_ends drains zero progress w b = absurd (omega arith)
  drain_ends drains (suc fuel) progress w b =
      let r = Library.peek_completed_client_request lib w.cbe in
      let next = complete_request r (drop lib r w) in
      elim (Bool-cases (valid r)) [
        | inr none_left ↦ ((progress, w), rw none_left refl)
        | inl found ↦ elim (Bool-cases next.0) [
          | inr left ↦ ((true, next.1), rw (found, left) refl)
          | inl more ↦
              let rest = drain_ends drains fuel true next.1 (fewer_left drains fuel w b found) in
              (rest.0, rw (found, more) rest.1)
        ]
      ]
