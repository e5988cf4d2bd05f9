-- ===== src/Tester/Order/Stages.antt =====
-- The order of the tests over the stages of `Main::_execute_cbe` in src/app/cbe_tester/main.cc that
-- start a test and end one.
use cbe.Prelude.{
  Leaves, Leaves-always, ℕ, Bool, ◌&&◌, not, Option, some, none, Result, ok, throw, ◌>>=◌, List,
  if_elim,
}
use cbe.Types.{Operation, valid, is_op}
use cbe.Types.Convert.{BlockRequest, convert_from}
use cbe.Tester.{
  Test, Session, holds, as_request, as_create_snapshot, as_discard_snapshot, as_deinitialize,
  as_list_snapshots, as_rekey, as_extend_vbd, as_extend_ft, start_test, with_requests,
  with_create_snapshot, with_discard_snapshot, with_deinitialize, with_list_snapshots, with_rekey,
  with_extend_vbd, with_extend_ft, create_snapshot_done, discard_snapshot_done, extend_vbd_done,
  extend_ft_done, deinitialize_done, rekey_done,
}
use cbe.Tester.Main.{Parts, M}
use cbe.Tester.Cbe.{
  accept_request, accept_requests, acknowledge, background, begin_create, start_create, end_create,
  begin_discard, start_discard, end_discard, acceptable, completed, submit, drop, next_state,
  is_valid_op,
}
use cbe.Tester.Order.{
  Ordered, start_test-Ordered, discard-Ordered, submit_ack-Ordered, finish_create-Ordered,
  finish_discard-Ordered,
}

-- What follows code that returns keeps what holds of its results.
pub Leaves-map :
    {A B : Type 0} (P : A → Type 0) (Q : B → Type 0) (r : Result A) (f : A → B)
    → ((a : A) → P a → Q (f a))
    → Leaves P r
    → Leaves Q (r >>= λ a. ok (f a))
Leaves-map P Q (ok a) f h p = h a p
Leaves-map P Q (throw e) f h p = tt

module _ {L C K Jc Jd Ji D : Type 0} (env : Parts L C K Jc Jd Ji D)
    (configured : List (Test D)) where
  abbrev pub InOrder : M env → Type 0
  InOrder m = Ordered configured m.block_session

  -- What a stage that returns leaves.
  abbrev pub Goes : Result (Bool × M env) → Type 0
  Goes r = Leaves (λ (s : Bool × M env). InOrder s.1) r

  accept_request-Goes :
      (m : M env) (x : Option BlockRequest) → InOrder m → Goes (accept_request env m x)
  unfolding accept_request submit
  accept_request-Goes m none o = o
  accept_request-Goes m (some r) o =
      if_elim Goes (not (is_valid_op r.type)) _ _ (λ _. o)
        (λ _. if_elim Goes (not (acceptable env m)) _ _ (λ _. o) (λ _. o))

  pub accept_requests-Goes : (m : M env) → InOrder m → Goes (accept_requests env m)
  unfolding accept_requests with_requests
  accept_requests-Goes m o =
      let r = start_test as_request m.block_session in
      accept_request-Goes (record m { block_session = r.0 }) r.1
        (start_test-Ordered configured as_request m.block_session o)

  pub acknowledge-Goes : (m : M env) → InOrder m → Goes (acknowledge env m)
  unfolding acknowledge drop next_state
  acknowledge-Goes m o =
      if_elim Goes (background env m) _ _ (λ _. o)
        λ _.
          if_elim Goes (not (valid (completed env m))) _ _ (λ _. o)
            λ _.
              Leaves-always _ (convert_from (completed env m)) _
                (λ r. submit_ack-Ordered configured m.block_session o r)

  begin_create-Goes : (m : M env) (x : Option ℕ) → InOrder m → Goes (ok (begin_create env m x))
  unfolding begin_create submit
  begin_create-Goes m none o = o
  begin_create-Goes m (some id) o =
      if_elim (λ r. Goes (ok r)) (not (acceptable env m)) _ _ (λ _. o) (λ _. o)

  pub start_create-Goes : (m : M env) → InOrder m → Goes (start_create env m)
  unfolding start_create with_create_snapshot
  start_create-Goes m o =
      let r = start_test as_create_snapshot m.block_session in
      if_elim Goes m.creating_snapshot _ _ (λ _. o)
        λ _.
          begin_create-Goes (record m { block_session = r.0 }) r.1
            (start_test-Ordered configured as_create_snapshot m.block_session o)

  pub end_create-Goes : (m : M env) → InOrder m → Goes (end_create env m)
  unfolding end_create drop next_state create_snapshot_done
  end_create-Goes m o =
      if_elim Goes (not m.creating_snapshot) _ _ (λ _. o)
        λ _.
          if_elim Goes
            (valid (completed env m) && is_op (completed env m).operation Operation.create_snapshot)
            _ _
            (λ _.
              Leaves-map (Ordered configured) _ _ _ (λ s p. p)
                (finish_create-Ordered configured m.block_session o env.avl (completed env m)
                  (holds as_create_snapshot (Session.test_in_progress m.block_session))))
            (λ _. o)

  begin_discard-Goes : (m : M env) (x : Option ℕ) → InOrder m → Goes (ok (begin_discard env m x))
  unfolding begin_discard submit
  begin_discard-Goes m none o = o
  begin_discard-Goes m (some id) o =
      if_elim (λ r. Goes (ok r)) (not (acceptable env m)) _ _ (λ _. o) (λ _. o)

  pub start_discard-Goes : (m : M env) → InOrder m → Goes (start_discard env m)
  unfolding start_discard with_discard_snapshot
  start_discard-Goes m o =
      let t = start_test as_discard_snapshot m.block_session in
      let r = cbe.Tester.start_discard t in
      if_elim Goes m.discard_snapshot _ _ (λ _. o)
        λ _.
          begin_discard-Goes (record m { block_session = r.0 }) r.1
            (discard-Ordered configured t
              (start_test-Ordered configured as_discard_snapshot m.block_session o))

  pub end_discard-Goes : (m : M env) → InOrder m → Goes (end_discard env m)
  unfolding end_discard drop next_state discard_snapshot_done
  end_discard-Goes m o =
      if_elim Goes (not m.discard_snapshot) _ _ (λ _. o)
        λ _.
          if_elim Goes
            (valid (completed env m)
              && is_op (completed env m).operation Operation.discard_snapshot)
            _ _
            (λ _.
              Leaves-map (Ordered configured) _ _ _ (λ s p. p)
                (finish_discard-Ordered configured m.block_session o env.avl (completed env m)
                  (holds as_discard_snapshot (Session.test_in_progress m.block_session))))
            (λ _. o)
