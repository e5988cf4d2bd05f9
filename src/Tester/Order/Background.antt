-- ===== src/Tester/Order/Background.antt =====
-- The order of the tests over the stages of src/app/cbe_tester/main.cc that start and end a test
-- which deinitialises, lists snapshots, rekeys or extends.
use cbe.Prelude.{ℕ, Bool, ◌&&◌, ◌||◌, not, ◌==◌, Option, some, none, Result, List, if_elim}
use cbe.Types.{Operation, valid, is_op}
use cbe.Tester.{
  Test, Session, holds, as_deinitialize, as_list_snapshots, as_rekey, as_extend_vbd, as_extend_ft,
  start_test, with_deinitialize, with_list_snapshots, with_rekey, with_extend_vbd, with_extend_ft,
  extend_vbd_done, extend_ft_done, deinitialize_done, rekey_done,
}
use cbe.Tester.Main.{Parts, M}
use cbe.Tester.Cbe.{acceptable, completed, submit, drop, next_state}
use cbe.Tester.Background.{
  begin_deinitialize, start_deinitialize, end_deinitialize, list_snapshots, begin_rekey,
  start_rekey, end_rekey, begin_extend_vbd, start_extend_vbd, end_extend_vbd, begin_extend_ft,
  start_extend_ft, end_extend_ft,
}
use cbe.Tester.Order.{
  Ordered, start_test-Ordered, list-Ordered, end_test-Ordered, finish_extend-Ordered,
}
use cbe.Tester.Order.Stages.{InOrder, Goes, Leaves-map}

module _ {L C K Jc Jd Ji D : Type 0} (env : Parts L C K Jc Jd Ji D)
    (configured : List (Test D)) where
  abbrev I : M env → Type 0
  I = InOrder env configured

  abbrev G : Result (Bool × M env) → Type 0
  G = Goes env configured

  begin_deinitialize-Goes :
      (m : M env) (x : Option (Unit {0})) → I m → G (begin_deinitialize env m x)
  unfolding begin_deinitialize submit
  begin_deinitialize-Goes m none o = o
  begin_deinitialize-Goes m (some _) o = if_elim G (not (acceptable env m)) _ _ (λ _. tt) (λ _. o)

  pub start_deinitialize-Goes : (m : M env) → I m → G (start_deinitialize env m)
  unfolding start_deinitialize with_deinitialize
  start_deinitialize-Goes m o =
      let r = start_test as_deinitialize m.block_session in
      if_elim G m.deinitialize _ _ (λ _. o)
        λ _.
          begin_deinitialize-Goes (record m { block_session = r.0 }) r.1
            (start_test-Ordered configured as_deinitialize m.block_session o)

  pub end_deinitialize-Goes : (m : M env) → I m → G (end_deinitialize env m)
  unfolding end_deinitialize drop next_state deinitialize_done
  end_deinitialize-Goes m o =
      if_elim G (not (m.deinitialize && valid (completed env m))) _ _ (λ _. o)
        λ _.
          if_elim G (not (is_op (completed env m).operation Operation.deinitialize)) _ _ (λ _. tt)
            (λ _. end_test-Ordered configured m.block_session o (completed env m).success)

  pub list_snapshots-Goes : (m : M env) → I m → G (list_snapshots env m)
  unfolding list_snapshots with_list_snapshots
  list_snapshots-Goes m o =
      list-Ordered configured (start_test as_list_snapshots m.block_session)
        (start_test-Ordered configured as_list_snapshots m.block_session o)

  begin_rekey-Goes : (m : M env) (x : Option (Unit {0})) → I m → G (begin_rekey env m x)
  unfolding begin_rekey submit
  begin_rekey-Goes m none o = o
  begin_rekey-Goes m (some _) o = if_elim G (not (acceptable env m)) _ _ (λ _. tt) (λ _. o)

  pub start_rekey-Goes : (m : M env) → I m → G (start_rekey env m)
  unfolding start_rekey with_rekey
  start_rekey-Goes m o =
      let r = start_test as_rekey m.block_session in
      if_elim G m.rekey _ _ (λ _. o)
        λ _.
          begin_rekey-Goes (record m { block_session = r.0 }) r.1
            (start_test-Ordered configured as_rekey m.block_session o)

  pub end_rekey-Goes : (m : M env) → I m → G (end_rekey env m)
  unfolding end_rekey drop next_state rekey_done
  end_rekey-Goes m o =
      if_elim G (not (m.rekey && valid (completed env m))) _ _ (λ _. o)
        λ _.
          if_elim G (not (is_op (completed env m).operation Operation.rekey)) _ _ (λ _. tt)
            (λ _. end_test-Ordered configured m.block_session o (completed env m).success)

  begin_extend_vbd-Goes : (m : M env) (x : Option ℕ) → I m → G (begin_extend_vbd env m x)
  unfolding begin_extend_vbd submit
  begin_extend_vbd-Goes m none o = o
  begin_extend_vbd-Goes m (some n) o = if_elim G (not (acceptable env m)) _ _ (λ _. tt) (λ _. o)

  pub start_extend_vbd-Goes : (m : M env) → I m → G (start_extend_vbd env m)
  unfolding start_extend_vbd with_extend_vbd
  start_extend_vbd-Goes m o =
      let r = start_test as_extend_vbd m.block_session in
      if_elim G m.extend_vbd _ _ (λ _. o)
        λ _.
          begin_extend_vbd-Goes (record m { block_session = r.0 }) r.1
            (start_test-Ordered configured as_extend_vbd m.block_session o)

  pub end_extend_vbd-Goes : (m : M env) → I m → G (end_extend_vbd env m)
  unfolding end_extend_vbd drop next_state extend_vbd_done
  end_extend_vbd-Goes m o =
      if_elim G (not (m.extend_vbd && valid (completed env m))) _ _ (λ _. o)
        λ _.
          if_elim G
            (not (is_op (completed env m).operation Operation.extend_vbd)
              || not ((completed env m).count == m.extend_vbd_obj))
            _ _ (λ _. tt)
            λ _.
              Leaves-map (Ordered configured) _ _ _ (λ s p. p)
                (finish_extend-Ordered configured m.block_session o (completed env m).success
                  (holds as_extend_vbd (Session.test_in_progress m.block_session)))

  begin_extend_ft-Goes : (m : M env) (x : Option ℕ) → I m → G (begin_extend_ft env m x)
  unfolding begin_extend_ft submit
  begin_extend_ft-Goes m none o = o
  begin_extend_ft-Goes m (some n) o = if_elim G (not (acceptable env m)) _ _ (λ _. tt) (λ _. o)

  pub start_extend_ft-Goes : (m : M env) → I m → G (start_extend_ft env m)
  unfolding start_extend_ft with_extend_ft
  start_extend_ft-Goes m o =
      let r = start_test as_extend_ft m.block_session in
      if_elim G m.extend_ft _ _ (λ _. o)
        λ _.
          begin_extend_ft-Goes (record m { block_session = r.0 }) r.1
            (start_test-Ordered configured as_extend_ft m.block_session o)

  pub end_extend_ft-Goes : (m : M env) → I m → G (end_extend_ft env m)
  unfolding end_extend_ft drop next_state extend_ft_done
  end_extend_ft-Goes m o =
      if_elim G (not (m.extend_ft && valid (completed env m))) _ _ (λ _. o)
        λ _.
          if_elim G
            (not (is_op (completed env m).operation Operation.extend_ft)
              || not ((completed env m).count == m.extend_ft_obj))
            _ _ (λ _. tt)
            λ _.
              Leaves-map (Ordered configured) _ _ _ (λ s p. p)
                (finish_extend-Ordered configured m.block_session o (completed env m).success
                  (holds as_extend_ft (Session.test_in_progress m.block_session)))
