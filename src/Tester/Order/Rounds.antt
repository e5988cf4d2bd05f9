-- ===== src/Tester/Order/Rounds.antt =====
-- The order of the tests over the rounds of `Main::_execute` in src/app/cbe_tester/main.cc.
use cbe.Tester.Order.Pass.{execute_cbe-Step}
use cbe.Prelude.{
  Leaves, Leaves-always, Leaves-bind, ℕ, zero, suc, Bool, true, false, Result, List, if_elim,
  Option, some, none, refl,
}
use cbe.Types.{Request}
use cbe.Interfaces.Session.{JobLibrary}
use cbe.Configuration.{Configuration}
use cbe.Tester.{
  Test, start_test, as_initialize, as_check, as_dump, with_initialize, with_check, with_dump,
  check_done, dump_done, initialize_done,
}
use cbe.Tester.Main.{
  Parts, M, Main, State, conclude_check, conclude_dump, conclude_init, execute_cbe_check,
  execute_cbe_dump, execute_cbe_init, run_job, put_backend,
}
use cbe.Tester.Execute.{
  exit_unless, begin_initialize, begin_check, begin_dump, start_initialize, start_check, start_dump,
  destruct_cbe, construct_cbe, execute_state, execute_round, execute, is_invalid,
}
use cbe.Tester.Order.{same, start_test-Ordered, end_test-Ordered}
use cbe.Tester.Order.Stages.{InOrder, Goes}
use cbe.Tester.Order.Exchange.{Steps}

module _ {L C K Jc Jd Ji D : Type 0} (env : Parts L C K Jc Jd Ji D)
    (configured : List (Test D)) where
  abbrev I : M env → Type 0
  I = InOrder env configured

  abbrev G : Result (Bool × M env) → Type 0
  G = Goes env configured

  abbrev Step : (M env → Result (Bool × M env)) → Type 0
  Step = Steps env configured

  -- The libraries that initialise, check and dump.
  conclude_init-Ordered :
      (x : Option Request) (j : Ji) (m : M env) → I m → I (conclude_init env x j m)
  unfolding conclude_init initialize_done
  conclude_init-Ordered none j m o = o
  conclude_init-Ordered (some r) j m o = end_test-Ordered configured m.block_session o r.success

  conclude_check-Ordered :
      (x : Option Request) (j : Jc) (m : M env) → I m → I (conclude_check env x j m)
  unfolding conclude_check check_done
  conclude_check-Ordered none j m o = o
  conclude_check-Ordered (some r) j m o = end_test-Ordered configured m.block_session o r.success

  conclude_dump-Ordered :
      (x : Option Request) (j : Jd) (m : M env) → I m → I (conclude_dump env x j m)
  unfolding conclude_dump dump_done
  conclude_dump-Ordered none j m o = o
  conclude_dump-Ordered (some r) j m o = end_test-Ordered configured m.block_session o r.success

  execute_state-Goes :
      (fuel : ℕ) (s : State) (progress : Bool) (m : M env)
      → I m
      → G (execute_state env fuel s progress m)
  unfolding execute_state destruct_cbe construct_cbe execute_cbe_init execute_cbe_check
      execute_cbe_dump put_backend
  execute_state-Goes fuel State.cbe_init progress m o =
      Leaves-always _ (run_job env env.init true progress m.cbe_init (destruct_cbe env m)) _
        (λ e. conclude_init-Ordered _ _ (put_backend env e.1 (destruct_cbe env m)) o)
  execute_state-Goes fuel State.cbe_check progress m o =
      Leaves-always _ (run_job env env.check false progress m.cbe_check (destruct_cbe env m)) _
        (λ e. conclude_check-Ordered _ _ (put_backend env e.1 (destruct_cbe env m)) o)
  execute_state-Goes fuel State.cbe_dump progress m o =
      Leaves-always _ (run_job env env.dump false progress m.cbe_dump (destruct_cbe env m)) _
        (λ e. conclude_dump-Ordered _ _ (put_backend env e.1 (destruct_cbe env m)) o)
  execute_state-Goes fuel State.cbe_run progress m o =
      execute_cbe-Step env configured fuel progress (construct_cbe env m)
        (if_elim I m.cbe_constructed _ _ (λ _. o) (λ _. o))
  execute_state-Goes fuel State.invalid progress m o =
      execute_cbe-Step env configured fuel progress (construct_cbe env m)
        (if_elim I m.cbe_constructed _ _ (λ _. o) (λ _. o))

  exit_unless-Ordered : (b : Bool) (m : M env) → I m → I (exit_unless env b m)
  unfolding exit_unless
  exit_unless-Ordered true m o = o
  exit_unless-Ordered false m o = same configured (Main.block_session m) _ refl refl refl o

  begin_initialize-Ordered :
      (m : M env) (x : Option Configuration) → I m → I (begin_initialize env m x).1
  unfolding begin_initialize
  begin_initialize-Ordered m none o = o
  begin_initialize-Ordered m (some cfg) o =
      exit_unless-Ordered (JobLibrary.client_request_acceptable env.init m.cbe_init) m o

  begin_check-Ordered : (m : M env) (x : Option (Unit {0})) → I m → I (begin_check env m x).1
  unfolding begin_check
  begin_check-Ordered m none o = o
  begin_check-Ordered m (some cfg) o =
      exit_unless-Ordered (JobLibrary.client_request_acceptable env.check m.cbe_check) m o

  begin_dump-Ordered : (m : M env) (x : Option D) → I m → I (begin_dump env m x).1
  unfolding begin_dump
  begin_dump-Ordered m none o = o
  begin_dump-Ordered m (some cfg) o =
      exit_unless-Ordered (JobLibrary.client_request_acceptable env.dump m.cbe_dump) m o

  start_initialize-Ordered : (m : M env) → I m → I (start_initialize env m).1
  unfolding start_initialize with_initialize
  start_initialize-Ordered m o =
      let r = start_test as_initialize m.block_session in
      if_elim (λ (s : Bool × M env). I s.1) (is_invalid m.state) _ _
        (λ _.
          begin_initialize-Ordered (record m { block_session = r.0 }) r.1
            (start_test-Ordered configured as_initialize m.block_session o))
        (λ _. o)

  start_check-Ordered : (m : M env) → I m → I (start_check env m).1
  unfolding start_check with_check
  start_check-Ordered m o =
      let r = start_test as_check m.block_session in
      if_elim (λ (s : Bool × M env). I s.1) (is_invalid m.state) _ _
        (λ _.
          begin_check-Ordered (record m { block_session = r.0 }) r.1
            (start_test-Ordered configured as_check m.block_session o))
        (λ _. o)

  start_dump-Ordered : (m : M env) → I m → I (start_dump env m).1
  unfolding start_dump with_dump
  start_dump-Ordered m o =
      let r = start_test as_dump m.block_session in
      if_elim (λ (s : Bool × M env). I s.1) (is_invalid m.state) _ _
        (λ _.
          begin_dump-Ordered (record m { block_session = r.0 }) r.1
            (start_test-Ordered configured as_dump m.block_session o))
        (λ _. o)

  execute_round-Step : (fuel : ℕ) → Step (execute_round env fuel)
  unfolding execute_round
  execute_round-Step fuel m o =
      let m1 = (start_initialize env m).1 in
      let m2 = (start_check env m1).1 in
      let m3 = (start_dump env m2).1 in
      execute_state-Goes fuel m3.state _ m3
        (start_dump-Ordered m2 (start_check-Ordered m1 (start_initialize-Ordered m o)))

  pub execute-Ordered : (fuel rounds : ℕ) (m : M env) → I m → Leaves I (execute env fuel rounds m)
  unfolding execute
  execute-Ordered fuel zero m o = tt
  execute-Ordered fuel (suc rounds) m o =
      Leaves-bind (λ (s : Bool × M env). I s.1) I (execute_round env fuel m) _
        (λ t p. if_elim (Leaves I) t.0 _ _ (λ _. execute-Ordered fuel rounds t.1 p) (λ _. p))
        (execute_round-Step fuel m o)
