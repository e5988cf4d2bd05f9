-- ===== src/Tester/Invariant/Jobs.antt =====
-- The libraries that initialise, check and dump a device, in `Main::_execute` of
-- src/app/cbe_tester/main.cc, and the invariant of `Main`.
use cbe.Tester.Invariant.Errors.{exchange-Safe}
use cbe.Configuration.{Configuration}
use cbe.Interfaces.Session.{JobLibrary}
use cbe.Tester.Execute.{
  is_invalid, begin_check, begin_dump, begin_initialize, start_check, start_dump, start_initialize,
  exit_unless,
}
use cbe.Tester.{
  Test, Session, check_done, dump_done, initialize_done, with_check, with_dump, with_initialize,
  end_test, holds,
}
use cbe.Prelude.{Bool, true, false, ◌≡◌, refl, Option, some, none, arith, if_elim}
use cbe.Types.{Request}
use cbe.Tester.Invariant.{
  Steady, Keeps, Safe, Keeps-map, control, IsValid, Quiet, Flags-Quiet, is_check, is_dump, is_init,
}
use cbe.Tester.Invariant.Taking.{Started, kept, idle, taken, Holds, start_test-Started}
use cbe.Tester.Invariant.Starts.{with_session}
use cbe.Tester.{start_test, as_initialize, as_check, as_dump}
use cbe.Tester.Main.{
  Parts, M, conclude_check, conclude_dump, conclude_init, execute_cbe_check, execute_cbe_dump,
  execute_cbe_init, run_job, put_backend,
}

module _ {L C K Jc Jd Ji D : Type 0} (env : Parts L C K Jc Jd Ji D) where
  -- The invariant of `Main`.
  abbrev pub Valid : M env → Type 0
  Valid m = IsValid (control m)

  pub Steady-Valid : (m : M env) → Steady env m → Valid m
  Steady-Valid m v = let f = v.flags in let j = v.no_job in ground arith

  -- A job is begun where no test was in progress.
  module _ {X : Type 0} (sel : Test D → Option X) (begin : M env → Option X → Bool × M env) where
    begin-Valid :
        (m : M env) (r : Session D × Option X)
        → Started (Holds sel) m.block_session r
        → Valid m
        → is_invalid m.state ≡ true
        → ((n : M env) → begin n none ≡ (false, n))
        → ((n : M env) (x : X)
            → Quiet (control n)
            → Holds sel n.block_session x
            → Valid (begin n (some x)).1)
        → Valid (begin (with_session env m r.0) r.1).1
    begin-Valid m _ kept v i f g = rw (f m) v
    begin-Valid m _ (idle t e e' c) v i f g =
        rw (f (with_session env m t)) (let q = Flags-Quiet (control m) v.flags e in ground arith)
    begin-Valid m _ (taken t x e c p) v i f g =
        g (with_session env m t) x (let q = Flags-Quiet (control m) v.flags e in ground arith) p

  begin_initialize-Valid :
      (m : M env) (x : Configuration)
      → Quiet (control m)
      → Holds as_initialize m.block_session x
      → Valid (begin_initialize env m (some x)).1
  unfolding begin_initialize exit_unless
  begin_initialize-Valid m x q h = ground arith

  pub start_initialize-Valid : (m : M env) → Valid m → Valid (start_initialize env m).1
  unfolding start_initialize with_initialize begin_initialize
  start_initialize-Valid m v =
      let r = start_test as_initialize m.block_session in
      if_elim (λ (s : Bool × M env). Valid s.1) (is_invalid m.state) _ _
        (λ i.
          begin-Valid as_initialize (begin_initialize env) m r
            (start_test-Started as_initialize m.block_session) v i (λ n. refl)
            (λ n x q h. begin_initialize-Valid n x q h))
        (λ _. v)

  begin_check-Valid :
      (m : M env) (x : Unit {0})
      → Quiet (control m)
      → Holds as_check m.block_session x
      → Valid (begin_check env m (some x)).1
  unfolding begin_check exit_unless
  begin_check-Valid m x q h = ground arith

  pub start_check-Valid : (m : M env) → Valid m → Valid (start_check env m).1
  unfolding start_check with_check begin_check
  start_check-Valid m v =
      let r = start_test as_check m.block_session in
      if_elim (λ (s : Bool × M env). Valid s.1) (is_invalid m.state) _ _
        (λ i.
          begin-Valid as_check (begin_check env) m r (start_test-Started as_check m.block_session) v
            i (λ n. refl) (λ n x q h. begin_check-Valid n x q h))
        (λ _. v)

  begin_dump-Valid :
      (m : M env) (x : D)
      → Quiet (control m)
      → Holds as_dump m.block_session x
      → Valid (begin_dump env m (some x)).1
  unfolding begin_dump exit_unless
  begin_dump-Valid m x q h = ground arith

  pub start_dump-Valid : (m : M env) → Valid m → Valid (start_dump env m).1
  unfolding start_dump with_dump begin_dump
  start_dump-Valid m v =
      let r = start_test as_dump m.block_session in
      if_elim (λ (s : Bool × M env). Valid s.1) (is_invalid m.state) _ _
        (λ i.
          begin-Valid as_dump (begin_dump env) m r (start_test-Started as_dump m.block_session) v i
            (λ n. refl) (λ n x q h. begin_dump-Valid n x q h))
        (λ _. v)

  run_job-Safe :
      {J A : Type 0} (job : JobLibrary J A) (syncs progress : Bool) (j : J) (m : M env)
      → Safe (run_job env job syncs progress j m)
  unfolding run_job
  run_job-Safe job syncs progress j m = exchange-Safe (JobLibrary.io job) env.blk syncs 1 _ _

  -- The end of the library's job ends the test.
  conclude_init-Valid :
      (o : Option Request) (j : Ji) (m : M env)
      → Valid m
      → is_init m.state ≡ true
      → Valid (conclude_init env o j m)
  unfolding conclude_init initialize_done end_test holds
  conclude_init-Valid none j m v i = let f = v.flags in ground arith
  conclude_init-Valid (some r) j m v i = let f = v.flags in ground arith

  pub execute_cbe_init-Keeps :
      (progress : Bool) (m : M env)
      → Valid m
      → is_init m.state ≡ true
      → Keeps Valid (execute_cbe_init env progress m)
  unfolding execute_cbe_init put_backend
  execute_cbe_init-Keeps progress m v i =
      Keeps-map Valid (run_job env env.init true progress m.cbe_init m) _ _
        (run_job-Safe env.init true progress m.cbe_init m)
        (λ e.
          conclude_init-Valid _ _ (put_backend env e.1 m)
            (record {
              flags = v.flags;
              initializes = v.initializes;
              checks = v.checks;
              dumps = v.dumps;
            })
            i)

  -- The end of the library's job ends the test.
  conclude_check-Valid :
      (o : Option Request) (j : Jc) (m : M env)
      → Valid m
      → is_check m.state ≡ true
      → Valid (conclude_check env o j m)
  unfolding conclude_check check_done end_test holds
  conclude_check-Valid none j m v i = let f = v.flags in ground arith
  conclude_check-Valid (some r) j m v i = let f = v.flags in ground arith

  pub execute_cbe_check-Keeps :
      (progress : Bool) (m : M env)
      → Valid m
      → is_check m.state ≡ true
      → Keeps Valid (execute_cbe_check env progress m)
  unfolding execute_cbe_check put_backend
  execute_cbe_check-Keeps progress m v i =
      Keeps-map Valid (run_job env env.check false progress m.cbe_check m) _ _
        (run_job-Safe env.check false progress m.cbe_check m)
        (λ e.
          conclude_check-Valid _ _ (put_backend env e.1 m)
            (record {
              flags = v.flags;
              initializes = v.initializes;
              checks = v.checks;
              dumps = v.dumps;
            })
            i)

  -- The end of the library's job ends the test.
  conclude_dump-Valid :
      (o : Option Request) (j : Jd) (m : M env)
      → Valid m
      → is_dump m.state ≡ true
      → Valid (conclude_dump env o j m)
  unfolding conclude_dump dump_done end_test holds
  conclude_dump-Valid none j m v i = let f = v.flags in ground arith
  conclude_dump-Valid (some r) j m v i = let f = v.flags in ground arith

  pub execute_cbe_dump-Keeps :
      (progress : Bool) (m : M env)
      → Valid m
      → is_dump m.state ≡ true
      → Keeps Valid (execute_cbe_dump env progress m)
  unfolding execute_cbe_dump put_backend
  execute_cbe_dump-Keeps progress m v i =
      Keeps-map Valid (run_job env env.dump false progress m.cbe_dump m) _ _
        (run_job-Safe env.dump false progress m.cbe_dump m)
        (λ e.
          conclude_dump-Valid _ _ (put_backend env e.1 m)
            (record {
              flags = v.flags;
              initializes = v.initializes;
              checks = v.checks;
              dumps = v.dumps;
            })
            i)
