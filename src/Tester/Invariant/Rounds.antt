-- ===== src/Tester/Invariant/Rounds.antt =====
-- The loop of `Main::_execute` in src/app/cbe_tester/main.cc keeps the invariant.
use cbe.Tester.Invariant.Jobs.{
  Valid, Steady-Valid, start_initialize-Valid, start_check-Valid, start_dump-Valid,
  execute_cbe_init-Keeps, execute_cbe_check-Keeps, execute_cbe_dump-Keeps,
}
use cbe.Tester.Invariant.Stages.{execute_cbe-Keeps}
use cbe.Interfaces.Session.{BlockSession}
use cbe.Tester.Execute.{
  execute, construct_cbe, execute_state, start_check, start_dump, start_initialize, destruct_cbe,
  execute_cbe, execute_round,
}
use cbe.Prelude.{
  ℕ, zero, suc, Bool, true, false, ◌≡◌, refl, Result, ok, throw, if_elim, ◌>>=◌, if◌then◌else◌, ap,
}
use cbe.Tester.Invariant.{
  Steady, Keeps, returns, throws, is_job, is_check, is_dump, is_init, Harmless,
}
use cbe.Tester.Main.{Main, Parts, M, State}

Keeps-weaken :
    {M : Type 0} (P Q : M → Type 0) (r : Result (Bool × M))
    → ((m : M) → P m → Q m)
    → Keeps P r
    → Keeps Q r
Keeps-weaken P Q _ f (returns b m p) = returns b m (f m p)
Keeps-weaken P Q _ f (throws e h i) = throws e h i

module _ {L C K Jc Jd Ji D : Type 0} (env : Parts L C K Jc Jd Ji D) where
  execute_cbe-Valid :
      (fuel : ℕ) (progress : Bool) (m : M env)
      → Valid env m
      → is_job m.state ≡ false
      → Keeps (Valid env) (execute_cbe env fuel progress (construct_cbe env m))
  unfolding construct_cbe
  execute_cbe-Valid fuel progress m v i =
      Keeps-weaken (Steady env) (Valid env) _ (λ n w. Steady-Valid env n w)
        (execute_cbe-Keeps env fuel progress _ (
          if_elim (Steady env) m.cbe_constructed _ _ (λ _. record { flags = v.flags; no_job = i })
            (λ _. record { flags = v.flags; no_job = i })))

  execute_state-Keeps :
      (fuel : ℕ) (s : State) (progress : Bool) (m : M env)
      → Valid env m
      → m.state ≡ s
      → Keeps (Valid env) (execute_state env fuel s progress m)
  unfolding execute_state destruct_cbe
  execute_state-Keeps fuel State.cbe_init progress m v e =
      execute_cbe_init-Keeps env progress (record m { cbe_constructed = false })
        (record {
          flags = v.flags;
          initializes = v.initializes;
          checks = v.checks;
          dumps = v.dumps;
        })
        (ap is_init e)
  execute_state-Keeps fuel State.cbe_check progress m v e =
      execute_cbe_check-Keeps env progress (record m { cbe_constructed = false })
        (record {
          flags = v.flags;
          initializes = v.initializes;
          checks = v.checks;
          dumps = v.dumps;
        })
        (ap is_check e)
  execute_state-Keeps fuel State.cbe_dump progress m v e =
      execute_cbe_dump-Keeps env progress (record m { cbe_constructed = false })
        (record {
          flags = v.flags;
          initializes = v.initializes;
          checks = v.checks;
          dumps = v.dumps;
        })
        (ap is_dump e)
  execute_state-Keeps fuel State.cbe_run progress m v e =
      execute_cbe-Valid fuel progress m v (ap is_job e)
  execute_state-Keeps fuel State.invalid progress m v e =
      execute_cbe-Valid fuel progress m v (ap is_job e)

  -- A round of the loop keeps the invariant, whatever the libraries, the crypto component, the
  -- block session and the tree of snapshots answer.
  pub execute_round-Keeps :
      (fuel : ℕ) (m : M env) → Valid env m → Keeps (Valid env) (execute_round env fuel m)
  unfolding execute_round
  execute_round-Keeps fuel m v =
      let m1 = (start_initialize env m).1 in
      let m2 = (start_check env m1).1 in
      let m3 = (start_dump env m2).1 in
      execute_state-Keeps fuel m3.state _ m3
        (start_dump-Valid env m2 (start_check-Valid env m1 (start_initialize-Valid env m v))) refl

  -- What the loop comes to: a state in which the invariant holds, or an exception.
  abbrev pub Sound : Result (M env) → Type 0
  Sound (ok m) = Valid env m
  Sound (throw e) = Harmless e

  wake :
      (r : Bool × M env) (rest : Result (M env))
      → Sound rest
      → Valid env r.1
      → Sound (
          if r.0
          then rest
          else ok (record r.1 { blk = BlockSession.wakeup env.blk (Main.blk r.1) }))
  wake (true, m) rest h v = h
  wake (false, m) rest h v = record {
    flags = v.flags;
    initializes = v.initializes;
    checks = v.checks;
    dumps = v.dumps;
  }

  after_round :
      (f : M env → Result (M env)) (r : Result (Bool × M env))
      → ((m : M env) → Valid env m → Sound (f m))
      → Keeps (Valid env) r
      → Sound (
          r >>= λ t.
          if t.0
          then f t.1
          else ok (record t.1 { blk = BlockSession.wakeup env.blk (Main.blk t.1) }))
  after_round f _ h (returns b m v) = wake (b, m) (f m) (h m v) v
  after_round f _ h (throws e a b) = (a, b)

  -- From a state in which each flag, and each state that is that of a library which initialises,
  -- checks or dumps, goes with a test in progress of that type, and the snapshot that is to be
  -- discarded was created: the loop ends in such a state, if it ends, whatever the libraries, the
  -- crypto component, the block session and the tree of snapshots answer. Where it throws, it is
  -- neither for a test that was looked at while there was none, or none of that type, nor for a
  -- snapshot that could not be found.
  pub execute-Sound :
      (fuel rounds : ℕ) (m : M env) → Valid env m → Sound (execute env fuel rounds m)
  unfolding execute
  execute-Sound fuel zero m v = (λ h. cc, λ h. cc)
  execute-Sound fuel (suc rounds) m v =
      after_round (execute env fuel rounds) (execute_round env fuel m)
        (λ n w. execute-Sound fuel rounds n w) (execute_round-Keeps fuel m v)
