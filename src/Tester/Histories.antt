-- ===== src/Tester/Histories.antt =====
-- src/app/cbe_tester/main.cc, from the constructor of `Main` on: the block session signals that
-- packets were acknowledged or can be submitted, and `_execute` runs again.
use cbe.Prelude.{
  ◌++◌, ap, Leaves, Leaves-always, ℕ, ◌≡◌, Result, ok, false, subst, arith, throw, List, [], none,
  refl, sym,
}
use cbe.Types.{no_request}
use cbe.Interfaces.{Library}
use cbe.Tester.{Test, Session}
use cbe.Tester.Main.{Parts, M, State}
use cbe.Tester.Config.{Xml, block_session, read_config}
use cbe.Tester.Order.{Ordered, Last}
use cbe.Tester.Order.Stages.{InOrder}
use cbe.Tester.Order.Rounds.{execute-Ordered}
use cbe.Tester.Execute.{execute}
use cbe.Tester.Invariant.Jobs.{Valid}
use cbe.Tester.Invariant.Rounds.{Sound, execute-Sound}

-- What the members that the tester does not define itself are at first.
pub record Fresh (C K Jc Jd Ji : Type 0) : Type 0 where
  pub blk : K
  pub cbe_check : Jc
  pub cbe_dump : Jd
  pub cbe_init : Ji
  pub crypto : C

module _ {L C K Jc Jd Ji D N : Type 0} (env : Parts L C K Jc Jd Ji D) (xml : Xml N D) where
  -- the initialisers of the members
  unfoldable pub fresh_main : Fresh C K Jc Jd Ji → Session D → M env
  fresh_main f s = record {
    block_session = s;
    blk = f.blk;
    cbe = Library.fresh env.library;
    cbe_constructed = false;
    cbe_check = f.cbe_check;
    cbe_dump = f.cbe_dump;
    cbe_init = f.cbe_init;
    blk_req = no_request;
    blk_buf = λ _. 0;
    crypto_plain_buf = λ _. 0;
    crypto_cipher_buf = λ _. 0;
    crypto = f.crypto;
    state = State.invalid;
    creating_snapshot = false;
    discard_snapshot = false;
    rekey = false;
    deinitialize = false;
    extend_vbd = false;
    extend_vbd_obj = 0;
    extend_ft = false;
    extend_ft_obj = 0;
  }

  -- The states between two calls of `_execute`, in which the block session goes on by itself, with
  -- the tests of the configuration.
  pub data Reach : List (Test D) → M env → Type 0 where
    built :
        (f : Fresh C K Jc Jd Ji) (config : N) (s : Session D)
        → block_session xml config ≡ ok s
        → Reach s.test_queue (fresh_main f s)
    ran :
        (tests : List (Test D)) (m n : M env) (k : K) (fuel rounds : ℕ)
        → Reach tests m
        → execute env fuel rounds (record m { blk = k }) ≡ ok n
        → Reach tests n

  Sound-ok : (r : Result (M env)) (n : M env) → Sound env r → r ≡ ok n → Valid env n
  Sound-ok r n h e = subst (Sound env) e h

  elsewhere : (m : M env) (k : K) → Valid env m → Valid env (record m { blk = k })
  elsewhere m k v = record {
    flags = v.flags;
    initializes = v.initializes;
    checks = v.checks;
    dumps = v.dumps;
  }

  pub Reach-Valid : {tests : List (Test D)} {m : M env} → Reach tests m → Valid env m
  unfolding fresh_main
  Reach-Valid (built f config s e) = ground arith
  Reach-Valid (ran tests m n k fuel rounds r e) =
      Sound-ok _ n (execute-Sound env fuel rounds _ (elsewhere m k (Reach-Valid r))) e

  -- The session that the constructor builds has started no test.
  abbrev Idle : Result (Session D) → Type 0
  Idle (ok s) = (s.started ≡ []) × (s.test_in_progress ≡ none)
  Idle (throw e) = Unit {0}

  block_session-Idle : (config : N) → Idle (block_session xml config)
  unfolding block_session
  block_session-Idle config =
      Leaves-always (λ (s : Session D). (s.started ≡ []) × (s.test_in_progress ≡ none))
        (read_config xml (Xml.with_sub_node xml config "tests")) _ (λ queue. (refl, refl))

  pub Reach-Ordered :
      {tests : List (Test D)} {m : M env} → Reach tests m → Ordered tests m.block_session
  unfolding fresh_main
  Reach-Ordered (built f config s e) =
      let (none_started, none_runs) = subst Idle e (block_session-Idle config) in
      record {
        split = ap (λ l. l ++ s.test_queue) none_started;
        last = subst (Last s.started) (sym none_runs) tt;
      }
  Reach-Ordered (ran tests m n k fuel rounds r e) =
      subst (Leaves (InOrder env tests)) e
        (execute-Ordered env tests fuel rounds (record m { blk = k }) (Reach-Ordered r))

  -- From the constructor on, with any configuration, however often `_execute` runs, and whatever
  -- the libraries, the crypto component, the block session and the tree of snapshots answer, in the
  -- states between two runs and after the next one: each flag that is set goes with a test in
  -- progress of that type, and so does a state that is that of a library which initialises, checks
  -- or dumps; the snapshot that is to be discarded can be found; and the tests that the
  -- log lists as started, followed by those in the queue, are the tests of the configuration, each
  -- once and in their order, where the test in progress, if there is one, is the last of the log.
  -- A run that throws does so neither for a test that was looked at while none of that type was
  -- in progress, nor for a snapshot that could not be found.
  pub Reach-Sound :
      (tests : List (Test D)) (m : M env) (k : K) (fuel rounds : ℕ)
      → Reach tests m
      → let run = execute env fuel rounds (record m { blk = k }) in
        Valid env m × Ordered tests m.block_session × Sound env run × Leaves (InOrder env tests) run
  Reach-Sound tests m k fuel rounds r = (
    Reach-Valid r,
    Reach-Ordered r,
    execute-Sound env fuel rounds (record m { blk = k }) (elsewhere m k (Reach-Valid r)),
    execute-Ordered env tests fuel rounds (record m { blk = k }) (Reach-Ordered r),
  )
