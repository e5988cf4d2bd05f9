-- ===== src/Tools.antt =====
-- src/app/cbe_check/main.cc, src/app/cbe_dump/main.cc and src/app/cbe_init/main.cc: a program that
-- hands one request to a library, passes its block requests on to a block session, and exits when
-- the library has completed the request.
--
-- The three differ in the library, in whether the operation SYNC is passed on, and in what they
-- read from their configuration. `_blk_ratio` is computed from the block size of the session. Log
-- output, the signal handlers and the waiting before the start are left out.
pub mod Pending
pub mod Runs
pub mod Exits
pub mod Tests
use Prim.Native.String.{String}
use cbe.Prelude.{
  ℕ, ◌-◌, zero, suc, Bool, true, false, ◌==◌, not, if◌then◌else◌, Bytes, Result, ok, throw, ◌>>=◌,
  out_of_fuel, Option, some, none, List, ◌∷◌, [],
}
use cbe.Types.{Request, no_request, request, Operation, valid}
use cbe.Interfaces.Session.{
  BlockSession, JobLibrary, ExitCode, exit_success, exit_one, exit_minus_one, InitArguments,
}
use cbe.BlockIo.{Backend, exchange}
use cbe.Configuration.{Configuration, configuration}

pub record Tool (J K : Type 0) : Type 0 where
  pub backend : Backend J K
  pub exits : List ExitCode

abbrev pub exit : {J K : Type 0} → ExitCode → Tool J K → Tool J K
exit code t = record t { exits = code ∷ t.exits }

-- `Cbe::Request (READ, false, 0, 0, 0, 0, 0)`
abbrev pub job_request : Request
job_request = request Operation.read 0 0 0

module _ {J K A : Type 0} (lib : JobLibrary J A) (blk : BlockSession K) (syncs : Bool)
    (ratio : ℕ) where
  -- the library's turn
  unfoldable pub run_library : Tool J K → Bool × Tool J K
  run_library t =
      let (j, buf) = JobLibrary.execute lib t.backend.blk_buf t.backend.source in
      (
        JobLibrary.execute_progress lib j,
        record t { backend = record t.backend { source = j; blk_buf = buf } },
      )

  -- A completed request is dropped, and the program exits with its outcome.
  unfoldable pub report : Tool J K → Tool J K
  report t =
      let r = JobLibrary.peek_completed_client_request lib t.backend.source in
      if valid r
      then record {
        backend = record t.backend {
          source = JobLibrary.drop_completed_client_request lib r t.backend.source;
        };
        exits = (if r.success then exit_success else exit_minus_one) ∷ t.exits;
      }
      else t

  -- the body of the loop of `_execute`
  unfoldable pub pass : Tool J K → Result (Bool × Tool J K)
  unfolding run_library report exchange
  pass t =
      let (progress, ran) = run_library t in
      let reported = report ran in
      exchange (JobLibrary.io lib) blk syncs ratio progress reported.backend >>= λ e.
      ok (e.0, record reported { backend = e.1 })

  -- `_execute`, with the rounds that its loop may go
  unfoldable pub execute : ℕ → Tool J K → Result (Tool J K)
  unfolding pass
  execute zero t = throw out_of_fuel
  execute (suc fuel) t = pass t >>= λ r.
      let rest = execute fuel r.1 in
      if r.0
      then rest
      else ok (record r.1 {
        backend = record r.1.backend { session = BlockSession.wakeup blk r.1.backend.session };
      })

  -- What the three constructors do first, and whether they go on.
  unfoldable pub supported : Tool J K → Bool × Tool J K
  supported t = if ratio == 0 then (false, exit exit_minus_one t) else (true, t)

  -- A library that does not accept the request is given it all the same, after the exit.
  unfoldable pub checked_acceptable : Tool J K → Tool J K
  checked_acceptable t =
      if JobLibrary.client_request_acceptable lib t.backend.source then t else exit exit_minus_one t

  unfoldable pub submit_job : A → Tool J K → Tool J K
  submit_job a t = record t {
    backend = record t.backend {
      source = JobLibrary.submit_client_request lib job_request a t.backend.source;
    };
  }

-- the constructor of cbe_check
unfoldable pub start_check :
    {J K : Type 0} → JobLibrary J (Unit {0}) → BlockSession K → ℕ → ℕ → Tool J K → Result (Tool J K)
unfolding supported checked_acceptable submit_job execute
start_check lib blk ratio fuel t =
    let (going, u) = supported lib blk false ratio t in
    let acceptable = checked_acceptable lib blk false ratio u in
    let submitted = submit_job lib blk false ratio tt acceptable in
    if going then execute lib blk false ratio fuel submitted else ok u

-- The constructor of cbe_dump: `config` is the configuration in its sub node `dump`, if there is
-- one.
unfoldable pub start_dump :
    {J K D : Type 0}
    → JobLibrary J D
    → BlockSession K
    → ℕ
    → ℕ
    → Option D
    → Tool J K
    → Result (Tool J K)
unfolding supported checked_acceptable submit_job execute
start_dump lib blk ratio fuel config t =
    let (going, u) = supported lib blk false ratio t in
    let acceptable = checked_acceptable lib blk false ratio u in
    if going
    then elim config [
      | none ↦ ok (exit exit_one acceptable)
      | some cfg ↦ execute lib blk false ratio fuel (submit_job lib blk false ratio cfg acceptable)
    ]
    else ok u

-- what the configuration comes to as arguments
unfoldable pub init_arguments : Configuration → InitArguments
init_arguments c = record {
  vbd_max_lvl_idx = c.vbd_nr_of_lvls - 1;
  vbd_degree = c.vbd_nr_of_children;
  vbd_nr_of_leafs = c.vbd_nr_of_leafs;
  ft_max_lvl_idx = c.ft_nr_of_lvls - 1;
  ft_degree = c.ft_nr_of_children;
  ft_nr_of_leafs = c.ft_nr_of_leafs;
}

-- the constructor of cbe_init
unfoldable pub start_init :
    {J K : Type 0}
    → JobLibrary J InitArguments
    → BlockSession K
    → ℕ
    → ℕ
    → (String → String → ℕ)
    → Tool J K
    → Result (Tool J K)
unfolding supported configuration checked_acceptable submit_job init_arguments execute
start_init lib blk ratio fuel number t =
    let (going, u) = supported lib blk true ratio t in
    let acceptable = checked_acceptable lib blk true ratio u in
    if going
    then elim (configuration number) [
      | throw invalid ↦ ok (exit exit_minus_one u)
      | ok cfg ↦
          execute lib blk true ratio fuel
            (submit_job lib blk true ratio (init_arguments cfg) acceptable)
    ]
    else ok u
