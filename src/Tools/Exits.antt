-- ===== src/Tools/Exits.antt =====
-- How often src/app/cbe_init/main.cc, src/app/cbe_check/main.cc and src/app/cbe_dump/main.cc exit.
use Prim.Native.String.{String}
use cbe.Prelude.{ℕ, true, false, ◌≡◌, Result, ok, throw, [], Leaves}
use cbe.Interfaces.Session.{BlockSession, JobLibrary, InitArguments, exit_minus_one}
use cbe.Configuration.{Configuration, configuration}
use cbe.Tools.{
  Tool, execute, checked_acceptable, submit_job, init_arguments, start_init, start_check, exit,
}
use cbe.Tools.Pending.{OneJob}
use cbe.Tools.Runs.{Once, Reach, Reach-Once, supported-Once, begun, refused}

module _ {J K : Type 0} (lib : JobLibrary J InitArguments) (blk : BlockSession K) (ratio : ℕ)
    (number : String → String → ℕ) (one : OneJob lib) (t : Tool J K) (quiet : t.exits ≡ [])
    (idle : one.pending t.backend.source ≡ false)
    (takes : JobLibrary.client_request_acceptable lib t.backend.source ≡ true) where
  configured-Once :
      (fuel : ℕ) (c : Result Configuration)
      → Leaves (Once one) (elim c [
        | throw invalid ↦ ok (exit exit_minus_one t)
        | ok cfg ↦ execute lib blk true ratio fuel (
            submit_job lib blk true ratio
              (init_arguments cfg)
              (checked_acceptable lib blk true ratio t))
      ])
  configured-Once fuel (throw e) = refused lib blk true ratio one t quiet idle takes
  configured-Once fuel (ok cfg) = begun lib blk true ratio one t quiet idle takes fuel _

  start_init-Once : (fuel : ℕ) → Leaves (Once one) (start_init lib blk ratio fuel number t)
  unfolding start_init
  start_init-Once fuel =
      supported-Once lib blk true ratio one t quiet idle takes
        (λ u. elim (configuration number) [
          | throw invalid ↦ ok (exit exit_minus_one u)
          | ok cfg ↦ execute lib blk true ratio fuel (
              submit_job lib blk true ratio (init_arguments cfg)
                (checked_acceptable lib blk true ratio u))
        ])
        (configured-Once fuel (configuration number))

-- On a library that takes the request of cbe_init and completes it once: with any configuration,
-- any block size of the device, and over any number of signals of the block session, whose
-- answers are not restricted, the program is in one of two states whenever a call of it has
-- returned. Either its request is with the library, and it has not exited; or it has exited once,
-- and the library has no request of it.
pub init-Once :
    {J K : Type 0} (lib : JobLibrary J InitArguments) (blk : BlockSession K) (ratio : ℕ)
    (number : String → String → ℕ) (one : OneJob lib) (t u : Tool J K)
    → t.exits ≡ []
    → one.pending t.backend.source ≡ false
    → JobLibrary.client_request_acceptable lib t.backend.source ≡ true
    → Reach lib blk true ratio one (λ fuel. start_init lib blk ratio fuel number t) u
    → Once one u
init-Once lib blk ratio number one t u quiet idle takes r =
    Reach-Once lib blk true ratio one
      (λ fuel. start_init-Once lib blk ratio number one t quiet idle takes fuel) r

-- The same of cbe_check.
check-Once :
    {J K : Type 0} (lib : JobLibrary J (Unit {0})) (blk : BlockSession K) (ratio : ℕ)
    (one : OneJob lib) (t u : Tool J K)
    → t.exits ≡ []
    → one.pending t.backend.source ≡ false
    → JobLibrary.client_request_acceptable lib t.backend.source ≡ true
    → Reach lib blk false ratio one (λ fuel. start_check lib blk ratio fuel t) u
    → Once one u
unfolding start_check checked_acceptable
check-Once lib blk ratio one t u quiet idle takes r =
    Reach-Once lib blk false ratio one
      (λ fuel.
        supported-Once lib blk false ratio one t quiet idle takes
          (λ v.
            execute lib blk false ratio fuel
              (submit_job lib blk false ratio tt (checked_acceptable lib blk false ratio v)))
          (begun lib blk false ratio one t quiet idle takes fuel tt))
      r
