-- ===== src/Tools/Tests.antt =====
-- Runs of the programs of src/app/cbe_check, cbe_dump and cbe_init on a small library.
use cbe.Tools.Pending.{OneJob}
use cbe.Tools.Runs.{Once, started}
use cbe.Tools.Exits.{init-Once}
use cbe.Prelude.{
  Bool, true, false, not, if◌then◌else◌, arith, ◌≡◌, refl, Result, ok, throw, List, [], ◌∷◌, none,
  some,
}
use cbe.Types.{no_request}
use cbe.Interfaces.Session.{
  Packet, ExitCode, exit_success, exit_minus_one, exit_one, InitArguments, JobLibrary, IoSource,
}
use cbe.Interfaces.Programs.{prompt_session, block_job, block_job_io, BlockJob, no_job}
use cbe.Tools.{Tool, start_check, start_dump, start_init}

abbrev fresh_tool : Tool BlockJob (List Packet)
fresh_tool = record {
  backend = record { source = no_job; session = []; blk_req = no_request; blk_buf = λ i. 0 };
  exits = [];
}

abbrev exits : Result (Tool BlockJob (List Packet)) → List ExitCode
exits (ok t) = t.exits
exits (throw e) = []

check_succeeds : exits (start_check block_job prompt_session 8 9 fresh_tool) ≡ exit_success ∷ []
unfolding start_check
check_succeeds = refl

-- a device with blocks that are larger than those of the CBE
check_unsupported :
    exits (start_check block_job prompt_session 0 9 fresh_tool) ≡ exit_minus_one ∷ []
unfolding start_check
check_unsupported = refl

dump_succeeds :
    exits (start_dump {D = Unit {0}} block_job prompt_session 8 9 (some tt) fresh_tool)
    ≡ exit_success ∷ []
unfolding start_dump
dump_succeeds = refl

dump_unconfigured :
    exits (start_dump {D = Unit {0}} block_job prompt_session 8 9 none fresh_tool) ≡ exit_one ∷ []
unfolding start_dump
dump_unconfigured = refl

init_succeeds :
    exits (start_init block_job prompt_session 8 9 (λ n a. 2) fresh_tool) ≡ exit_success ∷ []
unfolding start_init
init_succeeds = refl

-- an attribute that is missing reads as zero
init_invalid :
    exits (start_init block_job prompt_session 8 9 (λ n a. 0) fresh_tool) ≡ exit_minus_one ∷ []
unfolding start_init
init_invalid = refl

-- The same job, with a note whether a request is there.
abbrev noted_job : JobLibrary (Bool × BlockJob) InitArguments
noted_job = record {
  io = record {
    has_io_request = λ j. IoSource.has_io_request block_job_io j.1;
    io_request_in_progress = λ i j. (j.0, IoSource.io_request_in_progress block_job_io i j.1);
    io_request_completed = λ i b j. (j.0, IoSource.io_request_completed block_job_io i b j.1);
  };
  execute = λ d j. (j, d);
  execute_progress = λ j. false;
  client_request_acceptable = λ j. not j.0;
  submit_client_request = λ r a j. (true, record no_job { phase = 1 });
  peek_completed_client_request = λ j.
      if j.0
      then JobLibrary.peek_completed_client_request {A = InitArguments} block_job j.1
      else no_request;
  drop_completed_client_request = λ r j. (false, no_job);
}

abbrev noted_job-OneJob : OneJob noted_job
noted_job-OneJob = record {
  pending = λ j. j.0;
  peeked = λ j h. ground arith;
  submitted = λ r a j. refl;
  dropped = λ r j. refl;
  executed = λ d j. refl;
  begun = λ i j. refl;
  completed = λ i b j. refl;
}

abbrev noted_start : Tool (Bool × BlockJob) (List Packet)
noted_start = record {
  backend = record {
    source = (false, no_job);
    session = [];
    blk_req = no_request;
    blk_buf = λ i. 0;
  };
  exits = [];
}

abbrev noted_end : Tool (Bool × BlockJob) (List Packet)
noted_end = record {
  backend = record {
    source = (false, no_job);
    session = [];
    blk_req = no_request;
    blk_buf = λ i. 7;
  };
  exits = exit_success ∷ [];
}

init_ends : start_init noted_job prompt_session 8 9 (λ n a. 2) noted_start ≡ ok noted_end
unfolding start_init
init_ends = refl

init-Once_example : Once noted_job-OneJob noted_end
init-Once_example =
    init-Once noted_job prompt_session 8 (λ n a. 2) noted_job-OneJob noted_start noted_end refl refl
      refl (started 9 noted_end init_ends)
