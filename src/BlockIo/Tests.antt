-- ===== src/BlockIo/Tests.antt =====
-- Runs of the loops of src/app/cbe_tester/main.cc for block I/O.
use cbe.Prelude.{true, false, ◌≡◌, refl, List, [], none, arith, ok}
use cbe.Types.{no_request}
use cbe.Interfaces.Session.{Packet}
use cbe.Interfaces.Programs.{prompt_session, block_job_io, BlockJob}
use cbe.BlockIo.{Backend, exchange}
use cbe.BlockIo.Pairing.{Pairs, Good, exchange-Good}

abbrev block_job-Pairs : Pairs block_job_io
block_job-Pairs = record {
  open_request = λ j. j.open_request;
  small = λ j. omega arith;
  begun = λ i j h. refl;
  completed = λ i b j h. refl;
}

abbrev waiting : Backend BlockJob (List Packet)
waiting = record {
  source = record { phase = 1; open_request = none };
  session = [];
  blk_req = no_request;
  blk_buf = λ i. 0;
}

-- The job gets its block in one pass.
abbrev served : Backend BlockJob (List Packet)
served = record waiting { source = record { phase = 3; open_request = none }; blk_buf = λ i. 7 }

exchange_serves : exchange block_job_io prompt_session false 8 false waiting ≡ ok (true, served)
unfolding exchange
exchange_serves = refl

exchange-Good_example :
    Good block_job_io prompt_session block_job-Pairs
      (exchange block_job_io prompt_session false 8 false waiting)
exchange-Good_example =
    exchange-Good block_job_io prompt_session block_job-Pairs false 8 false waiting refl
