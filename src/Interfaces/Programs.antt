-- ===== src/Interfaces/Programs.antt =====
-- Concrete values of the interfaces of the programs under src/app, on which the tests run: a block
-- session that carries out what is submitted at once, and a library whose job takes one block.
use cbe.Prelude.{ℕ, Bool, true, false, ◌==◌, if◌then◌else◌, Option, some, none, List, [], ◌∷◌, ◌++◌}
use cbe.Types.{no_request, request, Operation, set_success}
use cbe.Types.Convert.{BlockOperation}
use cbe.Interfaces.Session.{BlockSession, Packet, IoSource, JobLibrary}

abbrev pub no_packet : Packet
no_packet = record {
  offset = 0;
  operation = BlockOperation.invalid;
  block_number = 0;
  count = 0;
  succeeded = false;
}

abbrev pub is_empty : List Packet → Bool
is_empty [] = true
is_empty (p ∷ ps) = false

abbrev pub first_packet : List Packet → Packet × List Packet
first_packet [] = (no_packet, [])
first_packet (p ∷ ps) = (p, ps)

-- The packets that were submitted wait to be acknowledged; every block reads as sevens.
abbrev pub prompt_session : BlockSession (List Packet)
prompt_session = record {
  ready_to_submit = λ k. true;
  alloc_packet = λ n k. (some 0, k);
  store_content = λ p d k. k;
  packet_content = λ p k i. 7;
  try_submit_packet = λ p k. (true, k ++ record p { succeeded = true } ∷ []);
  ack_avail = λ k. if is_empty k then false else true;
  try_get_acked_packet = first_packet;
  release_packet = λ p k. k;
  wakeup = λ k. k;
}

-- A job: 0 before its request, 1 when it wants a block, 2 while it waits for that, 3 at its end.
pub record BlockJob : Type 0 where
  pub phase : ℕ
  pub open_request : Option ℕ

abbrev pub no_job : BlockJob
no_job = record { phase = 0; open_request = none }

abbrev pub block_job_io : IoSource BlockJob
block_job_io = record {
  has_io_request = λ j. (if j.phase == 1 then request Operation.read 5 0 1 else no_request, 0);
  io_request_in_progress = λ i j. record { phase = 2; open_request = some i };
  io_request_completed = λ i b j. record { phase = 3; open_request = none };
}

abbrev pub block_job : {A : Type 0} → JobLibrary BlockJob A
block_job = record {
  io = block_job_io;
  execute = λ d j. (j, d);
  execute_progress = λ j. false;
  client_request_acceptable = λ j. j.phase == 0;
  submit_client_request = λ r a j. record j { phase = 1 };
  peek_completed_client_request =
      λ j. if j.phase == 3 then set_success true (request Operation.read 0 0 0) else no_request;
  drop_completed_client_request = λ r j. no_job;
}
