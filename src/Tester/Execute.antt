-- ===== src/Tester/Execute.antt =====
-- src/app/cbe_tester/main.cc, `Main::_execute_cbe` as the list of its stages, and the loop of
-- `Main::_execute`. Fuel bounds the rounds of that loop and of the crypto loops.
use cbe.Prelude.{
  ℕ, zero, suc, Bool, true, false, ◌||◌, if◌then◌else◌, Result, ok, throw, ◌>>=◌, Option, some,
  none, List, [], ◌∷◌, out_of_fuel,
}
use cbe.Interfaces.{Library}
use cbe.Interfaces.Session.{BlockSession, JobLibrary, exit_minus_one}
use cbe.Configuration.{Configuration}
use cbe.Tools.{job_request, init_arguments}
use cbe.Wrapper.Encryption.{repeat}
use cbe.Tester.{Session, with_initialize, with_check, with_dump}
use cbe.Tester.Main.{Parts, M, State, execute_cbe_check, execute_cbe_dump, execute_cbe_init}
use cbe.Tester.Cbe.{
  lib, accept_requests, acknowledge, start_create, end_create, start_discard, end_discard,
}
use cbe.Tester.Background.{
  start_deinitialize, end_deinitialize, list_snapshots, start_rekey, end_rekey, start_extend_vbd,
  end_extend_vbd, start_extend_ft, end_extend_ft,
}
use cbe.Tester.Exchange.{
  execute_library, obtain_data, supply_data, submit_io, acknowledge_io, execute_crypto, add_key,
  remove_key, submit_encryption, finish_encryption, submit_decryption, finish_decryption,
  settle_state,
}

abbrev pub is_invalid : State → Bool
is_invalid State.invalid = true
is_invalid _ = false

module _ {L C K Jc Jd Ji D : Type 0} (env : Parts L C K Jc Jd Ji D) where
  -- The stages one after the other: there was progress if one of them made some.
  unfoldable pub run_stages :
      List (M env → Result (Bool × M env)) → Bool → M env → Result (Bool × M env)
  run_stages [] progress m = ok (progress, m)
  run_stages (stage ∷ rest) progress m = stage m >>= λ r. run_stages rest (progress || r.0) r.1

  -- up to the block requests
  unfoldable pub client_stages : List (M env → Result (Bool × M env))
  unfolding accept_requests acknowledge start_create end_create start_discard end_discard
      start_deinitialize end_deinitialize list_snapshots start_rekey end_rekey start_extend_vbd
      end_extend_vbd start_extend_ft end_extend_ft execute_library obtain_data supply_data
  client_stages =
      accept_requests env
      ∷ acknowledge env
      ∷ start_create env
      ∷ end_create env
      ∷ start_discard env
      ∷ end_discard env
      ∷ start_deinitialize env
      ∷ end_deinitialize env
      ∷ list_snapshots env
      ∷ start_rekey env
      ∷ end_rekey env
      ∷ start_extend_vbd env
      ∷ end_extend_vbd env
      ∷ start_extend_ft env
      ∷ end_extend_ft env
      ∷ execute_library env
      ∷ obtain_data env
      ∷ supply_data env
      ∷ []

  -- from there on, with the loops of the crypto requests
  unfoldable pub backend_stages : ℕ → List (M env → Result (Bool × M env))
  unfolding submit_io acknowledge_io execute_crypto repeat add_key remove_key submit_encryption
      finish_encryption submit_decryption finish_decryption settle_state
  backend_stages fuel =
      submit_io env
      ∷ acknowledge_io env
      ∷ execute_crypto env
      ∷ repeat (add_key env) fuel false
      ∷ repeat (remove_key env) fuel false
      ∷ repeat (submit_encryption env) fuel false
      ∷ repeat (finish_encryption env) fuel false
      ∷ repeat (submit_decryption env) fuel false
      ∷ repeat (finish_decryption env) fuel false
      ∷ settle_state env
      ∷ []

  unfoldable pub execute_cbe : ℕ → Bool → M env → Result (Bool × M env)
  unfolding run_stages client_stages backend_stages
  execute_cbe fuel progress m =
      run_stages client_stages progress m >>= λ r. run_stages (backend_stages fuel) r.0 r.1

  -- A library that does not take the request makes the program exit, and is given it all the same.
  unfoldable pub exit_unless : Bool → M env → M env
  exit_unless true m = m
  exit_unless false m = record m {
    block_session = record m.block_session {
      exits = exit_minus_one ∷ Session.exits m.block_session;
    };
  }

  unfoldable pub begin_initialize : M env → Option Configuration → Bool × M env
  unfolding exit_unless init_arguments
  begin_initialize m none = (false, m)
  begin_initialize m (some cfg) =
      let n = exit_unless (JobLibrary.client_request_acceptable env.init m.cbe_init) m in
      (
        true,
        record n {
          cbe_init =
              JobLibrary.submit_client_request env.init job_request (init_arguments cfg) n.cbe_init;
          state = State.cbe_init;
        },
      )

  unfoldable pub begin_check : M env → Option (Unit {0}) → Bool × M env
  unfolding exit_unless
  begin_check m none = (false, m)
  begin_check m (some _) =
      let n = exit_unless (JobLibrary.client_request_acceptable env.check m.cbe_check) m in
      (
        true,
        record n {
          cbe_check = JobLibrary.submit_client_request env.check job_request tt n.cbe_check;
          state = State.cbe_check;
        },
      )

  unfoldable pub begin_dump : M env → Option D → Bool × M env
  unfolding exit_unless
  begin_dump m none = (false, m)
  begin_dump m (some cfg) =
      let n = exit_unless (JobLibrary.client_request_acceptable env.dump m.cbe_dump) m in
      (
        true,
        record n {
          cbe_dump = JobLibrary.submit_client_request env.dump job_request cfg n.cbe_dump;
          state = State.cbe_dump;
        },
      )

  -- The three `if (_state == INVALID)`, each of which reads the state that the one before left.
  unfoldable pub start_initialize : M env → Bool × M env
  unfolding with_initialize begin_initialize
  start_initialize m =
      let (s, called) = with_initialize m.block_session in
      if is_invalid m.state
      then begin_initialize (record m { block_session = s }) called
      else (false, m)

  unfoldable pub start_check : M env → Bool × M env
  unfolding with_check begin_check
  start_check m =
      let (s, called) = with_check m.block_session in
      if is_invalid m.state then begin_check (record m { block_session = s }) called else (false, m)

  unfoldable pub start_dump : M env → Bool × M env
  unfolding with_dump begin_dump
  start_dump m =
      let (s, called) = with_dump m.block_session in
      if is_invalid m.state then begin_dump (record m { block_session = s }) called else (false, m)

  unfoldable pub destruct_cbe : M env → M env
  destruct_cbe m = record m { cbe_constructed = false }

  unfoldable pub construct_cbe : M env → M env
  construct_cbe m =
      if m.cbe_constructed
      then m
      else record m { cbe = Library.fresh (lib env); cbe_constructed = true }

  unfoldable pub execute_state : ℕ → State → Bool → M env → Result (Bool × M env)
  unfolding destruct_cbe construct_cbe execute_cbe execute_cbe_init execute_cbe_check
      execute_cbe_dump
  execute_state fuel State.cbe_init progress m = execute_cbe_init env progress (destruct_cbe m)
  execute_state fuel State.cbe_check progress m = execute_cbe_check env progress (destruct_cbe m)
  execute_state fuel State.cbe_dump progress m = execute_cbe_dump env progress (destruct_cbe m)
  execute_state fuel State.cbe_run progress m = execute_cbe fuel progress (construct_cbe m)
  execute_state fuel State.invalid progress m = execute_cbe fuel progress (construct_cbe m)

  -- the body of the loop of `_execute`
  unfoldable pub execute_round : ℕ → M env → Result (Bool × M env)
  unfolding start_initialize start_check start_dump execute_state
  execute_round fuel m =
      let (a, m1) = start_initialize m in
      let (b, m2) = start_check m1 in
      let (c, m3) = start_dump m2 in execute_state fuel m3.state (a || b || c) m3

  unfoldable pub execute : ℕ → ℕ → M env → Result (M env)
  unfolding execute_round
  execute fuel zero m = throw out_of_fuel
  execute fuel (suc rounds) m = execute_round fuel m >>= λ r.
      let rest = execute fuel rounds r.1 in
      if r.0 then rest else ok (record r.1 { blk = BlockSession.wakeup env.blk r.1.blk })
