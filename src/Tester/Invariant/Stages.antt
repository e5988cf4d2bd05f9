-- ===== src/Tester/Invariant/Stages.antt =====
-- The stages of `Main::_execute_cbe` in src/app/cbe_tester/main.cc that leave the test in progress
-- alone: the data of the CBE, its block requests and its crypto requests.
use cbe.Tester.Invariant.Errors.{
  submit_loop-Safe, ack_loop-Safe, item-Safe, item-cases, repeat-Keeps,
}
use cbe.Tester.Invariant.Ends.{
  acknowledge-Keeps, next_state-no_job, end_create-Keeps, end_discard-Keeps, end_deinitialize-Keeps,
  end_rekey-Keeps, end_extend_vbd-Keeps, end_extend_ft-Keeps,
}
use cbe.Tester.Cbe.{next_state, lib}
use cbe.Tester.Invariant.Starts.{
  accept_requests-Keeps, start_create-Keeps, start_discard-Keeps, start_deinitialize-Keeps,
  list_snapshots-Keeps, start_rekey-Keeps, start_extend_vbd-Keeps, start_extend_ft-Keeps,
}
use cbe.Tester.Execute.{backend_stages, client_stages, execute_cbe, run_stages}
use cbe.Tester.Exchange.{
  execute_library, obtain_data, store_data, acknowledge_io, add_key, execute_crypto,
  finish_decryption, finish_encryption, remove_key, settle_state, submit_decryption,
  submit_encryption, submit_io, supply_data, put_cbe, io_source, backend,
}
use cbe.BlockIo.{ack_loop, submit_loop}
use cbe.Prelude.{
  Every, nothing, ◌&◌, ℕ, Bool, true, false, Result, List, [], ◌∷◌, arith, if_elim, not, ◌>>=◌,
  ◌||◌, Bytes, ◌==◌,
}
use cbe.Types.{valid, item, invalid_index_value}
use cbe.Interfaces.{Library, Crypto}
use cbe.Tester.Cbe.{lib}
use cbe.Tester.Invariant.{Steady, Keeps, returns, Keeps-map, Keeps-bind, Keeps-then}
use cbe.Tester.Main.{Parts, M, put_backend}

module _ {L C K Jc Jd Ji D : Type 0} (env : Parts L C K Jc Jd Ji D) where
  abbrev S : M env → Type 0
  S = Steady env

  abbrev Stays : (M env → Result (Bool × M env)) → Type 0
  Stays stage = (m : M env) → S m → Keeps S (stage m)

  pub execute_library-Keeps : Stays (execute_library env)
  unfolding execute_library
  execute_library-Keeps m v = returns _ _ (record { flags = v.flags; no_job = v.no_job })

  pub obtain_data-Keeps : Stays (obtain_data env)
  unfolding obtain_data store_data
  obtain_data-Keeps m v =
      let (r, l) = Library.client_data_ready (lib env) m.cbe in
      let (obtained, index, k) = Library.obtain_client_data (lib env) r l in
      if_elim (Keeps S) (not (valid r)) _ _
        (λ _. returns _ _ (record { flags = v.flags; no_job = v.no_job }))
        λ _.
          if_elim (Keeps S) (Library.client_data_index (lib env) r l == invalid_index_value) _ _
            (λ _. returns _ _ (record { flags = v.flags; no_job = v.no_job }))
            λ _.
              if_elim (Keeps S) (not obtained) _ _
                (λ _. returns _ _ (record { flags = v.flags; no_job = v.no_job }))
                λ _.
                  Keeps-then S (item m.crypto_plain_buf index) _ (item-Safe _ _)
                    (λ block _. record { flags = v.flags; no_job = v.no_job })

  pub supply_data-Keeps : Stays (supply_data env)
  unfolding supply_data
  supply_data-Keeps m v =
      let (r, l) = Library.client_data_required (lib env) m.cbe in
      if_elim (Keeps S) (not (valid r)) _ _
        (λ _. returns _ _ (record { flags = v.flags; no_job = v.no_job }))
        λ _.
          if_elim (Keeps S) (Library.client_data_index (lib env) r l == invalid_index_value) _ _
            (λ _. returns _ _ (record { flags = v.flags; no_job = v.no_job }))
            λ _. returns _ _ (record { flags = v.flags; no_job = v.no_job })

  pub submit_io-Keeps : Stays (submit_io env)
  unfolding submit_io put_cbe put_backend
  submit_io-Keeps m v =
      Keeps-map S (submit_loop (io_source (lib env)) env.blk true 1 false (backend env m)) _ _
        (submit_loop-Safe (io_source (lib env)) env.blk true 1 false (backend env m))
        (λ e. record { flags = v.flags; no_job = v.no_job })

  pub acknowledge_io-Keeps : Stays (acknowledge_io env)
  unfolding acknowledge_io put_cbe put_backend
  acknowledge_io-Keeps m v =
      Keeps-map S (ack_loop (io_source (lib env)) env.blk true 1 false (backend env m)) _ _
        (ack_loop-Safe (io_source (lib env)) env.blk true 1 false (backend env m))
        (λ e. record { flags = v.flags; no_job = v.no_job })

  pub execute_crypto-Keeps : Stays (execute_crypto env)
  unfolding execute_crypto
  execute_crypto-Keeps m v = returns _ _ (record { flags = v.flags; no_job = v.no_job })

  add_key-Keeps : Stays (add_key env)
  unfolding add_key
  add_key-Keeps m v =
      if_elim (Keeps S) (not (valid (Library.crypto_add_key_required (lib env) m.cbe).0)) _ _
        (λ _. returns false m v) (λ _. returns _ _ (record { flags = v.flags; no_job = v.no_job }))

  remove_key-Keeps : Stays (remove_key env)
  unfolding remove_key
  remove_key-Keeps m v =
      if_elim (Keeps S) (not (valid (Library.crypto_remove_key_required (lib env) m.cbe).0)) _ _
        (λ _. returns false m v) (λ _. returns _ _ (record { flags = v.flags; no_job = v.no_job }))

  submit_encryption-Keeps : Stays (submit_encryption env)
  unfolding submit_encryption
  submit_encryption-Keeps m v =
      let (r, index) = Library.crypto_cipher_data_required (lib env) m.cbe in
      if_elim (Keeps S)
        (not (valid r) || not (Crypto.encryption_request_acceptable env.crypto m.crypto)) _ _
        (λ _. returns false m v)
        λ _.
          Keeps-then S (item m.crypto_plain_buf index) _ (item-Safe _ _)
            (λ block _. record { flags = v.flags; no_job = v.no_job })

  submit_decryption-Keeps : Stays (submit_decryption env)
  unfolding submit_decryption
  submit_decryption-Keeps m v =
      let (r, index) = Library.crypto_plain_data_required (lib env) m.cbe in
      if_elim (Keeps S)
        (not (valid r) || not (Crypto.decryption_request_acceptable env.crypto m.crypto)) _ _
        (λ _. returns false m v)
        λ _.
          Keeps-then S (item m.crypto_cipher_buf index) _ (item-Safe _ _)
            (λ block _. record { flags = v.flags; no_job = v.no_job })

  Keeps-item :
      (d : Bytes) (i : ℕ) (f : Bytes → Result (Bool × M env))
      → ((block : Bytes) → Keeps S (f block))
      → Keeps S (item d i >>= f)
  Keeps-item d i f k = item-cases (item d i) (item-Safe d i) f k

  finish_encryption-Keeps : Stays (finish_encryption env)
  unfolding finish_encryption
  finish_encryption-Keeps m v =
      let r = Crypto.peek_completed_encryption_request env.crypto m.crypto in
      if_elim (Keeps S) (not (valid r)) _ _ (λ _. returns false m v)
        λ _. Keeps-item m.crypto_cipher_buf r.tag _ λ cipher.
          if_elim (Keeps S) (not (Crypto.supply_cipher_data env.crypto r cipher m.crypto).0) _ _
            (λ _. returns _ _ (record { flags = v.flags; no_job = v.no_job }))
            (λ _. returns _ _ (record { flags = v.flags; no_job = v.no_job }))

  finish_decryption-Keeps : Stays (finish_decryption env)
  unfolding finish_decryption
  finish_decryption-Keeps m v =
      let r = Crypto.peek_completed_decryption_request env.crypto m.crypto in
      if_elim (Keeps S) (not (valid r)) _ _ (λ _. returns false m v)
        λ _. Keeps-item m.crypto_plain_buf r.tag _ λ plain.
          if_elim (Keeps S) (not (Crypto.supply_plain_data env.crypto r plain m.crypto).0) _ _
            (λ _. returns _ _ (record { flags = v.flags; no_job = v.no_job }))
            (λ _. returns _ _ (record { flags = v.flags; no_job = v.no_job }))

  settle_state-Keeps : Stays (settle_state env)
  unfolding settle_state next_state
  settle_state-Keeps m v =
      if_elim (Keeps S) (valid m.blk_req) _ _ (λ _. returns false m v)
        (λ _.
          returns false (next_state env m)
            (let f = v.flags in record { flags = ground arith; no_job = next_state-no_job env m }))

  run_stages-Keeps :
      (l : List (M env → Result (Bool × M env)))
      → Every Stays l
      → (progress : Bool) (m : M env) → S m
      → Keeps S (run_stages env l progress m)
  unfolding run_stages
  run_stages-Keeps [] nothing progress m v = returns progress m v
  run_stages-Keeps (stage ∷ rest) (h & k) progress m v =
      Keeps-bind S S (stage m) _ (h m v) (λ b n w. run_stages-Keeps rest k (progress || b) n w)

  client_stages-Every : Every Stays (client_stages env)
  unfolding client_stages
  client_stages-Every =
      accept_requests-Keeps env
      & acknowledge-Keeps env
      & start_create-Keeps env
      & end_create-Keeps env
      & start_discard-Keeps env
      & end_discard-Keeps env
      & start_deinitialize-Keeps env
      & end_deinitialize-Keeps env
      & list_snapshots-Keeps env
      & start_rekey-Keeps env
      & end_rekey-Keeps env
      & start_extend_vbd-Keeps env
      & end_extend_vbd-Keeps env
      & start_extend_ft-Keeps env
      & end_extend_ft-Keeps env
      & execute_library-Keeps
      & obtain_data-Keeps
      & supply_data-Keeps
      & nothing

  backend_stages-Every : (fuel : ℕ) → Every Stays (backend_stages env fuel)
  unfolding backend_stages
  backend_stages-Every fuel =
      submit_io-Keeps
      & acknowledge_io-Keeps
      & execute_crypto-Keeps
      & repeat-Keeps S (add_key env) add_key-Keeps fuel false
      & repeat-Keeps S (remove_key env) remove_key-Keeps fuel false
      & repeat-Keeps S (submit_encryption env) submit_encryption-Keeps fuel false
      & repeat-Keeps S (finish_encryption env) finish_encryption-Keeps fuel false
      & repeat-Keeps S (submit_decryption env) submit_decryption-Keeps fuel false
      & repeat-Keeps S (finish_decryption env) finish_decryption-Keeps fuel false
      & settle_state-Keeps
      & nothing

  pub execute_cbe-Keeps :
      (fuel : ℕ) (progress : Bool) (m : M env)
      → Steady env m
      → Keeps (Steady env) (execute_cbe env fuel progress m)
  unfolding execute_cbe
  execute_cbe-Keeps fuel progress m v =
      Keeps-bind S S (run_stages env (client_stages env) progress m) _
        (run_stages-Keeps (client_stages env) client_stages-Every progress m v)
        (λ b n w. run_stages-Keeps (backend_stages env fuel) (backend_stages-Every fuel) b n w)
