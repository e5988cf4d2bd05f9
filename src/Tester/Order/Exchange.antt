-- ===== src/Tester/Order/Exchange.antt =====
-- The order of the tests over the stages of src/app/cbe_tester/main.cc that exchange data, block
-- requests and crypto requests: they leave the queue and the test in progress.
use cbe.Prelude.{Leaves-always, Bool, true, false, ◌||◌, not, ◌==◌, Result, List, if_elim, refl}
use cbe.Types.{valid, item, invalid_index_value}
use cbe.Interfaces.{Library, Crypto}
use cbe.BlockIo.{submit_loop, ack_loop}
use cbe.Tester.{Test}
use cbe.Tester.Main.{Parts, M, put_backend}
use cbe.Tester.Cbe.{lib, next_state}
use cbe.Tester.Exchange.{
  io_source, execute_library, store_data, obtain_data, supply_data, backend, put_cbe, submit_io,
  acknowledge_io, execute_crypto, add_key, remove_key, submit_encryption, finish_encryption,
  submit_decryption, finish_decryption, settle_state,
}
use cbe.Tester.Order.{same}
use cbe.Tester.Order.Stages.{InOrder, Goes}

module _ {L C K Jc Jd Ji D : Type 0} (env : Parts L C K Jc Jd Ji D)
    (configured : List (Test D)) where
  abbrev I : M env → Type 0
  I = InOrder env configured

  abbrev G : Result (Bool × M env) → Type 0
  G = Goes env configured

  -- A stage keeps the order.
  abbrev pub Steps : (M env → Result (Bool × M env)) → Type 0
  Steps stage = (m : M env) → I m → G (stage m)

  pub execute_library-Steps : Steps (execute_library env)
  unfolding execute_library
  execute_library-Steps m o = o

  pub obtain_data-Steps : Steps (obtain_data env)
  unfolding obtain_data store_data
  obtain_data-Steps m o =
      let (r, l) = Library.client_data_ready (lib env) m.cbe in
      let (obtained, index, k) = Library.obtain_client_data (lib env) r l in
      if_elim G (not (valid r)) _ _ (λ _. o)
        λ _.
          if_elim G (Library.client_data_index (lib env) r l == invalid_index_value) _ _ (λ _. o)
            λ _.
              if_elim G (not obtained) _ _ (λ _. o)
                λ _.
                  Leaves-always _ (item m.crypto_plain_buf index) _
                    (λ block. same configured m.block_session _ refl refl refl o)

  pub supply_data-Steps : Steps (supply_data env)
  unfolding supply_data
  supply_data-Steps m o =
      let (r, l) = Library.client_data_required (lib env) m.cbe in
      if_elim G (not (valid r)) _ _ (λ _. o)
        λ _.
          if_elim G (Library.client_data_index (lib env) r l == invalid_index_value) _ _ (λ _. o)
            (λ _. o)

  pub submit_io-Steps : Steps (submit_io env)
  unfolding submit_io put_cbe put_backend
  submit_io-Steps m o =
      Leaves-always _ (submit_loop (io_source (lib env)) env.blk true 1 false (backend env m)) _
        (λ e. o)

  pub acknowledge_io-Steps : Steps (acknowledge_io env)
  unfolding acknowledge_io put_cbe put_backend
  acknowledge_io-Steps m o =
      Leaves-always _ (ack_loop (io_source (lib env)) env.blk true 1 false (backend env m)) _
        (λ e. o)

  pub execute_crypto-Steps : Steps (execute_crypto env)
  unfolding execute_crypto
  execute_crypto-Steps m o = o

  pub add_key-Steps : Steps (add_key env)
  unfolding add_key
  add_key-Steps m o =
      if_elim G (not (valid (Library.crypto_add_key_required (lib env) m.cbe).0)) _ _ (λ _. o)
        (λ _. o)

  pub remove_key-Steps : Steps (remove_key env)
  unfolding remove_key
  remove_key-Steps m o =
      if_elim G (not (valid (Library.crypto_remove_key_required (lib env) m.cbe).0)) _ _ (λ _. o)
        (λ _. o)

  pub submit_encryption-Steps : Steps (submit_encryption env)
  unfolding submit_encryption
  submit_encryption-Steps m o =
      let (r, index) = Library.crypto_cipher_data_required (lib env) m.cbe in
      if_elim G (not (valid r) || not (Crypto.encryption_request_acceptable env.crypto m.crypto)) _
        _ (λ _. o) (λ _. Leaves-always _ (item m.crypto_plain_buf index) _ (λ block. o))

  pub submit_decryption-Steps : Steps (submit_decryption env)
  unfolding submit_decryption
  submit_decryption-Steps m o =
      let (r, index) = Library.crypto_plain_data_required (lib env) m.cbe in
      if_elim G (not (valid r) || not (Crypto.decryption_request_acceptable env.crypto m.crypto)) _
        _ (λ _. o) (λ _. Leaves-always _ (item m.crypto_cipher_buf index) _ (λ block. o))

  pub finish_encryption-Steps : Steps (finish_encryption env)
  unfolding finish_encryption
  finish_encryption-Steps m o =
      let r = Crypto.peek_completed_encryption_request env.crypto m.crypto in
      if_elim G (not (valid r)) _ _ (λ _. o)
        λ _. Leaves-always _ (item m.crypto_cipher_buf r.tag) _ λ cipher.
          if_elim G (not (Crypto.supply_cipher_data env.crypto r cipher m.crypto).0) _ _ (λ _. o)
            (λ _. o)

  pub finish_decryption-Steps : Steps (finish_decryption env)
  unfolding finish_decryption
  finish_decryption-Steps m o =
      let r = Crypto.peek_completed_decryption_request env.crypto m.crypto in
      if_elim G (not (valid r)) _ _ (λ _. o)
        λ _. Leaves-always _ (item m.crypto_plain_buf r.tag) _ λ plain.
          if_elim G (not (Crypto.supply_plain_data env.crypto r plain m.crypto).0) _ _ (λ _. o)
            (λ _. o)

  pub settle_state-Steps : Steps (settle_state env)
  unfolding settle_state next_state
  settle_state-Steps m o = if_elim G (valid m.blk_req) _ _ (λ _. o) (λ _. o)
