-- ===== src/Tester/Exchange.antt =====
-- src/app/cbe_tester/main.cc, `Main::_execute_cbe`: the data of the tests, the block requests and
-- the crypto requests of the CBE.
use cbe.Prelude.{Bool, true, false, ◌||◌, not, ◌==◌, if◌then◌else◌, Bytes, Result, ok, ◌>>=◌}
use cbe.Types.{valid, set_success, set_tag, item, u32, invalid_index_value}
use cbe.Interfaces.{Library, Crypto}
use cbe.Interfaces.Session.{IoSource}
use cbe.BlockIo.{Backend, submit_loop, ack_loop}
use cbe.Tester.{Session}
use cbe.Tester.Main.{Parts, M, put_backend}
use cbe.Tester.Cbe.{lib, next_state}

-- The calls by which the CBE asks for block I/O.
unfoldable pub io_source : {L : Type 0} → Library L → IoSource L
io_source cbe_library = record {
  has_io_request = Library.has_io_request cbe_library;
  io_request_in_progress = Library.io_request_in_progress cbe_library;
  io_request_completed = Library.io_request_completed cbe_library;
}

module _ {L C K Jc Jd Ji D : Type 0} (env : Parts L C K Jc Jd Ji D) where
  unfoldable pub execute_library : M env → Result (Bool × M env)
  execute_library m =
      let (l, b) =
        Library.execute (lib env)
          (record {
            io_data = m.blk_buf;
            plain_data = m.crypto_plain_buf;
            cipher_data = m.crypto_cipher_buf;
          })
          m.cbe in
      ok (
        Library.execute_progress (lib env) l,
        record m {
          cbe = l;
          blk_buf = b.io_data;
          crypto_plain_buf = b.plain_data;
          crypto_cipher_buf = b.cipher_data;
        },
      )

  -- the payload of every request is the one block of the session
  unfoldable pub store_data : Bytes → M env → M env
  store_data d m = record m { block_session = record m.block_session { blk_data = d } }

  unfoldable pub obtain_data : M env → Result (Bool × M env)
  unfolding item store_data
  obtain_data m =
      let (r, l) = Library.client_data_ready (lib env) m.cbe in
      let (obtained, index, k) = Library.obtain_client_data (lib env) r l in
      if not (valid r)
      then ok (false, record m { cbe = l })
      else if Library.client_data_index (lib env) r l == invalid_index_value
      then ok (false, record m { cbe = l })
      else if not obtained
      then ok (false, record m { cbe = k })
      else (item m.crypto_plain_buf index >>= λ block.
          ok (true, store_data block (record m { cbe = k })))

  unfoldable pub supply_data : M env → Result (Bool × M env)
  supply_data m =
      let (r, l) = Library.client_data_required (lib env) m.cbe in
      let (supplied, k) =
        Library.supply_client_data (lib env) r (Session.blk_data m.block_session) l in
      if not (valid r)
      then ok (false, record m { cbe = l })
      else if Library.client_data_index (lib env) r l == invalid_index_value
      then ok (false, record m { cbe = l })
      else ok (supplied, record m { cbe = k })

  -- The two loops for block I/O, with the operation SYNC.
  unfoldable pub backend : M env → Backend L K
  backend m = record { source = m.cbe; session = m.blk; blk_req = m.blk_req; blk_buf = m.blk_buf }

  unfoldable pub put_cbe : Backend L K → M env → M env
  unfolding put_backend
  put_cbe b m = record (put_backend env b m) { cbe = b.source }

  unfoldable pub submit_io : M env → Result (Bool × M env)
  unfolding io_source submit_loop backend put_cbe
  submit_io m = submit_loop (io_source (lib env)) env.blk true 1 false (backend m) >>= λ e.
      ok (e.0, put_cbe e.1 m)

  unfoldable pub acknowledge_io : M env → Result (Bool × M env)
  unfolding io_source ack_loop backend put_cbe
  acknowledge_io m = ack_loop (io_source (lib env)) env.blk true 1 false (backend m) >>= λ e.
      ok (e.0, put_cbe e.1 m)

  unfoldable pub execute_crypto : M env → Result (Bool × M env)
  execute_crypto m =
      let (progress, c) = Crypto.execute env.crypto m.crypto in
      ok (progress, record m { crypto = c })

  unfoldable pub add_key : M env → Result (Bool × M env)
  add_key m =
      let (r, key) = Library.crypto_add_key_required (lib env) m.cbe in
      let requested = Library.crypto_add_key_requested (lib env) r m.cbe in
      if not (valid r)
      then ok (false, m)
      else ok (
        true,
        record m {
          crypto = Crypto.add_key env.crypto key.id key.value m.crypto;
          cbe = Library.crypto_add_key_completed (lib env) (set_success true r) requested;
        },
      )

  unfoldable pub remove_key : M env → Result (Bool × M env)
  remove_key m =
      let (r, key_id) = Library.crypto_remove_key_required (lib env) m.cbe in
      let requested = Library.crypto_remove_key_requested (lib env) r m.cbe in
      if not (valid r)
      then ok (false, m)
      else ok (
        true,
        record m {
          crypto = Crypto.remove_key env.crypto key_id m.crypto;
          cbe = Library.crypto_remove_key_completed (lib env) (set_success true r) requested;
        },
      )

  unfoldable pub submit_encryption : M env → Result (Bool × M env)
  unfolding item
  submit_encryption m =
      let (r, index) = Library.crypto_cipher_data_required (lib env) m.cbe in
      if not (valid r) || not (Crypto.encryption_request_acceptable env.crypto m.crypto)
      then ok (false, m)
      else (item m.crypto_plain_buf index >>= λ plain.
          let (_, c) =
            Crypto.submit_encryption_request env.crypto (set_tag (u32 index) r) plain m.crypto in
          ok (
            true,
            record m {
              crypto = c;
              cbe = Library.crypto_cipher_data_requested (lib env) index m.cbe;
            },
          ))

  unfoldable pub finish_encryption : M env → Result (Bool × M env)
  unfolding item
  finish_encryption m =
      let r = Crypto.peek_completed_encryption_request env.crypto m.crypto in
      if not (valid r)
      then ok (false, m)
      else (item m.crypto_cipher_buf r.tag >>= λ cipher.
          let (supplied, block, c) = Crypto.supply_cipher_data env.crypto r cipher m.crypto in
          let filled = record m { crypto = c; crypto_cipher_buf = block } in
          if not supplied
          then ok (false, filled)
          else ok (
            true,
            record filled {
              cbe = Library.supply_crypto_cipher_data (lib env) r.tag r.success m.cbe;
            },
          ))

  unfoldable pub submit_decryption : M env → Result (Bool × M env)
  unfolding item
  submit_decryption m =
      let (r, index) = Library.crypto_plain_data_required (lib env) m.cbe in
      if not (valid r) || not (Crypto.decryption_request_acceptable env.crypto m.crypto)
      then ok (false, m)
      else (item m.crypto_cipher_buf index >>= λ cipher.
          let (_, c) =
            Crypto.submit_decryption_request env.crypto (set_tag (u32 index) r) cipher m.crypto in
          ok (
            true,
            record m {
              crypto = c;
              cbe = Library.crypto_plain_data_requested (lib env) index m.cbe;
            },
          ))

  unfoldable pub finish_decryption : M env → Result (Bool × M env)
  unfolding item
  finish_decryption m =
      let r = Crypto.peek_completed_decryption_request env.crypto m.crypto in
      if not (valid r)
      then ok (false, m)
      else (item m.crypto_plain_buf r.tag >>= λ plain.
          let (supplied, block, c) = Crypto.supply_plain_data env.crypto r plain m.crypto in
          let filled = record m { crypto = c; crypto_plain_buf = block } in
          if not supplied
          then ok (false, filled)
          else ok (
            true,
            record filled {
              cbe = Library.supply_crypto_plain_data (lib env) r.tag r.success m.cbe;
            },
          ))

  -- The state for the next round, if no block request is in flight.
  unfoldable pub settle_state : M env → Result (Bool × M env)
  unfolding next_state
  settle_state m = if valid m.blk_req then ok (false, m) else ok (false, next_state env m)
