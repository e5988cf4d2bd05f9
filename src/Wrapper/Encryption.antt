-- ===== src/Wrapper/Encryption.antt =====
-- src/lib/vfs/cbe/vfs.cc, `Wrapper::_handle_crypto`: keys and blocks between the CBE and the
-- crypto component.
pub mod Rounds
pub mod Tests
pub mod Blocks
use cbe.Types.{set_success, valid, item, set_tag, u32}
use cbe.Prelude.{
  Result, Bool, if◌then◌else◌, ℕ, not, throw, true, ◌>>=◌, out_of_fuel, ok, suc, ◌||◌, false, zero,
}
use cbe.Interfaces.{Library, Crypto}
use cbe.Wrapper.{Wrapper}

-- A loop `while (true)`. One round tells whether the loop goes on, which is progress, or is left
-- by `break`. The fuel bounds the rounds.
unfoldable pub repeat : {S : Type 0} → (S → Result (Bool × S)) → ℕ → Bool → S → Result (Bool × S)
repeat round zero progress s = throw out_of_fuel
repeat round (suc fuel) progress s = round s >>= λ r.
    let rest = repeat round fuel true r.1 in if r.0 then rest else ok (progress, r.1)

module _ {L C H : Type 0} (lib : Library L) (cry : Crypto C) where
  unfoldable pub add_key : Wrapper L C H → Result (Bool × Wrapper L C H)
  add_key w =
      let (r, key) = Library.crypto_add_key_required lib w.cbe in
      let requested = Library.crypto_add_key_requested lib r w.cbe in
      let completed = Library.crypto_add_key_completed lib (set_success true r) requested in
      let crypto = Crypto.add_key cry key.id key.value w.crypto in
      if not (valid r)
      then ok (false, w)
      else ok (true, record w { cbe = completed; crypto = crypto })

  unfoldable pub remove_key : Wrapper L C H → Result (Bool × Wrapper L C H)
  remove_key w =
      let (r, key_id) = Library.crypto_remove_key_required lib w.cbe in
      let requested = Library.crypto_remove_key_requested lib r w.cbe in
      let completed = Library.crypto_remove_key_completed lib (set_success true r) requested in
      let crypto = Crypto.remove_key cry key_id w.crypto in
      if not (valid r)
      then ok (false, w)
      else ok (true, record w { cbe = completed; crypto = crypto })

  -- What the component answers to a submitted request is not looked at.
  unfoldable pub submit_encryption : Wrapper L C H → Result (Bool × Wrapper L C H)
  submit_encryption w =
      let (r, data_index) = Library.crypto_cipher_data_required lib w.cbe in
      if not (valid r) || not (Crypto.encryption_request_acceptable cry w.crypto)
      then ok (false, w)
      else (item w.buffers.plain_data data_index >>= λ plain.
          let (_, c) =
            Crypto.submit_encryption_request cry (set_tag (u32 data_index) r) plain w.crypto in
          ok (
            true,
            record w {
              crypto = c;
              cbe = Library.crypto_cipher_data_requested lib data_index w.cbe;
            },
          ))

  unfoldable pub finish_encryption : Wrapper L C H → Result (Bool × Wrapper L C H)
  finish_encryption w =
      let r = Crypto.peek_completed_encryption_request cry w.crypto in
      if not (valid r)
      then ok (false, w)
      else (item w.buffers.cipher_data r.tag >>= λ cipher.
          let (supplied, block, c) = Crypto.supply_cipher_data cry r cipher w.crypto in
          let filled = record w {
            crypto = c;
            buffers = record w.buffers { cipher_data = block };
          } in
          if not supplied
          then ok (false, filled)
          else ok (
            true,
            record filled { cbe = Library.supply_crypto_cipher_data lib r.tag r.success w.cbe },
          ))

  unfoldable pub submit_decryption : Wrapper L C H → Result (Bool × Wrapper L C H)
  submit_decryption w =
      let (r, data_index) = Library.crypto_plain_data_required lib w.cbe in
      if not (valid r) || not (Crypto.decryption_request_acceptable cry w.crypto)
      then ok (false, w)
      else (item w.buffers.cipher_data data_index >>= λ cipher.
          let (_, c) =
            Crypto.submit_decryption_request cry (set_tag (u32 data_index) r) cipher w.crypto in
          ok (
            true,
            record w { crypto = c; cbe = Library.crypto_plain_data_requested lib data_index w.cbe },
          ))

  unfoldable pub finish_decryption : Wrapper L C H → Result (Bool × Wrapper L C H)
  finish_decryption w =
      let r = Crypto.peek_completed_decryption_request cry w.crypto in
      if not (valid r)
      then ok (false, w)
      else (item w.buffers.plain_data r.tag >>= λ plain.
          let (supplied, block, c) = Crypto.supply_plain_data cry r plain w.crypto in
          let filled = record w { crypto = c; buffers = record w.buffers { plain_data = block } } in
          if not supplied
          then ok (false, filled)
          else ok (
            true,
            record filled { cbe = Library.supply_crypto_plain_data lib r.tag r.success w.cbe },
          ))

  unfoldable pub handle_crypto : ℕ → Wrapper L C H → Result (Bool × Wrapper L C H)
  unfolding repeat add_key remove_key submit_encryption finish_encryption submit_decryption
      finish_decryption
  handle_crypto fuel w =
      let (executed, crypto) = Crypto.execute cry w.crypto in
      repeat add_key fuel executed (record w { crypto = crypto }) >>= λ a.
      repeat remove_key fuel a.0 a.1 >>= λ b. repeat submit_encryption fuel b.0 b.1 >>= λ c.
      repeat finish_encryption fuel c.0 c.1 >>= λ d.
      repeat submit_decryption fuel d.0 d.1 >>= λ e. repeat finish_decryption fuel e.0 e.1
