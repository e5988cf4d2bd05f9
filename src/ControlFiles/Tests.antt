-- ===== src/ControlFiles/Tests.antt =====
-- Runs of the control files of src/lib/vfs/cbe/vfs.cc on a small plugin, and the theorems there.
use cbe.ControlFiles.Writes.{
  write_discard-inverted, write_rekey-taken, write_extend-taken, write_create-counts, creating,
  CannotCreate,
}
use cbe.ControlFiles.{
  write_discard, write_extend, write_rekey, string_to_type, is_idle, is_invalid, write_create,
}
use cbe.Types.{Request, valid}
use cbe.Wrapper.Handle.{handle_frontend_request}
use cbe.Prelude.{
  List, Result, ◌≡◌, Bool, Option, none, ok, some, true, ℕ, throw, ◌∷◌, [], false, refl, ◌⊎◌, ◌==◌,
}
use cbe.Interfaces.Samples.{Disk, prompt_library, quiet_crypto, disk_file}
use cbe.Interfaces.{Buffers, WriteResult, write_err_invalid, write_ok, write_err_io, Library}
use cbe.Wrapper.{Wrapper, fresh_wrapper, ControlState, LastResult, TreeType}

abbrev disk : Disk
disk = record { at = 0; bytes = λ i. 0 }

abbrev buffers : Buffers
buffers = record { io_data = λ i. 0; plain_data = λ i. 0; cipher_data = λ i. 0 }

abbrev fresh : Wrapper Request ℕ Disk
fresh = fresh_wrapper prompt_library 0 disk buffers (λ i. 0) 8192 16384

-- The plugin when it knows that nothing is under way.
abbrev plugin : Wrapper Request ℕ Disk
plugin = record fresh {
  rekey_obj = record { state = ControlState.idle; last_result = LastResult.none; key_id = 0 };
  extend_obj = record {
    type = TreeType.invalid;
    state = ControlState.idle;
    last_result = LastResult.none;
  };
}

abbrev Outcome : Type 0
Outcome = WriteResult × Option ℕ × Wrapper Request ℕ Disk

or_else : {A : Type 0} → A → Result A → A
or_else d (ok t) = t
or_else d (throw e) = d

abbrev is_ok : {A : Type 0} → Result A → Bool
is_ok (ok t) = true
is_ok (throw e) = false

or_else-ok : {A : Type 0} (d : A) (r : Result A) → is_ok r ≡ true → r ≡ ok (or_else d r)
unfolding or_else
or_else-ok d (ok t) p = refl
or_else-ok d (throw e) p = cc

abbrev failure : Outcome
failure = (write_err_invalid, none, plugin)

-- The characters of `vbd`.
abbrev vbd : List ℕ
vbd = 118 ∷ 98 ∷ 100 ∷ []

extended_outcome : Outcome
extended_outcome =
    or_else failure (write_extend prompt_library quiet_crypto disk_file vbd 7 9 20 plugin)

write_extend_returns :
    write_extend prompt_library quiet_crypto disk_file vbd 7 9 20 plugin ≡ ok extended_outcome
unfolding extended_outcome write_extend string_to_type fresh_wrapper
    cbe.Wrapper.Frontend.Admit.submit_frontend cbe.Wrapper.Frontend.Admit.submit_helpers
    cbe.Wrapper.Frontend.Complete.drain cbe.Wrapper.Frontend.Transfer.client_read
    cbe.Wrapper.Frontend.Transfer.client_write cbe.Wrapper.Frontend.Helper.finish_helper_write
    cbe.Wrapper.Frontend.Helper.finish_helper_read
write_extend_returns =
    or_else-ok _ (write_extend prompt_library quiet_crypto disk_file vbd 7 9 20 plugin) refl

write_extend-taken_example :
    ((extended_outcome.0 ≡ write_ok)
      × (extended_outcome.1 ≡ some 20)
      × (is_idle plugin.extend_obj.state ≡ true)
      × (is_invalid (string_to_type vbd) ≡ false)
      × ((7 == 0) ≡ false)
      × (Library.client_request_acceptable prompt_library plugin.cbe ≡ true))
    ⊎ (extended_outcome ≡ (write_err_io, none, plugin))
write_extend-taken_example =
    write_extend-taken prompt_library quiet_crypto disk_file vbd 7 9 20 plugin extended_outcome
      write_extend_returns

rekeyed_outcome : Outcome
rekeyed_outcome =
    or_else failure (write_rekey prompt_library quiet_crypto disk_file true 9 20 plugin)

write_rekey_returns :
    write_rekey prompt_library quiet_crypto disk_file true 9 20 plugin ≡ ok rekeyed_outcome
unfolding rekeyed_outcome write_rekey fresh_wrapper cbe.Wrapper.Frontend.Admit.submit_frontend
    cbe.Wrapper.Frontend.Admit.submit_helpers cbe.Wrapper.Frontend.Complete.drain
    cbe.Wrapper.Frontend.Transfer.client_read cbe.Wrapper.Frontend.Transfer.client_write
    cbe.Wrapper.Frontend.Helper.finish_helper_write cbe.Wrapper.Frontend.Helper.finish_helper_read
write_rekey_returns =
    or_else-ok _ (write_rekey prompt_library quiet_crypto disk_file true 9 20 plugin) refl

write_rekey-taken_example :
    ((rekeyed_outcome.0 ≡ write_ok)
      × (rekeyed_outcome.1 ≡ some 20)
      × (is_idle plugin.rekey_obj.state ≡ true)
      × (true ≡ true)
      × (Library.client_request_acceptable prompt_library plugin.cbe ≡ true))
    ⊎ (rekeyed_outcome ≡ (write_err_io, none, plugin))
write_rekey-taken_example =
    write_rekey-taken prompt_library quiet_crypto disk_file true 9 20 plugin rekeyed_outcome
      write_rekey_returns

discarded_outcome : Outcome
discarded_outcome =
    or_else failure (write_discard prompt_library quiet_crypto disk_file 5 9 1 plugin)

write_discard_returns :
    write_discard prompt_library quiet_crypto disk_file 5 9 1 plugin ≡ ok discarded_outcome
unfolding discarded_outcome write_discard fresh_wrapper cbe.Wrapper.Frontend.Admit.submit_frontend
    cbe.Wrapper.Frontend.Admit.submit_helpers cbe.Wrapper.Frontend.Complete.drain
    cbe.Wrapper.Frontend.Transfer.client_read cbe.Wrapper.Frontend.Transfer.client_write
    cbe.Wrapper.Frontend.Helper.finish_helper_write cbe.Wrapper.Frontend.Helper.finish_helper_read
write_discard_returns =
    or_else-ok _ (write_discard prompt_library quiet_crypto disk_file 5 9 1 plugin) refl

-- The snapshot's discarding has begun, and the write reports an error.
discarded_is_error : discarded_outcome.0 ≡ write_err_io
unfolding discarded_outcome or_else write_discard fresh_wrapper
    cbe.Wrapper.Frontend.Admit.submit_frontend cbe.Wrapper.Frontend.Admit.submit_helpers
    cbe.Wrapper.Frontend.Complete.drain cbe.Wrapper.Frontend.Transfer.client_read
    cbe.Wrapper.Frontend.Transfer.client_write cbe.Wrapper.Frontend.Helper.finish_helper_write
    cbe.Wrapper.Frontend.Helper.finish_helper_read
discarded_is_error = refl

write_discard-inverted_example :
    (discarded_outcome.1 ≡ some 0)
    × ((discarded_outcome.0 ≡ write_err_io) ⊎ (discarded_outcome ≡ (write_ok, some 0, plugin)))
write_discard-inverted_example =
    write_discard-inverted prompt_library quiet_crypto disk_file 5 9 1 plugin discarded_outcome
      write_discard_returns

created_outcome : Outcome
created_outcome =
    or_else failure (write_create prompt_library quiet_crypto disk_file true 9 4 plugin)

write_create_returns :
    write_create prompt_library quiet_crypto disk_file true 9 4 plugin ≡ ok created_outcome
unfolding created_outcome write_create fresh_wrapper cbe.Wrapper.Frontend.Admit.submit_frontend
    cbe.Wrapper.Frontend.Admit.submit_helpers cbe.Wrapper.Frontend.Complete.drain
    cbe.Wrapper.Frontend.Transfer.client_read cbe.Wrapper.Frontend.Transfer.client_write
    cbe.Wrapper.Frontend.Helper.finish_helper_write cbe.Wrapper.Frontend.Helper.finish_helper_read
write_create_returns =
    or_else-ok _ (write_create prompt_library quiet_crypto disk_file true 9 4 plugin) refl

write_create-counts_example :
    ((true ≡ false) × (created_outcome ≡ (write_err_io, none, plugin)))
    ⊎ ((true ≡ true)
        × CannotCreate prompt_library quiet_crypto disk_file plugin
        × (created_outcome ≡ (write_ok, some 0, plugin)))
    ⊎ ((true ≡ true)
        × (Library.client_request_acceptable prompt_library plugin.cbe ≡ true)
        × (valid plugin.create_snapshot_request.cbe_request ≡ false)
        × (created_outcome.0 ≡ write_ok)
        × (created_outcome.1 ≡ some 4)
        × (handle_frontend_request prompt_library quiet_crypto disk_file 9
              (creating prompt_library quiet_crypto disk_file plugin)
            ≡ ok created_outcome.2))
write_create-counts_example =
    write_create-counts prompt_library quiet_crypto disk_file true 9 4 plugin created_outcome
      write_create_returns
