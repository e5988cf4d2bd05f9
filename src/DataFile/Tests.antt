-- ===== src/DataFile/Tests.antt =====
-- A read of the data file of src/lib/vfs/cbe/vfs.cc from the construction of the plugin on, and
-- the theorems at that history.
use cbe.DataFile.Size.{stat_size_iff}
use cbe.Wrapper.Frontend.Admit.{out_of_range}
use cbe.DataFile.Replies.{Settles, read_waits, write_waits, read-Settles, write-Settles}
use cbe.DataFile.Session.{Reach-IsValid, after, initial, called_read}
use cbe.Wrapper.Submit.{submit_frontend_request}
use cbe.Types.{Request, block_size, request, Operation}
use cbe.Interfaces.Samples.{Disk, prompt_library, prompt_library-Answers, quiet_crypto, disk_file}
use cbe.Prelude.{
  Bytes, Result, ◌≡◌, Option, false, ok, ℕ, ◌*◌, some, throw, refl, ◌⊎◌, Bool, true, ◌+◌, ◌<◌, ◌^◌,
  ◌↔◌, arith, ◌/◌,
}
use cbe.Interfaces.{
  Buffers, Library, ReadResult, WriteResult, read_ok, write_ok, insufficient_buffer, read_err_io,
  read_queued, write_err_io,
}
use cbe.DataFile.{read, FileHandle, write, stat_size}
use cbe.Wrapper.Frontend.Invariant.{IsValid}
use cbe.Wrapper.{Wrapper, fresh_wrapper}

abbrev disk : Disk
disk = record { at = 0; bytes = λ i. 3 * i }

abbrev buffers : Buffers
buffers = record { io_data = λ i. 0; plain_data = λ i. 0; cipher_data = λ i. 0 }

abbrev memory : Bytes
memory i = 5 * i

abbrev client : FileHandle
client = record { id = 7; seek = 10; snap_id = 0 }

abbrev plugin : Wrapper Request ℕ Disk
plugin = fresh_wrapper prompt_library 0 disk buffers memory 8192 16384

abbrev Reply : Type 0
Reply = ReadResult × Option ℕ × Wrapper Request ℕ Disk

abbrev Written : Type 0
Written = WriteResult × Option ℕ × Wrapper Request ℕ Disk

or_else : {A : Type 0} → A → Result A → A
or_else d (ok t) = t
or_else d (throw e) = d

abbrev is_ok : {A : Type 0} → Result A → Bool
is_ok (ok t) = true
is_ok (throw e) = false

or_else-ok : {A : Type 0} (d : A) (r : Result A) → is_ok r ≡ true → r ≡ ok (or_else d r)
unfolding or_else
or_else-ok d (ok t) p = refl
or_else-ok d (throw e) p = cc

reply : Reply
reply =
    or_else (read_err_io, Option.none, plugin)
      (read prompt_library quiet_crypto disk_file 9 client 100 5 plugin)

read_returns : read prompt_library quiet_crypto disk_file 9 client 100 5 plugin ≡ ok reply
unfolding read cbe.Wrapper.Frontend.Admit.submit_frontend cbe.Wrapper.Frontend.Admit.submit_helpers
    cbe.Wrapper.Frontend.Complete.drain cbe.Wrapper.Frontend.Transfer.client_read
    cbe.Wrapper.Frontend.Transfer.client_write cbe.Wrapper.Frontend.Helper.finish_helper_write
    cbe.Wrapper.Frontend.Helper.finish_helper_read submit_frontend_request fresh_wrapper reply
read_returns = or_else-ok _ (read prompt_library quiet_crypto disk_file 9 client 100 5 plugin) refl

-- The CBE answers at once, and the read returns its five bytes.
reply_is_complete : (reply.0 ≡ read_ok) × (reply.1 ≡ some 5)
unfolding read cbe.Wrapper.Frontend.Admit.submit_frontend cbe.Wrapper.Frontend.Admit.submit_helpers
    cbe.Wrapper.Frontend.Complete.drain cbe.Wrapper.Frontend.Transfer.client_read
    cbe.Wrapper.Frontend.Transfer.client_write cbe.Wrapper.Frontend.Helper.finish_helper_write
    cbe.Wrapper.Frontend.Helper.finish_helper_read submit_frontend_request fresh_wrapper reply
    or_else
reply_is_complete = (refl, refl)

Reach-IsValid_example : IsValid prompt_library prompt_library-Answers reply.2
Reach-IsValid_example =
    Reach-IsValid prompt_library prompt_library-Answers quiet_crypto disk_file 0 disk buffers memory
      8192 16384 reply.2 (after initial (called_read 9 client 100 5 reply.0 reply.1 read_returns))

read-Settles_example :
    ((Library.client_request_acceptable prompt_library plugin.cbe ≡ false)
      × (reply ≡ (read_queued, Option.none, plugin)))
    ⊎ Settles client (read_waits reply.0) reply.2
read-Settles_example =
    read-Settles prompt_library quiet_crypto disk_file 9 client 100 5 plugin reply read_returns

written : Written
written =
    or_else (write_err_io, Option.none, plugin)
      (write prompt_library quiet_crypto disk_file 9 client 100 5 plugin)

write_returns : write prompt_library quiet_crypto disk_file 9 client 100 5 plugin ≡ ok written
unfolding write cbe.Wrapper.Frontend.Admit.submit_frontend cbe.Wrapper.Frontend.Admit.submit_helpers
    cbe.Wrapper.Frontend.Complete.drain cbe.Wrapper.Frontend.Transfer.client_read
    cbe.Wrapper.Frontend.Transfer.client_write cbe.Wrapper.Frontend.Helper.finish_helper_write
    cbe.Wrapper.Frontend.Helper.finish_helper_read submit_frontend_request fresh_wrapper written
write_returns =
    or_else-ok _ (write prompt_library quiet_crypto disk_file 9 client 100 5 plugin) refl

written_is_complete : (written.0 ≡ write_ok) × (written.1 ≡ some 5)
unfolding write cbe.Wrapper.Frontend.Admit.submit_frontend cbe.Wrapper.Frontend.Admit.submit_helpers
    cbe.Wrapper.Frontend.Complete.drain cbe.Wrapper.Frontend.Transfer.client_read
    cbe.Wrapper.Frontend.Transfer.client_write cbe.Wrapper.Frontend.Helper.finish_helper_write
    cbe.Wrapper.Frontend.Helper.finish_helper_read submit_frontend_request fresh_wrapper written
    or_else
written_is_complete = (refl, refl)

write-Settles_example :
    ((Library.client_request_acceptable prompt_library plugin.cbe ≡ false)
      × (written ≡ (insufficient_buffer, Option.none, plugin)))
    ⊎ Settles client (write_waits written.0) written.2
write-Settles_example =
    write-Settles prompt_library quiet_crypto disk_file 9 client 100 5 plugin written write_returns

-- The device of 100 blocks.
small_device : (99 + 1) * block_size < 2 ^ 64
small_device = omega arith

stat_size_iff_example : (409599 < stat_size prompt_library plugin) ↔ (
    out_of_range prompt_library (request Operation.read (409599 / block_size) 0 1) plugin.cbe
    ≡ false)
stat_size_iff_example = stat_size_iff prompt_library plugin 409599 small_device
