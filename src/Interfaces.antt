-- ===== src/Interfaces.antt =====
-- What the modelled code calls and does not implement itself: the CBE library behind
-- include/cbe/library.h, the crypto component behind include/cbe/external_crypto.h, and the file
-- of the block back end, a handle of Genode's virtual file system. Each is a record of operations
-- over a state of any type.
pub mod Contracts
pub mod Samples
pub mod Session
pub mod Programs
use cbe.Prelude.{ℕ, Bool, List, Bytes}
use cbe.Types.{Request, Key, Info}

pub record Buffers : Type 0 where
  pub io_data : Bytes
  pub plain_data : Bytes
  pub cipher_data : Bytes

-- `Cbe::Library`: a const method reads the state, any other returns the next one. What the source
-- hands out through a reference is returned beside the result.
pub record Library (L : Type 0) : Type 0 where
  pub fresh : L
  pub max_vba : L → ℕ
  pub info : L → Info
  pub execute : Buffers → L → L × Buffers
  pub execute_progress : L → Bool
  pub client_request_acceptable : L → Bool
  pub submit_client_request : Request → ℕ → L → L
  pub peek_completed_client_request : L → Request
  pub drop_completed_client_request : Request → L → L
  pub has_io_request : L → Request × ℕ
  pub io_request_in_progress : ℕ → L → L
  pub io_request_completed : ℕ → Bool → L → L
  pub client_data_ready : L → Request × L
  pub client_data_index : Request → L → ℕ
  pub obtain_client_data : Request → L → Bool × ℕ × L
  pub client_data_required : L → Request × L
  pub supply_client_data : Request → Bytes → L → Bool × L
  pub active_snapshot_ids : L → List ℕ
  pub crypto_add_key_required : L → Request × Key
  pub crypto_add_key_requested : Request → L → L
  pub crypto_add_key_completed : Request → L → L
  pub crypto_remove_key_required : L → Request × ℕ
  pub crypto_remove_key_requested : Request → L → L
  pub crypto_remove_key_completed : Request → L → L
  pub crypto_cipher_data_required : L → Request × ℕ
  pub crypto_cipher_data_requested : ℕ → L → L
  pub supply_crypto_cipher_data : ℕ → Bool → L → L
  pub crypto_plain_data_required : L → Request × ℕ
  pub crypto_plain_data_requested : ℕ → L → L
  pub supply_crypto_plain_data : ℕ → Bool → L → L

-- `External::Crypto`. `supply_cipher_data` and `supply_plain_data` fill the block they are given.
pub record Crypto (C : Type 0) : Type 0 where
  pub execute : C → Bool × C
  pub add_key : ℕ → Bytes → C → C
  pub remove_key : ℕ → C → C
  pub encryption_request_acceptable : C → Bool
  pub submit_encryption_request : Request → Bytes → C → Bool × C
  pub peek_completed_encryption_request : C → Request
  pub supply_cipher_data : Request → Bytes → C → Bool × Bytes × C
  pub decryption_request_acceptable : C → Bool
  pub submit_decryption_request : Request → Bytes → C → Bool × C
  pub peek_completed_decryption_request : C → Request
  pub supply_plain_data : Request → Bytes → C → Bool × Bytes × C

-- `Vfs::File_io_service::Read_result`
pub data ReadResult : Type 0 where
  read_ok read_queued read_err_io read_err_invalid : ReadResult
  read_err_interrupt read_err_again read_err_would_block : ReadResult

-- `Vfs::File_io_service::Write_result`, and the exception `Insufficient_buffer`
pub data WriteResult : Type 0 where
  write_ok write_err_io write_err_invalid : WriteResult
  write_err_interrupt write_err_again write_err_would_block : WriteResult
  insufficient_buffer : WriteResult

-- `Vfs::File_io_service::Sync_result`
pub data SyncResult : Type 0 where
  sync_ok sync_queued sync_err_invalid : SyncResult

-- What `complete_read` returns, with its `out_count` and the bytes that it leaves at `dst`.
pub record ReadReply (H : Type 0) : Type 0 where
  pub result : ReadResult
  pub out_count : ℕ
  pub stored : Bytes
  pub handle : H

pub record WriteReply (H : Type 0) : Type 0 where
  pub result : WriteResult
  pub out_count : ℕ
  pub handle : H

-- The calls that the code makes on the handle of the back end. `complete_read` is given the bytes
-- that stand at `dst`, and may change `count` of them; `write` is given those at `src`.
pub record BlockFile (H : Type 0) : Type 0 where
  pub seek : ℕ → H → H
  pub queue_read : ℕ → H → Bool × H
  pub complete_read : Bytes → ℕ → H → ReadReply H
  pub write : Bytes → ℕ → H → WriteReply H
  pub queue_sync : H → Bool × H
  pub complete_sync : H → SyncResult × H
