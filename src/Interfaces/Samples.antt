-- ===== src/Interfaces/Samples.antt =====
-- Concrete values of the interfaces, on which the tests run: a library and a crypto component
-- with nothing to do, and a disk that moves at most two bytes at a time.
use cbe.Prelude.{
  true, ℕ, Bytes, arith, false, if◌then◌else◌, leb, refl, ◌+◌, [], memcpy, not, ◌&&◌, ◌≡◌, ◌<◌,
}
use cbe.Interfaces.Contracts.{Moves, Serves, Answers, Drains, HasRoom, is_control}
use cbe.Interfaces.{Library, Crypto, BlockFile, read_ok, write_ok, sync_ok}
use cbe.Types.{no_request, Request, valid, set_success}

abbrev pub quiet_library : Library ℕ
quiet_library = record {
  fresh = 0;
  max_vba = λ l. 99;
  info =
      λ l. record { valid = true; rekeying = false; extending_vbd = false; extending_ft = false };
  execute = λ b l. (l, b);
  execute_progress = λ l. false;
  client_request_acceptable = λ l. true;
  submit_client_request = λ r i l. l + 1;
  peek_completed_client_request = λ l. no_request;
  drop_completed_client_request = λ r l. l;
  has_io_request = λ l. (no_request, 0);
  io_request_in_progress = λ i l. l;
  io_request_completed = λ i b l. l;
  client_data_ready = λ l. (no_request, l);
  client_data_index = λ r l. 0;
  obtain_client_data = λ r l. (false, 0, l);
  client_data_required = λ l. (no_request, l);
  supply_client_data = λ r d l. (false, l);
  active_snapshot_ids = λ l. [];
  crypto_add_key_required = λ l. (no_request, record { value = λ i. 0; id = 0 });
  crypto_add_key_requested = λ r l. l;
  crypto_add_key_completed = λ r l. l;
  crypto_remove_key_required = λ l. (no_request, 0);
  crypto_remove_key_requested = λ r l. l;
  crypto_remove_key_completed = λ r l. l;
  crypto_cipher_data_required = λ l. (no_request, 0);
  crypto_cipher_data_requested = λ i l. l;
  supply_crypto_cipher_data = λ i b l. l;
  crypto_plain_data_required = λ l. (no_request, 0);
  crypto_plain_data_requested = λ i l. l;
  supply_crypto_plain_data = λ i b l. l;
}

abbrev pub quiet_crypto : Crypto ℕ
quiet_crypto = record {
  execute = λ c. (false, c);
  add_key = λ i k c. c;
  remove_key = λ i c. c;
  encryption_request_acceptable = λ c. true;
  submit_encryption_request = λ r d c. (true, c);
  peek_completed_encryption_request = λ c. no_request;
  supply_cipher_data = λ r d c. (true, d, c);
  decryption_request_acceptable = λ c. true;
  submit_decryption_request = λ r d c. (true, c);
  peek_completed_decryption_request = λ c. no_request;
  supply_plain_data = λ r d c. (true, d, c);
}

pub record Disk : Type 0 where
  pub at : ℕ
  pub bytes : Bytes

-- Each transfer moves two bytes, or fewer if fewer were asked for.
abbrev pub chunk : ℕ → ℕ
chunk n = if leb n 2 then n else 2

abbrev pub disk_file : BlockFile Disk
disk_file = record {
  seek = λ p d. record d { at = p };
  queue_read = λ n d. (true, d);
  complete_read = λ dst n d. record {
    result = read_ok;
    out_count = chunk n;
    stored = λ i. d.bytes (d.at + i);
    handle = record d { at = d.at + chunk n };
  };
  write = λ src n d. record {
    result = write_ok;
    out_count = chunk n;
    handle = record { at = d.at + chunk n; bytes = memcpy d.bytes d.at src 0 (chunk n) };
  };
  queue_sync = λ d. (true, d);
  complete_sync = λ d. (sync_ok, d);
}

pub disk_file-Moves : Moves 1 disk_file
disk_file-Moves = record {
  read_bounded = λ dst n h. ground arith;
  write_bounded = λ src n h. ground arith;
  read_least = λ dst n h e p. ground arith;
  write_least = λ src n h e p. ground arith;
}

abbrev pub disk_file-Serves : Serves disk_file
disk_file-Serves = record {
  position = λ d. d.at;
  content = λ d. d.bytes;
  seek_position = λ p h. refl;
  seek_content = λ p h i. refl;
  queue_position = λ n h. refl;
  queue_content = λ n h i. refl;
  read_content = λ dst n h i. refl;
  read_stored = λ dst n h i e b. refl;
  read_repeats = λ dst n h e. absurd (e refl);
  write_repeats = λ src n h e. absurd (e refl);
  write_refused = λ src n h i e. absurd (e refl);
  write_content = λ src n h i e. refl;
}

-- A library with room for one data request, which completes with success in the next call. It
-- takes no notice of other requests.
abbrev pub prompt_library : Library Request
prompt_library = record {
  fresh = no_request;
  max_vba = λ l. 99;
  info =
      λ l. record { valid = true; rekeying = false; extending_vbd = false; extending_ft = false };
  execute = λ b l. (l, b);
  execute_progress = λ l. false;
  client_request_acceptable = λ l. not (valid l && not (is_control l.operation));
  submit_client_request = λ r i l. if is_control r.operation then l else r;
  peek_completed_client_request =
      λ l. if is_control l.operation then no_request else set_success true l;
  drop_completed_client_request = λ r l. if is_control r.operation then l else no_request;
  has_io_request = λ l. (no_request, 0);
  io_request_in_progress = λ i l. l;
  io_request_completed = λ i b l. l;
  client_data_ready = λ l. (no_request, l);
  client_data_index = λ r l. 0;
  obtain_client_data = λ r l. (false, 0, l);
  client_data_required = λ l. (no_request, l);
  supply_client_data = λ r d l. (false, l);
  active_snapshot_ids = λ l. [];
  crypto_add_key_required = λ l. (no_request, record { value = λ i. 0; id = 0 });
  crypto_add_key_requested = λ r l. l;
  crypto_add_key_completed = λ r l. l;
  crypto_remove_key_required = λ l. (no_request, 0);
  crypto_remove_key_requested = λ r l. l;
  crypto_remove_key_completed = λ r l. l;
  crypto_cipher_data_required = λ l. (no_request, 0);
  crypto_cipher_data_requested = λ i l. l;
  supply_crypto_cipher_data = λ i b l. l;
  crypto_plain_data_required = λ l. (no_request, 0);
  crypto_plain_data_requested = λ i l. l;
  supply_crypto_plain_data = λ i b l. l;
}

pub prompt_library-Answers : Answers prompt_library
prompt_library-Answers = record {
  owes = λ l. valid l && not (is_control l.operation);
  fresh_owes = refl;
  peek_owed = λ l p c. ground arith;
  drop_data = λ r l c. ground arith;
  drop_control = λ r l c. ground arith;
  submit_control = λ r i l c. ground arith;
  execute_owes = λ b l. refl;
  ready_owes = λ l. refl;
  ready_owed = λ l p q. cc;
  ready_indexed = λ l. refl;
  obtain_owes = λ r l. refl;
  required_owes = λ l. refl;
  required_owed = λ l p q. cc;
  required_indexed = λ l. refl;
  supply_owes = λ r d l. refl;
  begun_owes = λ i l. refl;
  done_owes = λ i b l. refl;
  crypto_add_key_requested_owes = λ r l. refl;
  crypto_add_key_completed_owes = λ r l. refl;
  crypto_remove_key_requested_owes = λ r l. refl;
  crypto_remove_key_completed_owes = λ r l. refl;
  crypto_cipher_data_requested_owes = λ i l. refl;
  crypto_plain_data_requested_owes = λ i l. refl;
  supply_crypto_cipher_data_owes = λ i b l. refl;
  supply_crypto_plain_data_owes = λ i b l. refl;
}

pub prompt_library-HasRoom : HasRoom prompt_library prompt_library-Answers
unfolding prompt_library-Answers
prompt_library-HasRoom = record { takes = λ l e. ground arith }

abbrev pub queued_requests : Request → ℕ
queued_requests l = if is_control l.operation then 0 else if valid l then 1 else 0

pub prompt_library-drops :
    (l : Request)
    → let r = Library.peek_completed_client_request prompt_library l in
      valid r ≡ true
      → queued_requests (Library.drop_completed_client_request prompt_library r l)
        < queued_requests l
prompt_library-drops l p = ground arith

abbrev pub prompt_library-Drains : Drains prompt_library
prompt_library-Drains = record { queued = queued_requests; drop_fewer = prompt_library-drops }
