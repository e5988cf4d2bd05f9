-- ===== src/Interfaces/Contracts.antt =====
-- What the proofs rely on of the code behind the interfaces, as records of named hypotheses.
use cbe.Types.{Operation, Request, valid, is_read, is_write, invalid_index_value}
use cbe.Prelude.{Bool, true, false, ◌==◌, ℕ, ◌≤◌, ◌<◌, ◌≡◌, Bytes, ◌+◌, ◌≢◌, memcpy}
use cbe.Interfaces.{Library, Buffers, BlockFile, read_ok, write_ok}

-- A back-end file reports no more bytes than it was asked for, and at least `least` of them if it
-- reports success and was asked for any.
pub record Moves {H : Type 0} (least : ℕ) (fs : BlockFile H) : Type 0 where
  pub read_bounded :
      (dst : Bytes) (n : ℕ) (h : H) → (BlockFile.complete_read fs dst n h).out_count ≤ n
  pub write_bounded : (src : Bytes) (n : ℕ) (h : H) → (BlockFile.write fs src n h).out_count ≤ n
  pub read_least :
      (dst : Bytes) (n : ℕ) (h : H)
      → (BlockFile.complete_read fs dst n h).result ≡ read_ok
      → 0 < n
      → least ≤ (BlockFile.complete_read fs dst n h).out_count
  pub write_least :
      (src : Bytes) (n : ℕ) (h : H)
      → (BlockFile.write fs src n h).result ≡ write_ok
      → 0 < n
      → least ≤ (BlockFile.write fs src n h).out_count

-- A back-end file that holds `content` and stands at `position`. A read hands out what it holds
-- from its position on, a write changes what it reports as written and no more, and a call that
-- is to be repeated leaves the position where it was.
pub record Serves {H : Type 0} (fs : BlockFile H) : Type 0 where
  pub position : H → ℕ
  pub content : H → Bytes
  pub seek_position : (p : ℕ) (h : H) → position (BlockFile.seek fs p h) ≡ p
  pub seek_content : (p : ℕ) (h : H) (i : ℕ) → content (BlockFile.seek fs p h) i ≡ content h i
  pub queue_position : (n : ℕ) (h : H) → position (BlockFile.queue_read fs n h).1 ≡ position h
  pub queue_content :
      (n : ℕ) (h : H) (i : ℕ) → content (BlockFile.queue_read fs n h).1 i ≡ content h i
  pub read_content :
      (dst : Bytes) (n : ℕ) (h : H) (i : ℕ)
      → content (BlockFile.complete_read fs dst n h).handle i ≡ content h i
  pub read_stored :
      (dst : Bytes) (n : ℕ) (h : H) (i : ℕ)
      → (BlockFile.complete_read fs dst n h).result ≡ read_ok
      → i < (BlockFile.complete_read fs dst n h).out_count
      → (BlockFile.complete_read fs dst n h).stored i ≡ content h (position h + i)
  pub read_repeats :
      (dst : Bytes) (n : ℕ) (h : H)
      → (BlockFile.complete_read fs dst n h).result ≢ read_ok
      → position (BlockFile.complete_read fs dst n h).handle ≡ position h
  pub write_repeats :
      (src : Bytes) (n : ℕ) (h : H)
      → (BlockFile.write fs src n h).result ≢ write_ok
      → position (BlockFile.write fs src n h).handle ≡ position h
  pub write_refused :
      (src : Bytes) (n : ℕ) (h : H) (i : ℕ)
      → (BlockFile.write fs src n h).result ≢ write_ok
      → content (BlockFile.write fs src n h).handle i ≡ content h i
  pub write_content :
      (src : Bytes) (n : ℕ) (h : H) (i : ℕ)
      → (BlockFile.write fs src n h).result ≡ write_ok
      → content (BlockFile.write fs src n h).handle i
        ≡ memcpy (content h) (position h) src 0 (BlockFile.write fs src n h).out_count i

-- The operations that do not transfer data of the client.
abbrev pub is_control : Operation → Bool
is_control Operation.rekey = true
is_control Operation.extend_vbd = true
is_control Operation.extend_ft = true
is_control Operation.create_snapshot = true
is_control Operation.discard_snapshot = true
is_control _ = false

-- The CBE answers no more data requests than it was given: `owes` tells whether a data request
-- that was submitted is still to be completed. It asks for data, and hands it out, for such a
-- request only, and then knows the index of the block. The calls for the back end and for the
-- crypto component neither take nor complete one.
pub record Answers {L : Type 0} (lib : Library L) : Type 0 where
  pub owes : L → Bool
  pub fresh_owes : owes (Library.fresh lib) ≡ false
  pub peek_owed :
      (l : L)
      → valid (Library.peek_completed_client_request lib l) ≡ true
      → is_control (Library.peek_completed_client_request lib l).operation ≡ false
      → owes l ≡ true
  pub drop_data :
      (r : Request) (l : L)
      → is_control r.operation ≡ false
      → owes (Library.drop_completed_client_request lib r l) ≡ false
  pub drop_control :
      (r : Request) (l : L)
      → is_control r.operation ≡ true
      → owes (Library.drop_completed_client_request lib r l) ≡ owes l
  pub submit_control :
      (r : Request) (id : ℕ) (l : L)
      → is_control r.operation ≡ true
      → owes (Library.submit_client_request lib r id l) ≡ owes l
  pub execute_owes : (b : Buffers) (l : L) → owes (Library.execute lib b l).0 ≡ owes l
  pub ready_owes : (l : L) → owes (Library.client_data_ready lib l).1 ≡ owes l
  pub ready_owed :
      (l : L)
      → valid (Library.client_data_ready lib l).0 ≡ true
      → is_read (Library.client_data_ready lib l).0 ≡ true
      → owes l ≡ true
  pub ready_indexed :
      (l : L)
      → let (r, k) = Library.client_data_ready lib l in
        (Library.client_data_index lib r k == invalid_index_value) ≡ false
  pub obtain_owes : (r : Request) (l : L) → owes (Library.obtain_client_data lib r l).2 ≡ owes l
  pub required_owes : (l : L) → owes (Library.client_data_required lib l).1 ≡ owes l
  pub required_owed :
      (l : L)
      → valid (Library.client_data_required lib l).0 ≡ true
      → is_write (Library.client_data_required lib l).0 ≡ true
      → owes l ≡ true
  pub required_indexed :
      (l : L)
      → let (r, k) = Library.client_data_required lib l in
        (Library.client_data_index lib r k == invalid_index_value) ≡ false
  pub supply_owes :
      (r : Request) (d : Bytes) (l : L) → owes (Library.supply_client_data lib r d l).1 ≡ owes l
  pub begun_owes : (i : ℕ) (l : L) → owes (Library.io_request_in_progress lib i l) ≡ owes l
  pub done_owes :
      (i : ℕ) (b : Bool) (l : L) → owes (Library.io_request_completed lib i b l) ≡ owes l
  pub crypto_add_key_requested_owes :
      (r : Request) (l : L) → owes (Library.crypto_add_key_requested lib r l) ≡ owes l
  pub crypto_add_key_completed_owes :
      (r : Request) (l : L) → owes (Library.crypto_add_key_completed lib r l) ≡ owes l
  pub crypto_remove_key_requested_owes :
      (r : Request) (l : L) → owes (Library.crypto_remove_key_requested lib r l) ≡ owes l
  pub crypto_remove_key_completed_owes :
      (r : Request) (l : L) → owes (Library.crypto_remove_key_completed lib r l) ≡ owes l
  pub crypto_cipher_data_requested_owes :
      (i : ℕ) (l : L) → owes (Library.crypto_cipher_data_requested lib i l) ≡ owes l
  pub crypto_plain_data_requested_owes :
      (i : ℕ) (l : L) → owes (Library.crypto_plain_data_requested lib i l) ≡ owes l
  pub supply_crypto_cipher_data_owes :
      (i : ℕ) (b : Bool) (l : L) → owes (Library.supply_crypto_cipher_data lib i b l) ≡ owes l
  pub supply_crypto_plain_data_owes :
      (i : ℕ) (b : Bool) (l : L) → owes (Library.supply_crypto_plain_data lib i b l) ≡ owes l

-- While the CBE owes no answer to a data request, its pool has a place for one.
pub record HasRoom {L : Type 0} (lib : Library L) (answers : Answers lib) : Type 0 where
  pub takes :
      (l : L) → Answers.owes answers l ≡ false → Library.client_request_acceptable lib l ≡ true

-- Each completed request is handed out once: `queued` of them wait to be dropped.
pub record Drains {L : Type 0} (lib : Library L) : Type 0 where
  pub queued : L → ℕ
  pub drop_fewer :
      (l : L)
      → let r = Library.peek_completed_client_request lib l in
        valid r ≡ true → queued (Library.drop_completed_client_request lib r l) < queued l
