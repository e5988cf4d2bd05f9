-- ===== src/Wrapper/Encryption/Tests.antt =====
-- A block on its way through a small crypto component, in `_handle_crypto` of
-- src/lib/vfs/cbe/vfs.cc.
use cbe.Types.{Request, item, request, Operation, no_request, set_success}
use cbe.Prelude.{
  Option, Result, ◌≡◌, Bool, Bytes, false, ℕ, ◌*◌, ◌+◌, none, ok, refl, some, throw, true, ap,
}
use cbe.Wrapper.Encryption.Blocks.{Encrypts, encryption-returns, worked}
use cbe.Interfaces.Samples.{Disk, prompt_library}
use cbe.Interfaces.{Buffers, Crypto, Library}
use cbe.Wrapper.{Wrapper, fresh_wrapper}
use cbe.Wrapper.Encryption.{submit_encryption, finish_encryption}

-- Room for one request and its block, either to be worked on or done; the cipher text of a byte is
-- the next number.
data Slot : Type 0 where
  free : Slot
  busy done : Request → Bytes → Slot

abbrev accepts : Slot → Bool
accepts free = true
accepts _ = false

abbrev work : Slot → Bool × Slot
work (busy r d) = (true, done (set_success true r) d)
work c = (false, c)

abbrev offered : Slot → Request
offered (done r d) = r
offered _ = no_request

abbrev hand_out_cipher : Request → Bytes → Slot → Bool × Bytes × Slot
hand_out_cipher r b (done q d) = (true, (λ i. d i + 1), free)
hand_out_cipher r b c = (false, b, c)

abbrev slot_crypto : Crypto Slot
slot_crypto = record {
  execute = work;
  add_key = λ i k c. c;
  remove_key = λ i c. c;
  encryption_request_acceptable = accepts;
  submit_encryption_request = λ r d c. (true, busy r d);
  peek_completed_encryption_request = offered;
  supply_cipher_data = hand_out_cipher;
  decryption_request_acceptable = λ c. false;
  submit_decryption_request = λ r d c. (false, c);
  peek_completed_decryption_request = λ c. no_request;
  supply_plain_data = λ r b c. (false, b, c);
}

abbrev to_do : Slot → Option (Request × Bytes)
to_do (busy r d) = some (r, d)
to_do _ = none

slot_completes :
    (c : Slot) (r : Request) (d : Bytes)
    → to_do c ≡ some (r, d)
    → offered (work c).1 ≡ set_success true r
slot_completes free r d e = cc
slot_completes (busy q b) r d e =
    ap (λ (o : Option (Request × Bytes)). elim o [ none ↦ r | some p ↦ set_success true p.0 ]) e
slot_completes (done q b) r d e = cc

slot_supplies :
    (c : Slot) (r : Request) (d b : Bytes)
    → to_do c ≡ some (r, d)
    → (hand_out_cipher (set_success true r) b (work c).1).0 ≡ true
slot_supplies free r d b e = cc
slot_supplies (busy q x) r d b e = refl
slot_supplies (done q x) r d b e = cc

slot_hands_out :
    (c : Slot) (r : Request) (d b : Bytes)
    → to_do c ≡ some (r, d)
    → (i : ℕ) → (hand_out_cipher (set_success true r) b (work c).1).1 i ≡ d i + 1
slot_hands_out free r d b e i = cc
slot_hands_out (busy q x) r d b e i =
    ap (λ (o : Option (Request × Bytes)). elim o [ none ↦ 0 | some p ↦ p.1 i + 1 ]) e
slot_hands_out (done q x) r d b e i = cc

abbrev slot_encrypts : Encrypts slot_crypto
slot_encrypts = record {
  encrypted = λ d i. d i + 1;
  succeeds = λ d. true;
  held = to_do;
  holds = λ r d c a. refl;
  completes = slot_completes;
  supplies = slot_supplies;
  hands_out = slot_hands_out;
}

-- A CBE that asks for the cipher text of its block.
abbrev asking : Library Request
asking = record prompt_library {
  crypto_cipher_data_required = λ l. (request Operation.write 3 0 1, 0);
}

abbrev disk : Disk
disk = record { at = 0; bytes = λ i. 0 }

abbrev buffers : Buffers
buffers = record { io_data = λ i. 0; plain_data = λ i. 4 * i; cipher_data = λ i. 0 }

abbrev plugin : Wrapper Request Slot Disk
plugin = fresh_wrapper asking free disk buffers (λ i. 0) 8192 16384

or_else : {A : Type 0} → A → Result (Bool × A) → A
or_else d (ok t) = t.1
or_else d (throw e) = d

submitted : Wrapper Request Slot Disk
unfolding submit_encryption item fresh_wrapper or_else
submitted = or_else plugin (submit_encryption asking slot_crypto plugin)

finished : Wrapper Request Slot Disk
unfolding submitted finish_encryption item
finished =
    or_else plugin (finish_encryption asking slot_crypto (worked asking slot_crypto submitted))

cipher_at_5 : finished.buffers.cipher_data 5 ≡ 21
unfolding finished
cipher_at_5 = refl

-- Before the component has executed there is nothing to fetch.
not_yet : finish_encryption asking slot_crypto submitted ≡ ok (false, submitted)
unfolding submitted finish_encryption
not_yet = refl

encryption-returns_example :
    (u v : Wrapper Request Slot Disk) × (submit_encryption asking slot_crypto plugin ≡ ok (true, u))
    × (finish_encryption asking slot_crypto (worked asking slot_crypto u) ≡ ok (true, v))
    × ((i : ℕ) → v.buffers.cipher_data i ≡ plugin.buffers.plain_data i + 1)
    × (v.buffers.plain_data ≡ plugin.buffers.plain_data)
    × (v.buffers.io_data ≡ plugin.buffers.io_data)
    × (v.cbe
        ≡ Library.supply_crypto_cipher_data asking 0 true
            (Library.crypto_cipher_data_requested asking 0 plugin.cbe))
unfolding fresh_wrapper
encryption-returns_example =
    encryption-returns asking slot_crypto slot_encrypts plugin refl refl refl
