-- ===== src/Wrapper/Encryption/Blocks.antt =====
-- Which block the CBE gets back for one that it had encrypted, in `_handle_crypto` of
-- src/lib/vfs/cbe/vfs.cc.
use cbe.Types.{item, valid, Request, set_success, set_tag, u32}
use cbe.Prelude.{Bytes, Option, ◌≡◌, true, ok, some, ℕ, Bool, ap, refl}
use cbe.Interfaces.{Crypto, Library}
use cbe.Wrapper.{Wrapper}
use cbe.Wrapper.Encryption.{submit_encryption, finish_encryption}

-- A crypto component that has room for one block: it holds the request and the block that were
-- submitted; once it has executed, it offers that request, its tag as it was, with the outcome for
-- that block, and hands out the block's cipher text to who asks for it with what was offered.
pub record Encrypts {C : Type 0} (cry : Crypto C) : Type 0 where
  pub encrypted : Bytes → Bytes
  pub succeeds : Bytes → Bool
  pub held : C → Option (Request × Bytes)
  pub holds :
      (r : Request) (d : Bytes) (c : C)
      → Crypto.encryption_request_acceptable cry c ≡ true
      → held (Crypto.submit_encryption_request cry r d c).1 ≡ some (r, d)
  pub completes :
      (c : C) (r : Request) (d : Bytes)
      → held c ≡ some (r, d)
      → Crypto.peek_completed_encryption_request cry (Crypto.execute cry c).1
        ≡ set_success (succeeds d) r
  pub supplies :
      (c : C) (r : Request) (d b : Bytes)
      → held c ≡ some (r, d)
      → (Crypto.supply_cipher_data cry (set_success (succeeds d) r) b (Crypto.execute cry c).1).0
        ≡ true
  pub hands_out :
      (c : C) (r : Request) (d b : Bytes)
      → held c ≡ some (r, d)
      → (i : ℕ)
      → (Crypto.supply_cipher_data cry (set_success (succeeds d) r) b (Crypto.execute cry c).1).1 i
        ≡ encrypted d i

-- The buffers have one block each.
item-first : (b : Bytes) (n : ℕ) → n ≡ 0 → item b n ≡ ok b
unfolding item
item-first b n first = rw first refl

module _ {L C H : Type 0} (lib : Library L) (cry : Crypto C) where
  -- What the CBE asks for, with the tag under which the component gets it.
  abbrev tagged : Wrapper L C H → Request
  tagged w = let (r, index) = Library.crypto_cipher_data_required lib w.cbe in set_tag (u32 index) r

  -- The state that the round leaves in which the block is submitted.
  abbrev after_submit : Wrapper L C H → Wrapper L C H
  after_submit w = record w {
    crypto = (Crypto.submit_encryption_request cry (tagged w) w.buffers.plain_data w.crypto).1;
    cbe =
        Library.crypto_cipher_data_requested lib (Library.crypto_cipher_data_required lib w.cbe).1
          w.cbe;
  }

  -- The start of a later call of `_handle_crypto`: the component executes.
  abbrev pub worked : Wrapper L C H → Wrapper L C H
  worked w = record w { crypto = (Crypto.execute cry w.crypto).1 }

  -- The state that the round leaves in which the request `p` is fetched.
  abbrev after_finish : Request → Wrapper L C H → Wrapper L C H
  after_finish p w =
      let (supplied, block, c) = Crypto.supply_cipher_data cry p w.buffers.cipher_data w.crypto in
      record w {
        crypto = c;
        buffers = record w.buffers { cipher_data = block };
        cbe = Library.supply_crypto_cipher_data lib p.tag p.success w.cbe;
      }

  submit-after :
      (w : Wrapper L C H)
      → valid (Library.crypto_cipher_data_required lib w.cbe).0 ≡ true
      → (Library.crypto_cipher_data_required lib w.cbe).1 ≡ 0
      → Crypto.encryption_request_acceptable cry w.crypto ≡ true
      → submit_encryption lib cry w ≡ ok (true, after_submit w)
  unfolding submit_encryption
  submit-after w due first free = rw (submit_encryption, due, free, item-first _ _ first)

  finish-after :
      (w : Wrapper L C H) (p : Request)
      → Crypto.peek_completed_encryption_request cry w.crypto ≡ p
      → valid p ≡ true
      → p.tag ≡ 0
      → (Crypto.supply_cipher_data cry p w.buffers.cipher_data w.crypto).0 ≡ true
      → finish_encryption lib cry w ≡ ok (true, after_finish p w)
  unfolding finish_encryption
  finish-after w p offered done first supplied =
      rw (finish_encryption, offered, done, item-first _ _ first, supplied)

module _ {L C H : Type 0} (lib : Library L) (cry : Crypto C) (encrypts : Encrypts cry) where
  -- With a crypto component that has room for one block: when the CBE asks for the cipher text of
  -- the block under the index 0, and the component accepts a request, then the round that submits
  -- it makes progress, and so does the round that fetches it once the component has executed. What
  -- they leave is the cipher text of that very block in the cipher buffer, the plain data and the
  -- I/O data as they were, and a CBE that was told, first, that the block under that index was
  -- requested and, second, under the same index, whether that block could be encrypted.
  pub encryption-returns :
      (w : Wrapper L C H)
      → valid (Library.crypto_cipher_data_required lib w.cbe).0 ≡ true
      → (Library.crypto_cipher_data_required lib w.cbe).1 ≡ 0
      → Crypto.encryption_request_acceptable cry w.crypto ≡ true
      → let plain = w.buffers.plain_data in
        (u v : Wrapper L C H) × (submit_encryption lib cry w ≡ ok (true, u))
        × (finish_encryption lib cry (worked lib cry u) ≡ ok (true, v))
        × ((i : ℕ) → v.buffers.cipher_data i ≡ encrypts.encrypted plain i)
        × (v.buffers.plain_data ≡ plain)
        × (v.buffers.io_data ≡ w.buffers.io_data)
        × (v.cbe
            ≡ Library.supply_crypto_cipher_data lib 0
                (encrypts.succeeds plain)
                (Library.crypto_cipher_data_requested lib 0 w.cbe))
  encryption-returns w due first free =
      let plain = w.buffers.plain_data in
      let u = after_submit lib cry w in
      let r = tagged lib cry w in
      let p = set_success (encrypts.succeeds plain) r in
      let held = encrypts.holds r plain w.crypto free in
      let at_first : p.tag ≡ 0 = ap u32 first in
      (
        u,
        after_finish lib cry p (worked lib cry u),
        submit-after lib cry w due first free,
        finish-after lib cry (worked lib cry u) p (encrypts.completes u.crypto r plain held) due
            at_first (encrypts.supplies u.crypto r plain w.buffers.cipher_data held),
        encrypts.hands_out u.crypto r plain w.buffers.cipher_data held,
        refl,
        refl,
        ap
            (λ t.
              Library.supply_crypto_cipher_data lib (u32 t) (encrypts.succeeds plain)
                (Library.crypto_cipher_data_requested lib t w.cbe))
            first,
      )
