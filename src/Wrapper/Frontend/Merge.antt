-- ===== src/Wrapper/Frontend/Merge.antt =====
-- What an unaligned request of the client comes to in src/lib/vfs/cbe/vfs.cc: the bytes that a
-- read hands out, and the block that a write puts back, against the file as one row of bytes.
use cbe.Wrapper.Submit.Ranges.{submit_unaligned_frontend}
use cbe.Types.{Operation, block_size, request, u32}
use cbe.Prelude.{
  Bytes, ℕ, ◌≡◌, true, ◌<◌, Bool, memcpy, ◌/◌, ◌*◌, ◌+◌, ◌∙◌, arith, ◌%◌, subst, ◌≢◌, sym, ap, refl,
  if◌then◌else◌, false, ◌-◌,
}
use cbe.Wrapper.{Wrapper, frontend_idle, HelperState, FrontendState, FrontendRequest}
use cbe.Wrapper.Submit.{submit_frontend_request, unaligned, in_block}
use cbe.Wrapper.Frontend.Helper.{finish_helper_read, hand_out, write_back, serve_client}

finished_write :
    {L C H : Type 0} (progress : Bool) (w : Wrapper L C H)
    → w.helper_read.state ≡ HelperState.complete
    → w.frontend.cbe_request.operation ≡ Operation.write
    → finish_helper_read progress w ≡ (true, write_back w)
unfolding finish_helper_read
finished_write progress w done op =
    ap (λ b. if b then (true, serve_client w.frontend.cbe_request.operation w) else (progress, w))
      (ap {B = Bool} (λ s. elim s [ HelperState.complete ↦ true | _ ↦ false ]) done)
    ∙ ap {B = Bool × Wrapper _ _ _} (λ o. (true, serve_client o w)) op

finished_read :
    {L C H : Type 0} (progress : Bool) (w : Wrapper L C H)
    → w.helper_read.state ≡ HelperState.complete
    → w.frontend.cbe_request.operation ≡ Operation.read
    → finish_helper_read progress w ≡ (true, hand_out w)
unfolding finish_helper_read
finished_read progress w done op =
    ap (λ b. if b then (true, serve_client w.frontend.cbe_request.operation w) else (progress, w))
      (ap {B = Bool} (λ s. elim s [ HelperState.complete ↦ true | _ ↦ false ]) done)
    ∙ ap {B = Bool × Wrapper _ _ _} (λ o. (true, serve_client o w)) op

overlay :
    (hw hr memory file : Bytes) (offset address n i : ℕ)
    → i < block_size
    → hr i ≡ file (offset / block_size * block_size + i)
    → memcpy (memcpy hw 0 hr 0 block_size) (offset % block_size) memory address n i
      ≡ memcpy file offset memory address n (offset / block_size * block_size + i)
unfolding memcpy
overlay hw hr memory file offset address n i h e = ground arith

underlay :
    (memory hr file : Bytes) (offset address count i : ℕ)
    → ((i : ℕ) → i < block_size → hr i ≡ file (offset / block_size * block_size + i))
    → memcpy memory address hr (offset % block_size) (in_block offset count) i
      ≡ memcpy memory address file offset (in_block offset count) i
unfolding memcpy
underlay memory hr file offset address count i h = ground (
  arith,
  h (offset % block_size + (i - address)),
  ap file {x = offset / block_size * block_size + (offset % block_size + (i - address))}
      {y = offset + (i - address)} (omega arith),
)

module _ {L C H : Type 0} (file : Bytes) (offset address count : ℕ) (op : Operation) (snap_id : ℕ)
    (start : Wrapper L C H) where
  -- The wrapper when the helper read has come back: the client's request is the one that was
  -- submitted at `start`, and the block of the helper is the file's.
  pub record Fetched (w : Wrapper L C H) : Type 0 where
    pub submitted :
        w.frontend ≡ (submit_frontend_request offset address count op snap_id start).1.frontend
    pub fetched : w.helper_read.state ≡ HelperState.complete
    pub same_block :
        (i : ℕ)
        → i < block_size
        → w.helper_read.block_data i ≡ file (offset / block_size * block_size + i)

  abbrev submitted_form : FrontendRequest
  submitted_form = record {
    state = FrontendState.in_progress;
    count = in_block offset count;
    cbe_request = request op (offset / block_size) address (u32 (count / block_size));
    snap_id = snap_id;
    offset = offset;
    helper_offset = offset % block_size;
  }

  module _ (w : Wrapper L C H) (f : Fetched w) (idle : frontend_idle start.frontend ≡ true)
      (un : unaligned offset count ≡ true) where
    form : op ≢ Operation.sync → w.frontend ≡ submitted_form
    form other =
        f.submitted ∙ submit_unaligned_frontend offset address count op snap_id start idle other un

    -- When the block of an unaligned write, submitted while no request was under way, has come
    -- back as the file's, it is made ready to be written back with, at every position, what the
    -- file holds there after the client's bytes have been written over it at the offset; it goes
    -- to the block number of the helper read, and the client's memory and request stay.
    pub unaligned_write :
        op ≡ Operation.write
        → (progress : Bool)
        → let v = (finish_helper_read progress w).1 in
          ((i : ℕ)
            → i < block_size
            → v.helper_write.block_data i
              ≡ memcpy file offset w.memory address
                  (in_block offset count)
                  (offset / block_size * block_size + i))
          × (v.helper_write.state ≡ HelperState.pending)
          × (v.helper_write.cbe_request.block_number ≡ w.helper_read.cbe_request.block_number)
          × (v.helper_read.state ≡ HelperState.none)
          × (v.frontend ≡ w.frontend)
          × (v.memory ≡ w.memory)
    unfolding write_back memcpy
    unaligned_write writes progress =
        subst
          (λ (r : Bool × Wrapper L C H).
            ((i : ℕ)
              → i < block_size
              → r.1.helper_write.block_data i
                ≡ memcpy file offset w.memory address (in_block offset count)
                    (offset / block_size * block_size + i))
            × (r.1.helper_write.state ≡ HelperState.pending)
            × (r.1.helper_write.cbe_request.block_number ≡ w.helper_read.cbe_request.block_number)
            × (r.1.helper_read.state ≡ HelperState.none)
            × (r.1.frontend ≡ w.frontend)
            × (r.1.memory ≡ w.memory))
          (sym (
            finished_write progress w f.fetched
              (ap (λ r. r.cbe_request.operation) (form (ground arith)) ∙ writes)))
          (
            (λ i h. rw (form (ground arith)) (
                overlay w.helper_write.block_data w.helper_read.block_data w.memory file offset
                  address (in_block offset count) i h (f.same_block i h))),
            refl,
            refl,
            refl,
            refl,
            refl,
          )

    -- When the block of an unaligned read, submitted while no request was under way, has come
    -- back as the file's, the client's request completes with the bytes of the file from the
    -- offset on in the client's buffer, as many as it covers, and no other byte of the client's
    -- memory changes.
    pub unaligned_read :
        op ≡ Operation.read
        → (progress : Bool)
        → let v = (finish_helper_read progress w).1 in
          ((i : ℕ) → v.memory i ≡ memcpy w.memory address file offset (in_block offset count) i)
          × (v.frontend.state ≡ FrontendState.complete)
          × (v.frontend.cbe_request.success ≡ w.helper_read.cbe_request.success)
          × (v.helper_read.state ≡ HelperState.none)
    unfolding hand_out memcpy
    unaligned_read reads progress =
        subst
          (λ (r : Bool × Wrapper L C H).
            ((i : ℕ) → r.1.memory i ≡ memcpy w.memory address file offset (in_block offset count) i)
            × (r.1.frontend.state ≡ FrontendState.complete)
            × (r.1.frontend.cbe_request.success ≡ w.helper_read.cbe_request.success)
            × (r.1.helper_read.state ≡ HelperState.none))
          (sym (
            finished_read progress w f.fetched
              (ap (λ r. r.cbe_request.operation) (form (ground arith)) ∙ reads)))
          (
            (λ i. rw (form (ground arith)) (
                underlay w.memory w.helper_read.block_data file offset address count i
                  f.same_block)),
            refl,
            refl,
            refl,
          )
