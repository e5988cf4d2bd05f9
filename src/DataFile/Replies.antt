-- ===== src/DataFile/Replies.antt =====
-- What the data file of src/lib/vfs/cbe/vfs.cc replies: who is told to wait is woken, and who
-- is not leaves no request behind.
use cbe.Wrapper.Submit.{submit_frontend_request}
use cbe.Wrapper.Handle.{handle_frontend_request}
use cbe.Wrapper.Submit.Ranges.{submit_frontend_request_taken}
use cbe.Types.{Operation}
use cbe.Interfaces.{
  read_queued, Library, ReadResult, WriteResult, Crypto, BlockFile, insufficient_buffer,
}
use cbe.Prelude.{
  ◌≡◌, some, true, Bool, arith, ℕ, false, if◌then◌else◌, refl, Option, ok, ◌⊎◌, inl, sym,
  Bool-cases, ok-injective, inr, >>=-eq-ok, ◌∙◌, subst,
}
use cbe.DataFile.{read, write, read_result, write_result, FileHandle, admit, busy, admitted}
use cbe.Wrapper.{Wrapper, enqueue_handle, ack_frontend_request, FrontendState, frontend_idle}

-- A reply: whether to wait, and the state that it leaves.
abbrev pub Settles : {L C H : Type 0} → FileHandle → Bool → Wrapper L C H → Type 0
Settles h waits v = if waits then v.enqueued_handle ≡ some h.id else frontend_idle v.frontend ≡ true

abbrev pub read_waits : ReadResult → Bool
read_waits read_queued = true
read_waits _ = false

abbrev pub write_waits : WriteResult → Bool
write_waits insufficient_buffer = true
write_waits _ = false

module _ {L C H : Type 0} where
  enqueue_handle-told : (h : ℕ) (w : Wrapper L C H) → (enqueue_handle h w).enqueued_handle ≡ some h
  unfolding enqueue_handle
  enqueue_handle-told h w = ground arith

  read_result-Settles :
      (h : FileHandle) (s : FrontendState) (w : Wrapper L C H)
      → s ≡ w.frontend.state
      → let t = read_result h s w in Settles h (read_waits t.0) t.2
  unfolding read_result ack_frontend_request
  read_result-Settles h FrontendState.pending w e = enqueue_handle-told h.id w
  read_result-Settles h FrontendState.in_progress w e = enqueue_handle-told h.id w
  read_result-Settles h FrontendState.none w e = ground arith
  read_result-Settles h _ w e = refl

  write_result-Settles :
      (h : FileHandle) (s : FrontendState) (w : Wrapper L C H)
      → s ≡ w.frontend.state
      → let t = write_result h s w in Settles h (write_waits t.0) t.2
  unfolding write_result ack_frontend_request
  write_result-Settles h FrontendState.pending w e = enqueue_handle-told h.id w
  write_result-Settles h FrontendState.in_progress w e = enqueue_handle-told h.id w
  write_result-Settles h FrontendState.none w e = ground arith
  write_result-Settles h _ w e = refl

module _ {L C H : Type 0} (lib : Library L) (cry : Crypto C) (fs : BlockFile H) where
  -- A request that the CBE has room for is taken: no call is refused.
  admit-cases :
      (h : FileHandle) (address count : ℕ) (op : Operation) (snap_id : ℕ) (w : Wrapper L C H)
      → let a = admit lib cry fs h address count op snap_id w in
        ((Library.client_request_acceptable lib w.cbe ≡ false) × (a ≡ busy))
        ⊎ ((v : Wrapper L C H) × (a ≡ admitted v))
  unfolding admit
  admit-cases h address count op snap_id w =
      let taken = (submit_frontend_request_taken h.seek address count op snap_id w).0 in
      elim (Bool-cases (frontend_idle w.frontend)) [
        | inr under_way ↦ inr (w, rw under_way refl)
        | inl idle ↦ elim (Bool-cases (Library.client_request_acceptable lib w.cbe)) [
          | inr full ↦ inl (full, rw (idle, full) refl)
          | inl free ↦ inr (
            (submit_frontend_request h.seek address count op snap_id w).1,
            rw (idle, free, taken ∙ idle) refl,
          )
        ]
      ]

  -- A read that returns is told to wait if the CBE takes no request just now, and then nothing
  -- has changed; else the handle is noted, to be woken, or the reply is final and no request is
  -- left behind.
  pub read-Settles :
      (fuel : ℕ) (h : FileHandle) (dst count : ℕ) (w : Wrapper L C H)
      (t : ReadResult × Option ℕ × Wrapper L C H)
      → read lib cry fs fuel h dst count w ≡ ok t
      → ((Library.client_request_acceptable lib w.cbe ≡ false)
          × (t ≡ (read_queued, Option.none, w)))
        ⊎ Settles h (read_waits t.0) t.2
  unfolding read
  read-Settles fuel h dst count w t e = elim (admit-cases h dst count Operation.read h.snap_id w) [
    | inl (full, a) ↦ inl (full, sym (ok-injective (rw (read, a) at e)))
    | inr (v, a) ↦
        let (u, ran, q) =
          >>=-eq-ok (handle_frontend_request lib cry fs fuel v) _ (rw (read, a) at e) in
        inr (
          subst (λ r. Settles h (read_waits r.0) r.2) (ok-injective q)
            (read_result-Settles h u.frontend.state u refl))
  ]

  -- A write is told to wait, by the exception `Insufficient_buffer`, if the CBE takes no
  -- request just now, and then nothing has changed; else the handle is noted, to be woken, or
  -- the reply is final and no request is left behind. This is said of calls that return.
  pub write-Settles :
      (fuel : ℕ) (h : FileHandle) (src count : ℕ) (w : Wrapper L C H)
      (t : WriteResult × Option ℕ × Wrapper L C H)
      → write lib cry fs fuel h src count w ≡ ok t
      → ((Library.client_request_acceptable lib w.cbe ≡ false)
          × (t ≡ (insufficient_buffer, Option.none, w)))
        ⊎ Settles h (write_waits t.0) t.2
  unfolding write
  write-Settles fuel h src count w t e =
      elim (admit-cases h src count Operation.write h.snap_id w) [
        | inl (full, a) ↦ inl (full, sym (ok-injective (rw (write, a) at e)))
        | inr (v, a) ↦
            let (u, ran, q) =
              >>=-eq-ok (handle_frontend_request lib cry fs fuel v) _ (rw (write, a) at e) in
            inr (
              subst (λ r. Settles h (write_waits r.0) r.2) (ok-injective q)
                (write_result-Settles h u.frontend.state u refl))
      ]
