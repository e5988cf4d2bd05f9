-- ===== src/Replay/Bounds.antt =====
-- That src/app/vfs_replay/component.cc stays within its buffers and within the range of a request.
use cbe.Prelude.{
  ℕ, ◌+◌, ◌^◌, ◌<◌, ◌≤◌, ◌≡◌, Bool, true, ◌⊎◌, arith, Result, false, refl, ◌∙◌, if_elim, ok, subst,
  inr, ltb, sym, throw, ap, inl, memcpy_after,
}
use cbe.Types.{u64}
use cbe.Interfaces.{BlockFile}
use cbe.Interfaces.Contracts.{Moves}
use cbe.Replay.{
  Request, RequestType, RequestState, Files, Turn, Outcome, waits, moves, fails, conclude, settle,
  finish, in_read, in_write, queue_read, read_in, run_read, run_write, seek_write, write_in,
  none_state, read_pending, write_pending, read_in_progress, write_in_progress, read_complete,
  write_complete, sync_pending, sync_in_progress, sync_complete, error_state, after_read, read_call,
  write_call, read_outcome, write_outcome,
}
use cbe.Replay.Loop.{idle}

-- What was moved and what is left make up the request, up to a wrap-around at 64 bits, and without
-- one where the request does not itself reach beyond 64 bits; and the request fits the buffer
-- once it has begun.
pub record Ready (size : ℕ) (r : Request) : Type 0 where
  pub within : r.current_count ≤ r.count
  pub wrapped : u64 (r.current_offset + r.current_count) ≡ u64 (r.offset + r.count)
  pub exact :
      (2 ^ 64 ≤ r.offset + r.count) ⊎ (r.current_offset + r.current_count ≡ r.offset + r.count)
  pub fits : (idle r.state ≡ true) ⊎ (r.count ≤ size)

module _ {H : Type 0} where
  -- The sizes of the buffers stay, and so does all that lies behind the buffer for reading.
  pub record Beyond (w x : Files H) : Type 0 where
    pub read_size : x.read_size ≡ w.read_size
    pub write_size : x.write_size ≡ w.write_size
    pub behind : (i : ℕ) → w.read_size ≤ i → x.read_buffer i ≡ w.read_buffer i

  pub Beyond-refl : (w : Files H) → Beyond w w
  Beyond-refl w = record { read_size = refl; write_size = refl; behind = λ i h. refl }

  pub Beyond-trans : (w x y : Files H) → Beyond w x → Beyond x y → Beyond w y
  Beyond-trans w x y a b = record {
    read_size = b.read_size ∙ a.read_size;
    write_size = b.write_size ∙ a.write_size;
    behind = λ i h. b.behind i (subst (λ n. n ≤ i) (sym a.read_size) h) ∙ a.behind i h;
  }

  pub moved_handle : (w : Files H) (h : H) → Beyond w (record w { handle = h })
  moved_handle w h = record { read_size = refl; write_size = refl; behind = λ i p. refl }

  -- What a turn leaves: a request that is ready, and the buffers within their sizes.
  pub record Bounded (size : ℕ) (y : RequestType) (w : Files H) (t : Turn H) : Type 0 where
    pub type : Request.type (Turn.request t) ≡ y
    pub ready : Ready size (Turn.request t)
    pub beyond : Beyond w (Turn.files t)

module _ {H : Type 0} (least : ℕ) (fs : BlockFile H) (bounded : Moves least fs) (size : ℕ)
    (small : size < 2 ^ 64) where
  conclude-Ready :
      (o : Outcome) (s : RequestState) (progress : Bool) (out : ℕ) (r : Request) (w : Files H)
      → Ready size r
      → r.count ≤ size
      → out ≤ r.current_count
      → Ready size (Turn.request (conclude fs o s progress out r w))
  unfolding conclude settle finish
  conclude-Ready waits s progress out r w v f h = v
  conclude-Ready moves s progress out r w v f h = ground arith
  conclude-Ready fails s progress out r w v f h = ground arith

  conclude-files :
      (o : Outcome) (s : RequestState) (progress : Bool) (out : ℕ) (r : Request) (w : Files H)
      → Turn.files (conclude fs o s progress out r w) ≡ w
  unfolding conclude settle finish
  conclude-files waits s progress out r w = refl
  conclude-files moves s progress out r w = ground arith
  conclude-files fails s progress out r w = refl

  conclude-type :
      (o : Outcome) (s : RequestState) (progress : Bool) (out : ℕ) (r : Request) (w : Files H)
      → Request.type (Turn.request (conclude fs o s progress out r w)) ≡ r.type
  unfolding conclude settle finish
  conclude-type waits s progress out r w = refl
  conclude-type moves s progress out r w = ground arith
  conclude-type fails s progress out r w = refl

  in_read-Bounded :
      (progress : Bool) (r : Request) (w : Files H)
      → w.read_size ≡ size
      → Ready size r
      → r.count ≤ size
      → Bounded size r.type w (in_read fs progress r w)
  unfolding in_read after_read
  in_read-Bounded progress r w s v f =
      let reply = read_call fs r w in
      let o = read_outcome reply.result in
      let x = after_read fs reply r w in
      record {
        type = conclude-type o read_pending progress reply.out_count r x;
        ready =
            conclude-Ready o read_pending progress reply.out_count r x v f
              (Moves.read_bounded bounded w.read_buffer r.current_count w.handle);
        beyond =
            subst (Beyond w) (sym (conclude-files o read_pending progress reply.out_count r x))
              (record {
                read_size = refl;
                write_size = refl;
                behind = λ i h.
                    memcpy_after w.read_buffer 0 reply.stored 0 r.current_count i
                      (let n = v.within in omega arith);
              });
      }

  queue_read-Bounded :
      (progress : Bool) (r : Request) (w : Files H)
      → w.read_size ≡ size
      → Ready size r
      → r.count ≤ size
      → Bounded size r.type w (queue_read fs progress r w)
  unfolding queue_read
  queue_read-Bounded progress r w s v f =
      let (queued, h) =
        BlockFile.queue_read fs r.current_count (BlockFile.seek fs r.current_offset w.handle) in
      let x = record w { handle = h } in
      if_elim (Bounded size r.type w) queued _ _
        (λ _.
          let b =
            in_read-Bounded true (record r { state = read_in_progress }) x s
              (record { within = v.within; wrapped = v.wrapped; exact = v.exact; fits = inr f })
              f in
          record {
            type = b.type;
            ready = b.ready;
            beyond = Beyond-trans w x _ (moved_handle w h) b.beyond;
          })
        (λ _. record { type = refl; ready = v; beyond = moved_handle w h })

  in_write-Bounded :
      (progress : Bool) (r : Request) (w : Files H)
      → Ready size r
      → r.count ≤ size
      → Bounded size r.type w (in_write fs progress r w)
  unfolding in_write
  in_write-Bounded progress r w v f =
      let reply = write_call fs r w in
      let o = write_outcome reply.result in
      let x = record w { handle = reply.handle } in
      record {
        type = conclude-type o write_pending progress reply.out_count r x;
        ready =
            conclude-Ready o write_pending progress reply.out_count r x v f
              (Moves.write_bounded bounded w.write_buffer r.current_count w.handle);
        beyond =
            subst (Beyond w) (sym (conclude-files o write_pending progress reply.out_count r x))
              (moved_handle w reply.handle);
      }

  seek_write-Bounded :
      (r : Request) (w : Files H)
      → Ready size r
      → r.count ≤ size
      → Bounded size r.type w (seek_write fs r w)
  unfolding seek_write
  seek_write-Bounded r w v f =
      let x = record w { handle = BlockFile.seek fs r.current_offset w.handle } in
      let b =
        in_write-Bounded true (record r { state = write_in_progress }) x
          (record { within = v.within; wrapped = v.wrapped; exact = v.exact; fits = inr f }) f in
      record {
        type = b.type;
        ready = b.ready;
        beyond = Beyond-trans w x _ (moved_handle w (Files.handle x)) b.beyond;
      }

  stays :
      (r : Request) (w : Files H) (b : Bool)
      → Ready size r
      → Bounded size r.type w (record { progress = b; request = r; files = w })
  stays r w b v = record { type = refl; ready = v; beyond = Beyond-refl w }

  busy : (r : Request) → Ready size r → idle r.state ≡ false → r.count ≤ size
  busy r v e = let f = v.fits in ground arith

  abbrev pub Returns : RequestType → Files H → Result (Turn H) → Type 0
  Returns y w (ok t) = Bounded size y w t
  Returns y w (throw e) = Unit {0}

  read_in-Bounded :
      (s : RequestState) (r : Request) (w : Files H)
      → r.state ≡ s
      → w.read_size ≡ size
      → Ready size r
      → Returns r.type w (read_in fs s r w)
  unfolding read_in finish
  read_in-Bounded none_state r w e n v =
      if_elim (Returns r.type w) (ltb w.read_size r.count) _ _ (λ _. tt)
        λ f.
          queue_read-Bounded true (record r { state = read_pending }) w n
            (record {
              within = v.within;
              wrapped = v.wrapped;
              exact = v.exact;
              fits = inr (ground arith);
            })
            (ground arith)
  read_in-Bounded read_pending r w e n v = queue_read-Bounded false r w n v (busy r v (ap idle e))
  read_in-Bounded read_in_progress r w e n v = in_read-Bounded false r w n v (busy r v (ap idle e))
  read_in-Bounded read_complete r w e n v = record {
    type = refl;
    ready = record { within = v.within; wrapped = v.wrapped; exact = v.exact; fits = inl refl };
    beyond = Beyond-refl w;
  }
  read_in-Bounded write_pending r w e n v = stays r w false v
  read_in-Bounded write_in_progress r w e n v = stays r w false v
  read_in-Bounded write_complete r w e n v = stays r w false v
  read_in-Bounded sync_pending r w e n v = stays r w false v
  read_in-Bounded sync_in_progress r w e n v = stays r w false v
  read_in-Bounded sync_complete r w e n v = stays r w false v
  read_in-Bounded error_state r w e n v = stays r w false v

  write_in-Bounded :
      (s : RequestState) (r : Request) (w : Files H)
      → r.state ≡ s
      → w.write_size ≡ size
      → Ready size r
      → Returns r.type w (write_in fs s r w)
  unfolding write_in finish
  write_in-Bounded none_state r w e n v =
      if_elim (Returns r.type w) (ltb w.write_size r.count) _ _ (λ _. tt)
        λ f.
          seek_write-Bounded (record r { state = write_pending }) w
            (record {
              within = v.within;
              wrapped = v.wrapped;
              exact = v.exact;
              fits = inr (ground arith);
            })
            (ground arith)
  write_in-Bounded write_pending r w e n v = seek_write-Bounded r w v (busy r v (ap idle e))
  write_in-Bounded write_in_progress r w e n v = in_write-Bounded false r w v (busy r v (ap idle e))
  write_in-Bounded write_complete r w e n v = record {
    type = refl;
    ready = record { within = v.within; wrapped = v.wrapped; exact = v.exact; fits = inl refl };
    beyond = Beyond-refl w;
  }
  write_in-Bounded read_pending r w e n v = stays r w false v
  write_in-Bounded read_in_progress r w e n v = stays r w false v
  write_in-Bounded read_complete r w e n v = stays r w false v
  write_in-Bounded sync_pending r w e n v = stays r w false v
  write_in-Bounded sync_in_progress r w e n v = stays r w false v
  write_in-Bounded sync_complete r w e n v = stays r w false v
  write_in-Bounded error_state r w e n v = stays r w false v

  pub run_read-Bounded :
      (r : Request) (w : Files H)
      → w.read_size ≡ size
      → Ready size r
      → Returns r.type w (run_read fs r w)
  unfolding run_read
  run_read-Bounded r w n v = read_in-Bounded r.state r w refl n v

  pub run_write-Bounded :
      (r : Request) (w : Files H)
      → w.write_size ≡ size
      → Ready size r
      → Returns r.type w (run_write fs r w)
  unfolding run_write
  run_write-Bounded r w n v = write_in-Bounded r.state r w refl n v
