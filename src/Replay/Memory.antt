-- ===== src/Replay/Memory.antt =====
-- That src/app/vfs_replay/component.cc stays within its buffers, over any number of calls.
use cbe.Prelude.{
  inr, ◌∷◌, if◌then◌else◌, ℕ, ◌+◌, ◌^◌, ◌<◌, ◌≡◌, Bool, true, arith, Result, refl, ◌∙◌, if_elim, ok,
  subst, sym, throw, inl, zero, suc, ◌>>=◌, List, not, get_elem?, Option, none, some,
}
use cbe.Types.{u32}
use cbe.Interfaces.{BlockFile}
use cbe.Interfaces.Contracts.{Moves}
use cbe.Interfaces.Session.{exit_one, exit_success}
use cbe.Replay.{Request, RequestType, string_to_type, Files, Turn, run_read, run_write}
use cbe.Replay.Loop.{
  Reach, kicked_off, responded, idle, Player, Node, next_request, begin_request, dispatch,
  handle_request, judge, advance, process_replay, conclude, Verdict, leave, again, kick_off,
  first_player, io_progress_response_handler,
}
use cbe.Replay.Sync.{sync_in-Kept}
use cbe.Replay.Bounds.{
  Ready, Beyond, Beyond-refl, Beyond-trans, Returns, run_read-Bounded, run_write-Bounded,
}

-- The request as its type goes with the buffers.
abbrev pub Fits : {H : Type 0} → RequestType → Request → Files H → Type 0
Fits RequestType.read r w = Ready w.read_size r
Fits RequestType.write r w = Ready w.write_size r
Fits _ r w = Unit {0}

-- The members between two rounds.
pub record IsValid {H : Type 0} (p : Player H) : Type 0 where
  pub fits : Fits (Request.type p.current_request) p.current_request p.files
  pub small_read : Files.read_size p.files < 2 ^ 64
  pub small_write : Files.write_size p.files < 2 ^ 64

module _ {H : Type 0} (least : ℕ) (fs : BlockFile H) (bounded : Moves least fs) where
  next_request-Fits :
      (t : RequestType) (n : Node) (r : Request) (w : Files H)
      → Fits (Request.type (next_request t n r)) (next_request t n r) w
  unfolding next_request
  next_request-Fits RequestType.invalid n r w = tt
  next_request-Fits RequestType.read n r w = record {
    within = ground arith;
    wrapped = refl;
    exact = inr refl;
    fits = inl refl;
  }
  next_request-Fits RequestType.write n r w = record {
    within = ground arith;
    wrapped = refl;
    exact = inr refl;
    fits = inl refl;
  }
  next_request-Fits RequestType.sync n r w = tt

  begin_request-Fits :
      (n : Node) (r : Request) (w : Files H)
      → Fits r.type r w
      → Fits (Request.type (begin_request n r)) (begin_request n r) w
  unfolding begin_request
  begin_request-Fits n r w f =
      if_elim (λ q. Fits (Request.type q) q w) (idle r.state) _ _
        (λ _. next_request-Fits (string_to_type n.type) n r w) (λ _. f)

  -- A turn of a request of some type.
  abbrev Dispatched : RequestType → Files H → Result (Turn H) → Type 0
  Dispatched y w (throw e) = Unit {0}
  Dispatched y w (ok t) =
      (Request.type (Turn.request t) ≡ y)
      × Fits y (Turn.request t) (Turn.files t)
      × Beyond w (Turn.files t)

  read_turn :
      (y : RequestType) (w : Files H) (m : Result (Turn H)) (a : w.read_size < 2 ^ 64)
      → y ≡ RequestType.read
      → Returns least fs bounded w.read_size a y w m
      → Dispatched RequestType.read w m
  read_turn y w (throw e) a q b = tt
  read_turn y w (ok t) a q b = (
    b.type ∙ q,
    subst (λ n. Ready n (Turn.request t)) (sym (Beyond.read_size b.beyond)) b.ready,
    b.beyond,
  )

  write_turn :
      (y : RequestType) (w : Files H) (m : Result (Turn H)) (a : w.write_size < 2 ^ 64)
      → y ≡ RequestType.write
      → Returns least fs bounded w.write_size a y w m
      → Dispatched RequestType.write w m
  write_turn y w (throw e) a q b = tt
  write_turn y w (ok t) a q b = (
    b.type ∙ q,
    subst (λ n. Ready n (Turn.request t)) (sym (Beyond.write_size b.beyond)) b.ready,
    b.beyond,
  )

  -- What a round leaves, of the members it began with.
  abbrev pub Kept : Player H → Player H → Type 0
  Kept p q = IsValid q × Beyond p.files q.files

  abbrev Handled : Player H → Result (Bool × Player H) → Type 0
  Handled p (ok r) = Kept p r.1
  Handled p (throw e) = Unit {0}

  abbrev Judged : Player H → Verdict H → Type 0
  Judged p (leave failed q) = Kept p q
  Judged p (again q) = Kept p q

  abbrev pub Ended : Player H → Result (Player H) → Type 0
  Ended p (ok q) = Kept p q
  Ended p (throw e) = Unit {0}

  handled :
      (p : Player H) (m : Result (Turn H)) (y : RequestType)
      → IsValid p
      → Dispatched y p.files m
      → Handled p (
          m >>= λ t.
          ok (Turn.progress t, record p { current_request = Turn.request t; files = Turn.files t }))
  handled p (throw e) y v d = tt
  handled p (ok t) y v d =
      let b = d.2 in
      (
        record {
          fits = subst (λ x. Fits x (Turn.request t) (Turn.files t)) (sym d.0) d.1;
          small_read = subst (λ n. n < 2 ^ 64) (sym (Beyond.read_size b)) v.small_read;
          small_write = subst (λ n. n < 2 ^ 64) (sym (Beyond.write_size b)) v.small_write;
        },
        b,
      )

  later : (p q : Player H) (m : Result (Player H)) → Kept p q → Ended q m → Ended p m
  later p q (throw e) k h = tt
  later p q (ok x) k h = (h.0, Beyond-trans p.files q.files x.files k.1 h.1)

  dispatch-Fits :
      (y : RequestType) (r : Request) (w : Files H)
      → r.type ≡ y
      → w.read_size < 2 ^ 64
      → w.write_size < 2 ^ 64
      → Fits y r w
      → Dispatched y w (dispatch fs y r w)
  unfolding dispatch
  dispatch-Fits RequestType.invalid r w e a b f = (e, tt, Beyond-refl w)
  dispatch-Fits RequestType.read r w e a b f =
      read_turn r.type w (run_read fs r w) a e
        (run_read-Bounded least fs bounded w.read_size a r w refl f)
  dispatch-Fits RequestType.write r w e a b f =
      write_turn r.type w (run_write fs r w) b e
        (run_write-Bounded least fs bounded w.write_size b r w refl f)
  dispatch-Fits RequestType.sync r w e a b f =
      let (t, k) = sync_in-Kept fs r.state r w in (t ∙ e, tt, k)

  handle_request-IsValid : (p : Player H) → IsValid p → Handled p (handle_request fs p)
  unfolding handle_request
  handle_request-IsValid p v =
      let r = begin_request p.request_node p.current_request in
      handled p (dispatch fs r.type r p.files) r.type v (
        dispatch-Fits r.type r p.files refl v.small_read v.small_write
          (begin_request-Fits p.request_node p.current_request p.files v.fits))

  same_files :
      (p q : Player H) (finished : Bool) (node : Node) (id : ℕ)
      → Kept p q
      → Kept p (record q { finished = finished; request_node = node; curr_request_id = id })
  same_files p q finished node id k = (
    record {
      fits = IsValid.fits k.0;
      small_read = IsValid.small_read k.0;
      small_write = IsValid.small_write k.0;
    },
    k.1,
  )

  advance-Kept : (p q : Player H) (o : Option Node) → Kept p q → Judged p (advance fs o q)
  unfolding advance
  advance-Kept p q none k = same_files p q true q.request_node q.curr_request_id k
  advance-Kept p q (some node) k = same_files p q q.finished node q.curr_request_id k

  judge-Kept : (progress : Bool) (p q : Player H) → Kept p q → Judged p (judge fs progress q)
  unfolding judge
  judge-Kept progress p q k =
      let id = u32 (q.curr_request_id + 1) in
      if_elim (Judged p) (not progress) _ _ (λ _. k)
        λ _.
          if_elim (Judged p) (not (Request.complete q.current_request)) _ _ (λ _. k)
            λ _.
              if_elim (Judged p) (not (Request.success q.current_request)) _ _
                (λ _. same_files p q true q.request_node q.curr_request_id k)
                λ _.
                  advance-Kept p (record q { curr_request_id = id }) (get_elem? q.nodes id)
                    (same_files p q q.finished q.request_node id k)

  conclude-Kept : (failed : Bool) (p q : Player H) → Kept p q → Kept p (conclude fs failed q)
  unfolding conclude
  conclude-Kept failed p q k =
      if_elim (Kept p) q.finished
        (record q { exits = (if failed then exit_one else exit_success) ∷ q.exits }) q
        (λ _. (
          record {
            fits = IsValid.fits k.0;
            small_read = IsValid.small_read k.0;
            small_write = IsValid.small_write k.0;
          },
          k.1,
        ))
        (λ _. k)

  verdict-Ended :
      (f : Player H → Result (Player H)) (p : Player H) (j : Verdict H)
      → ((q : Player H) → IsValid q → Ended q (f q))
      → Judged p j
      → Ended p (elim j [ leave failed q ↦ ok (conclude fs failed q) | again q ↦ f q ])
  verdict-Ended f p (leave failed q) h k = conclude-Kept failed p q k
  verdict-Ended f p (again q) h k = later p q (f q) k (h q k.0)

  round-Ended :
      (f : Player H → Result (Player H)) (p : Player H) (m : Result (Bool × Player H))
      → ((q : Player H) → IsValid q → Ended q (f q))
      → Handled p m
      → Ended p (
          m >>= λ r. elim (judge fs r.0 r.1) [
            | leave failed q ↦ ok (conclude fs failed q)
            | again q ↦ f q
          ])
  round-Ended f p (throw e) h k = tt
  round-Ended f p (ok r) h k = verdict-Ended f p (judge fs r.0 r.1) h (judge-Kept r.0 p r.1 k)

  -- A run of the loop that returns leaves valid members and the memory behind the read buffer.
  process_replay-Kept : (fuel : ℕ) (p : Player H) → IsValid p → Ended p (process_replay fs fuel p)
  unfolding process_replay
  process_replay-Kept zero p v = tt
  process_replay-Kept (suc fuel) p v =
      round-Ended (process_replay fs fuel) p (handle_request fs p)
        (λ q w. process_replay-Kept fuel q w) (handle_request-IsValid p v)

  Ended-ok : (p q : Player H) (m : Result (Player H)) → Ended p m → m ≡ ok q → Kept p q
  Ended-ok p q m h e = subst (Ended p) e h

  first-IsValid :
      (w : Files H) (node : Node) (rest : List Node)
      → w.read_size < 2 ^ 64
      → w.write_size < 2 ^ 64
      → IsValid (first_player w node rest)
  unfolding first_player
  first-IsValid w node rest a b = record { fits = tt; small_read = a; small_write = b }

  response-Ended :
      (fuel : ℕ) (p : Player H) → IsValid p → Ended p (io_progress_response_handler fs fuel p)
  unfolding io_progress_response_handler
  response-Ended fuel p v =
      if_elim (Ended p) p.finished _ _ (λ _. (v, Beyond-refl p.files))
        (λ _. process_replay-Kept fuel p v)

  -- On a file that reports no more bytes than it was asked for, with buffers whose sizes are 64-bit
  -- numbers, and whatever the configuration lists, after any number of calls that return: no more
  -- bytes are left of the current read or write than it has; the offset reached and the bytes left
  -- add up to the request's offset and its bytes, exactly where that sum is below 2^64, and modulo
  -- 2^64 where it is not; the request fits into its buffer once it has begun; and no byte behind
  -- the buffer for reading has changed.
  pub Reach-Bounded :
      (w : Files H) (node : Node) (rest : List Node)
      → w.read_size < 2 ^ 64
      → w.write_size < 2 ^ 64
      → (p : Player H) → Reach fs w node rest p
      → IsValid p × Beyond w p.files
  unfolding kick_off
  Reach-Bounded w node rest a b p (kicked_off fuel _ e) =
      let first = first_player w node rest in
      let v = first-IsValid w node rest a b in
      Ended-ok first p _ (process_replay-Kept fuel first v) e
  Reach-Bounded w node rest a b q (responded fuel p _ r e) =
      let k = Reach-Bounded w node rest a b p r in
      let n = Ended-ok p q _ (response-Ended fuel p k.0) e in
      (n.0, Beyond-trans w p.files q.files k.1 n.1)
