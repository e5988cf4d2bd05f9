-- ===== src/Replay/Termination.antt =====
-- That the loop of src/app/vfs_replay/component.cc ends.
use cbe.Prelude.{
  ℕ, zero, suc, ◌+◌, ◌*◌, ◌^◌, ◌<◌, ◌≤◌, ◌≡◌, ◌⊎◌, inl, inr, refl, Bool, true, not, arith, if_elim,
  if◌then◌else◌, Result, ok, throw, ◌>>=◌, buffer_too_small, List, [], ◌∷◌, length, get_elem?,
  Option, none, some, ap,
}
use cbe.Types.{u32}
use cbe.Interfaces.{BlockFile}
use cbe.Interfaces.Contracts.{Moves}
use cbe.Replay.{
  RequestState, none_state, read_pending, write_pending, sync_pending, Request, RequestType, Files,
  Turn, string_to_type,
}
use cbe.Replay.Loop.{
  Player, Node, idle, next_request, begin_request, dispatch, handle_request, judge, advance,
  process_replay, conclude, Verdict, leave, again, kick_off, first_player,
  io_progress_response_handler, Reach,
}
use cbe.Replay.Steps.{weight, stages, Works, stops, completes, goes, Turns, dispatch-Turns}
use cbe.Replay.Order.{
  elem-lt, Playing, Judged, judge-Judged, Status, playing, done, broken, Reach-Status,
}

-- The rounds that the nodes from one on may take: three for each byte, and three for the node.
abbrev pub load : Node → ℕ
load n = 3 * n.count + 3

abbrev pub loads : ℕ → List Node → ℕ
loads i [] = 0
loads zero (n ∷ l) = load n + loads zero l
loads (suc i) (n ∷ l) = loads i l

loads-elem :
    (l : List Node) (i : ℕ) (n : Node)
    → get_elem? l i ≡ some n
    → loads i l ≡ load n + loads (suc i) l
loads-elem [] i n e = cc
loads-elem (x ∷ l) zero n e = ap (λ o. elim o [ some y ↦ load y + loads zero l | none ↦ 0 ]) e
loads-elem (x ∷ l) (suc i) n e = loads-elem l i n e

-- What the current request may take, which has not begun where it is idle.
abbrev pub current : Node → Request → ℕ
current n r = if idle r.state then load n else weight r

abbrev pub rounds : {H : Type 0} → Player H → ℕ
rounds p = current p.request_node p.current_request + loads (suc p.curr_request_id) p.nodes

stages_positive : (s : RequestState) → 1 ≤ stages s
stages_positive none_state = omega arith
stages_positive read_pending = omega arith
stages_positive write_pending = omega arith
stages_positive sync_pending = omega arith
stages_positive _ = omega arith

current_positive : (n : Node) (r : Request) → 1 ≤ current n r
current_positive n r = let s = stages_positive r.state in ground arith

-- The result, or an exception for a buffer that is too small.
abbrev pub Returns : {H : Type 0} → Result (Player H) → Type 0
Returns (ok p) = Unit {0}
Returns (throw e) = e ≡ buffer_too_small

next_request-weight :
    (y : RequestType) (n : Node) (r : Request)
    → idle r.state ≡ true
    → ((Request.type (next_request y n r) ≡ RequestType.invalid)
        × (idle (Request.state (next_request y n r)) ≡ true))
      ⊎ (weight (next_request y n r) ≤ load n)
unfolding next_request
next_request-weight RequestType.invalid n r i = inl (refl, i)
next_request-weight RequestType.read n r i = inr (omega arith)
next_request-weight RequestType.write n r i = inr (omega arith)
next_request-weight RequestType.sync n r i = inr (omega arith)

begin_request-weight :
    (n : Node) (r : Request)
    → ((Request.type (begin_request n r) ≡ RequestType.invalid)
        × (idle (Request.state (begin_request n r)) ≡ true))
      ⊎ (weight (begin_request n r) ≤ current n r)
unfolding begin_request
begin_request-weight n r =
    if_elim
      (λ q.
        ((Request.type q ≡ RequestType.invalid) × (idle (Request.state q) ≡ true))
        ⊎ (weight q ≤ current n r))
      (idle r.state) _ _
      (λ i. elim (next_request-weight (string_to_type n.type) n r i) [
        | inl h ↦ inl h
        | inr h ↦ inr (ground arith)
      ])
      (λ i. inr (ground arith))

module _ {H : Type 0} (fs : BlockFile H) (bounded : Moves 1 fs) (nodes : List Node)
    (few : length nodes < 2 ^ 32) where
  -- A round is followed by another only with fewer to come.
  abbrev Nearer : ℕ → Verdict H → Type 0
  Nearer n (leave failed q) = Unit {0}
  Nearer n (again q) = rounds q < n

  advance-Nearer :
      (q : Player H) (i n : ℕ) (o : Option Node)
      → loads i q.nodes < n
      → get_elem? q.nodes i ≡ o
      → (idle (Request.state q.current_request) ≡ true)
        ⊎ (weight q.current_request + loads i q.nodes ≤ n)
      → Nearer n (advance fs o (record q { curr_request_id = i }))
  unfolding advance
  advance-Nearer q i n none h e k = tt
  advance-Nearer q i n (some node) h e (inl z) = let l = loads-elem q.nodes i node e in ground arith
  advance-Nearer q i n (some node) h e (inr z) = let l = loads-elem q.nodes i node e in ground arith

  judge-Nearer :
      (p : Player H) (t : Turn H)
      → Works (current p.request_node p.current_request) t
      → Playing fs nodes few p
      → let q = record p { current_request = Turn.request t; files = Turn.files t } in
        Nearer (rounds p) (judge fs (Turn.progress t) q)
  unfolding judge
  judge-Nearer p t w k =
      let positive = current_positive p.request_node p.current_request in
      let at = elem-lt nodes p.curr_request_id p.request_node k.3 in
      let next : u32 (p.curr_request_id + 1) ≡ suc p.curr_request_id = omega (arith, at, few) in
      if_elim (Nearer (rounds p)) (not (Turn.progress t)) _ _ (λ _. tt)
        λ e.
          if_elim (Nearer (rounds p)) (not (Request.complete (Turn.request t))) _ _
            (λ c. elim w [
              | stops s ↦ absurd (ground arith)
              | completes d i ↦ absurd (ground arith)
              | goes i l ↦ ground arith
            ])
            λ _.
              if_elim (Nearer (rounds p)) (not (Request.success (Turn.request t))) _ _ (λ _. tt)
                λ _.
                  advance-Nearer
                    (record p { current_request = Turn.request t; files = Turn.files t })
                    (u32 (p.curr_request_id + 1)) (rounds p) _ (rw next (ground arith)) refl
                    (elim w [
                      | stops s ↦ absurd (ground arith)
                      | completes d (inl i) ↦ inl i
                      | completes d (inr l) ↦ inr (rw next (ground arith))
                      | goes i l ↦ inr (rw next (ground arith))
                    ])

  verdict-Returns :
      (f : Player H → Result (Player H)) (n : ℕ) (j : Verdict H)
      → ((q : Player H) → Playing fs nodes few q → rounds q < n → Returns (f q))
      → Nearer n j
      → Judged fs nodes few j
      → Returns (elim j [ leave failed q ↦ ok (conclude fs failed q) | again q ↦ f q ])
  verdict-Returns f n (leave failed q) h k j = tt
  verdict-Returns f n (again q) h k j = h q j k

  -- what `handle_request` makes of a turn
  abbrev handled : Player H → Turn H → Result (Bool × Player H)
  handled p t =
      ok (Turn.progress t, record p { current_request = Turn.request t; files = Turn.files t })

  turn-Returns :
      (f : Player H → Result (Player H)) (p : Player H) (m : Result (Turn H))
      → Turns fs bounded (current p.request_node p.current_request) m
      → Playing fs nodes few p
      → ((q : Player H) → Playing fs nodes few q → rounds q < rounds p → Returns (f q))
      → Returns (
          (m >>= handled p) >>= λ (r : Bool × Player H). elim (judge fs r.0 r.1) [
            | leave failed q ↦ ok (conclude fs failed q)
            | again q ↦ f q
          ])
  turn-Returns f p (throw e) t k h = t
  turn-Returns f p (ok t) w k h =
      let q = record p { current_request = Turn.request t; files = Turn.files t } in
      verdict-Returns f (rounds p) (judge fs (Turn.progress t) q) h (judge-Nearer p t w k)
        (judge-Judged fs nodes few (Turn.progress t) q k)

  pub process_replay-Returns :
      (fuel : ℕ) (p : Player H)
      → Playing fs nodes few p
      → rounds p < fuel
      → Returns (process_replay fs fuel p)
  unfolding process_replay handle_request
  process_replay-Returns zero p k h = absurd (omega (arith, h))
  process_replay-Returns (suc fuel) p k h =
      let r = begin_request p.request_node p.current_request in
      turn-Returns (process_replay fs fuel) p (dispatch fs r.type r p.files)
        (dispatch-Turns fs bounded (current p.request_node p.current_request) r.type r p.files
          (begin_request-weight p.request_node p.current_request))
        k (λ q w l. process_replay-Returns fuel q w (omega (arith, l, h)))

  response-Returns :
      (fuel : ℕ) (p : Player H)
      → Status nodes p
      → rounds p < fuel
      → Returns (io_progress_response_handler fs fuel p)
  unfolding io_progress_response_handler
  response-Returns fuel p (playing n f x e) h =
      if_elim Returns p.finished _ _ (λ _. tt) (λ _. process_replay-Returns fuel p (n, f, x, e) h)
  response-Returns fuel p (done f x i s) h =
      if_elim Returns p.finished _ _ (λ _. tt) (λ g. absurd (ground arith))
  response-Returns fuel p (broken f x e s) h =
      if_elim Returns p.finished _ _ (λ _. tt) (λ g. absurd (ground arith))

-- On a file that reports no more bytes than it was asked for, and at least one where it reports
-- success and any are left: a replay of fewer than 2^32 nodes ends, in `kick_off` within three
-- rounds for each byte that the nodes ask for and three for each node, and in each later call
-- within three for each byte and node that is left. It then returns, or throws for a buffer that
-- is too small.
pub replay-Returns :
    {H : Type 0} (fs : BlockFile H) (bounded : Moves 1 fs) (w : Files H) (node : Node)
    (rest : List Node)
    → length (node ∷ rest) < 2 ^ 32
    → (fuel : ℕ) → loads 0 (node ∷ rest) < fuel
    → (p : Player H) → Reach fs w node rest p
    → (more : ℕ) → rounds p < more
    → Returns (kick_off fs fuel w node rest) × Returns (io_progress_response_handler fs more p)
unfolding kick_off first_player
replay-Returns fs bounded w node rest few fuel a p r more b = (
  process_replay-Returns fs bounded (node ∷ rest) few fuel (first_player w node rest)
      (refl, refl, refl, refl) a,
  response-Returns fs bounded (node ∷ rest) few more p (Reach-Status fs w node rest p few r) b,
)
