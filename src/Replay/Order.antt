-- ===== src/Replay/Order.antt =====
-- When src/app/vfs_replay/component.cc exits, and with which code.
use cbe.Prelude.{
  ℕ, ◌+◌, ◌^◌, ◌<◌, ◌≤◌, ◌≡◌, Bool, true, arith, Result, false, refl, if_elim, ok, subst, throw,
  zero, suc, ◌>>=◌, List, [], ◌∷◌, not, get_elem?, Option, none, some, length, ap, sym,
}
use cbe.Types.{u32}
use cbe.Interfaces.{BlockFile}
use cbe.Interfaces.Session.{exit_one, exit_success}
use cbe.Replay.{Request, Files, Turn}
use cbe.Replay.Loop.{
  Player, Node, begin_request, dispatch, handle_request, judge, advance, process_replay, conclude,
  Verdict, leave, again, kick_off, first_player, io_progress_response_handler, Reach, kicked_off,
  responded,
}

-- Where a replay of `nodes` stands: at one of them, with no exit; or at the end of all of them,
-- after one exit for success; or at one that failed, after one exit for that.
pub data Status {H : Type 0} (nodes : List Node) (p : Player H) : Type 0 where
  playing :
      p.nodes ≡ nodes
      → p.finished ≡ false
      → p.exits ≡ []
      → get_elem? nodes p.curr_request_id ≡ some p.request_node
      → Status nodes p
  done :
      p.finished ≡ true
      → p.exits ≡ exit_success ∷ []
      → p.curr_request_id ≡ length nodes
      → Request.success p.current_request ≡ true
      → Status nodes p
  broken :
      p.finished ≡ true
      → p.exits ≡ exit_one ∷ []
      → get_elem? nodes p.curr_request_id ≡ some p.request_node
      → Request.success p.current_request ≡ false
      → Status nodes p

pub elem-lt : (l : List Node) (i : ℕ) (n : Node) → get_elem? l i ≡ some n → i < length l
elem-lt [] i n e = cc
elem-lt (x ∷ l) zero n e = omega arith
elem-lt (x ∷ l) (suc i) n e = omega (arith, elem-lt l i n e)

elem-le : (l : List Node) (i : ℕ) → get_elem? l i ≡ none → length l ≤ i
elem-le [] i e = omega arith
elem-le (x ∷ l) zero e = cc
elem-le (x ∷ l) (suc i) e = omega (arith, elem-le l i e)

module _ {H : Type 0} (fs : BlockFile H) (nodes : List Node) (few : length nodes < 2 ^ 32) where
  -- A run of the loop is at one of the nodes, before any exit.
  abbrev pub Playing : Player H → Type 0
  Playing p =
      (p.nodes ≡ nodes)
      × (p.finished ≡ false)
      × (p.exits ≡ [])
      × (get_elem? nodes p.curr_request_id ≡ some p.request_node)

  abbrev pub Judged : Verdict H → Type 0
  Judged (leave failed q) = Status nodes (conclude fs failed q)
  Judged (again q) = Playing q

  abbrev Ended : Result (Player H) → Type 0
  Ended (ok q) = Status nodes q
  Ended (throw e) = Unit {0}

  advance-Judged :
      (q : Player H) (i : ℕ) (o : Option Node)
      → Playing q
      → Request.success q.current_request ≡ true
      → i ≡ u32 (q.curr_request_id + 1)
      → get_elem? nodes i ≡ o
      → Judged (advance fs o (record q { curr_request_id = i }))
  unfolding advance conclude
  advance-Judged q i none p s e f =
      done refl (ap (λ l. exit_success ∷ l) p.2)
        (omega (arith, elem-le nodes i f, elem-lt nodes q.curr_request_id q.request_node p.3, e)) s
  advance-Judged q i (some node) p s e f = (p.0, p.1, p.2, f)

  stop : (q : Player H) → Playing q → Status nodes (conclude fs false q)
  unfolding conclude
  stop q p =
      if_elim (Status nodes) q.finished (record q { exits = exit_success ∷ q.exits }) q
        (λ e. absurd (ground (arith, p.1))) (λ _. playing p.0 p.1 p.2 p.3)

  pub judge-Judged : (progress : Bool) (q : Player H) → Playing q → Judged (judge fs progress q)
  unfolding judge conclude
  judge-Judged progress q p =
      let id = u32 (q.curr_request_id + 1) in
      if_elim Judged (not progress) _ _ (λ _. stop q p)
        λ _.
          if_elim Judged (not (Request.complete q.current_request)) _ _ (λ _. p)
            λ _.
              if_elim Judged (not (Request.success q.current_request)) _ _
                (λ f. broken refl (ap (λ l. exit_one ∷ l) p.2) p.3 (ground arith))
                λ s.
                  advance-Judged q id (get_elem? q.nodes id) p (ground arith) refl
                    (ap (λ l. get_elem? l id) (sym p.0))

  verdict-Ended :
      (f : Player H → Result (Player H)) (j : Verdict H)
      → ((q : Player H) → Playing q → Ended (f q))
      → Judged j
      → Ended (elim j [ leave failed q ↦ ok (conclude fs failed q) | again q ↦ f q ])
  verdict-Ended f (leave failed q) h k = k
  verdict-Ended f (again q) h k = h q k

  -- A turn leaves all but the request and the files.
  abbrev Handled : Result (Bool × Player H) → Type 0
  Handled (ok r) = Playing r.1
  Handled (throw e) = Unit {0}

  turned :
      (p : Player H) (m : Result (Turn H))
      → Playing p
      → Handled (
          m >>= λ t.
          ok (Turn.progress t, record p { current_request = Turn.request t; files = Turn.files t }))
  turned p (throw e) k = tt
  turned p (ok t) k = k

  round-Ended :
      (f : Player H → Result (Player H)) (m : Result (Bool × Player H))
      → ((q : Player H) → Playing q → Ended (f q))
      → Handled m
      → Ended (
          m >>= λ r. elim (judge fs r.0 r.1) [
            | leave failed q ↦ ok (conclude fs failed q)
            | again q ↦ f q
          ])
  round-Ended f (throw e) h k = tt
  round-Ended f (ok r) h k = verdict-Ended f (judge fs r.0 r.1) h (judge-Judged r.0 r.1 k)

  handle_request-Handled : (p : Player H) → Playing p → Handled (handle_request fs p)
  unfolding handle_request
  handle_request-Handled p k =
      let r = begin_request p.request_node p.current_request in
      turned p (dispatch fs r.type r p.files) k

  process_replay-Ended : (fuel : ℕ) (p : Player H) → Playing p → Ended (process_replay fs fuel p)
  unfolding process_replay
  process_replay-Ended zero p k = tt
  process_replay-Ended (suc fuel) p k =
      round-Ended (process_replay fs fuel) (handle_request fs p)
        (λ q w. process_replay-Ended fuel q w) (handle_request-Handled p k)

  response-Ended :
      (fuel : ℕ) (p : Player H) → Status nodes p → Ended (io_progress_response_handler fs fuel p)
  unfolding io_progress_response_handler
  response-Ended fuel p (playing n f x e) =
      if_elim Ended p.finished _ _ (λ _. playing n f x e)
        (λ _. process_replay-Ended fuel p (n, f, x, e))
  response-Ended fuel p (done f x i s) =
      if_elim Ended p.finished _ _ (λ _. done f x i s) (λ h. absurd (ground arith))
  response-Ended fuel p (broken f x e s) =
      if_elim Ended p.finished _ _ (λ _. broken f x e s) (λ h. absurd (ground arith))

  Ended-ok : (q : Player H) (m : Result (Player H)) → Ended m → m ≡ ok q → Status nodes q
  Ended-ok q m h e = subst Ended e h

-- A replay of fewer than 2^32 nodes, after any number of calls that return: either it is at one of
-- the nodes and has not exited; or it has exited once, for success, when it was through all of the
-- nodes and the last request was successful; or it has exited once, for failure, at a node whose
-- request was not successful.
pub Reach-Status :
    {H : Type 0} (fs : BlockFile H) (w : Files H) (node : Node) (rest : List Node) (p : Player H)
    → length (node ∷ rest) < 2 ^ 32
    → Reach fs w node rest p
    → Status (node ∷ rest) p
unfolding kick_off first_player
Reach-Status fs w node rest p few (kicked_off fuel _ e) =
    Ended-ok fs (node ∷ rest) few p _
      (process_replay-Ended fs (node ∷ rest) few fuel _ (refl, refl, refl, refl)) e
Reach-Status fs w node rest q few (responded fuel p _ r e) =
    Ended-ok fs (node ∷ rest) few q _
      (response-Ended fs (node ∷ rest) few fuel p (Reach-Status fs w node rest p few r)) e
