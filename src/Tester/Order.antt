-- ===== src/Tester/Order.antt =====
-- The order in which the tester of src/app/cbe_tester/main.cc takes its tests: what the functions
-- of `Block_session_component` do to the queue.
pub mod Stages
pub mod Background
pub mod Exchange
pub mod Pass
pub mod Rounds
use cbe.Prelude.{
  Leaves, ℕ, Bool, true, false, ◌≡◌, ◌∙◌, refl, Option, some, none, Result, ok, throw, ◌>>=◌, List,
  [], ◌∷◌, ◌++◌, sym, subst, if_elim,
}
use mathlib.Core.List.{append_assoc}
use cbe.Types.{Request}
use cbe.Types.Convert.{BlockRequest}
use cbe.Tester.{
  Test, Session, take_head, start_next, start_unless, start_test, end_test, end_list, look_up,
  submit_ack, finish_create, create_snapshot_done, remove_found, finish_discard,
  discard_snapshot_done, finish_extend, extend_vbd_done, extend_ft_done,
}
use cbe.Tester.Snapshots.{Avl, Snapshot, find_by_id}

-- The test in progress, if there is one, is the last of those that were started.
abbrev pub Last : {D : Type 0} → List (Test D) → Option (Test D) → Type 0
Last l none = Unit {0}
Last {D} l (some t) = (earlier : List (Test D)) × (l ≡ earlier ++ t ∷ [])

-- The tests that the log lists as started and those in the queue are the tests of the
-- configuration, in their order.
pub record Ordered {D : Type 0} (configured : List (Test D)) (s : Session D) : Type 0 where
  pub split : s.started ++ s.test_queue ≡ configured
  pub last : Last s.started s.test_in_progress

module _ {D : Type 0} (configured : List (Test D)) where
  still_split :
      (s t : Session D)
      → t.started ≡ s.started
      → t.test_queue ≡ s.test_queue
      → Ordered configured s
      → t.started ++ t.test_queue ≡ configured
  still_split s t l p o =
      subst (λ n. n ++ t.test_queue ≡ configured) (sym l)
        (subst (λ n. s.started ++ n ≡ configured) (sym p) o.split)

  -- Nothing but the tests that were started, the queue and the test in progress is looked at.
  pub same :
      (s t : Session D)
      → t.started ≡ s.started
      → t.test_queue ≡ s.test_queue
      → t.test_in_progress ≡ s.test_in_progress
      → Ordered configured s
      → Ordered configured t
  same s t l p q o = record {
    split = still_split s t l p o;
    last = subst (λ n. Last n t.test_in_progress) (sym l) (subst (Last s.started) (sym q) o.last);
  }

  -- The end of a test leaves the queue.
  pub over :
      (s t : Session D)
      → t.started ≡ s.started
      → t.test_queue ≡ s.test_queue
      → t.test_in_progress ≡ none
      → Ordered configured s
      → Ordered configured t
  over s t l p q o = record {
    split = still_split s t l p o;
    last = subst (Last t.started) (sym q) tt;
  }

  module _ {X : Type 0} (sel : Test D → Option X) (s : Session D) (o : Ordered configured s) where
    take_head-Ordered :
        (t : Test D) (q : List (Test D)) (x : Option X)
        → s.test_queue ≡ t ∷ q
        → Ordered configured (take_head s t q x).0
    unfolding take_head
    take_head-Ordered t q none e = o
    take_head-Ordered t q (some x) e = record {
      split =
          append_assoc s.started (t ∷ []) q ∙ subst (λ l. s.started ++ l ≡ configured) e o.split;
      last = (s.started, refl);
    }

    start_next-Ordered :
        (q : List (Test D)) → s.test_queue ≡ q → Ordered configured (start_next sel s q).0
    unfolding start_next
    start_next-Ordered [] e = same s _ refl refl refl o
    start_next-Ordered (t ∷ q) e = take_head-Ordered t q (sel t) e

    start_unless-Ordered : (t : Option (Test D)) → Ordered configured (start_unless sel s t).0
    unfolding start_unless
    start_unless-Ordered (some t) = o
    start_unless-Ordered none = start_next-Ordered s.test_queue refl

    pub start_test-Ordered : Ordered configured (start_test sel s).0
    unfolding start_test
    start_test-Ordered = start_unless-Ordered s.test_in_progress

  pub list-Ordered :
      (r : Session D × Option (Unit {0})) → Ordered configured r.0 → Ordered configured (end_list r)
  unfolding end_list
  list-Ordered (s, none) o = o
  list-Ordered (s, some x) o = over s _ refl refl refl o

  look_up-Ordered :
      (s : Session D) (r : Result Snapshot)
      → Ordered configured s
      → Ordered configured (look_up s r).0
  unfolding look_up end_test
  look_up-Ordered s (ok snap) o = o
  look_up-Ordered s (throw e) o = over s _ refl refl refl o

  pub discard-Ordered :
      (r : Session D × Option ℕ)
      → Ordered configured r.0
      → Ordered configured (cbe.Tester.start_discard r).0
  unfolding cbe.Tester.start_discard
  discard-Ordered (s, none) o = o
  discard-Ordered (s, some id) o = look_up-Ordered s (find_by_id id s.created_snapshots) o

  module _ (s : Session D) (o : Ordered configured s) where
    pub end_test-Ordered : (success : Bool) → Ordered configured (end_test success s)
    unfolding end_test
    end_test-Ordered success = over s _ refl refl refl o

    pub submit_ack-Ordered : (r : BlockRequest) → Ordered configured (submit_ack r s)
    unfolding submit_ack end_test
    submit_ack-Ordered r = over s _ refl refl refl o

    pub finish_create-Ordered :
        (avl : Avl) (r : Request) (x : Option ℕ)
        → Leaves (Ordered configured) (finish_create avl r s x)
    unfolding finish_create end_test
    finish_create-Ordered avl r none = tt
    finish_create-Ordered avl r (some id) =
        if_elim (Leaves (Ordered configured)) r.success _ _ (λ _. over s _ refl refl refl o)
          (λ _. over s _ refl refl refl o)

    remove_found-Ordered :
        (avl : Avl) (r : Result Snapshot) → Leaves (Ordered configured) (remove_found avl s r)
    unfolding remove_found end_test
    remove_found-Ordered avl (ok snap) = over s _ refl refl refl o
    remove_found-Ordered avl (throw e) = tt

    pub finish_discard-Ordered :
        (avl : Avl) (r : Request) (x : Option ℕ)
        → Leaves (Ordered configured) (finish_discard avl r s x)
    unfolding finish_discard end_test
    finish_discard-Ordered avl r none = tt
    finish_discard-Ordered avl r (some id) =
        if_elim (Leaves (Ordered configured)) r.success _ _
          (λ _. remove_found-Ordered avl (find_by_id id s.created_snapshots))
          (λ _. over s _ refl refl refl o)

    pub finish_extend-Ordered :
        (success : Bool) (x : Option ℕ) → Leaves (Ordered configured) (finish_extend success s x)
    unfolding finish_extend end_test
    finish_extend-Ordered success none = tt
    finish_extend-Ordered success (some n) = over s _ refl refl refl o
