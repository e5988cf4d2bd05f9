-- ===== src/Tester/Invariant/Outcomes.antt =====
-- Which exceptions the end of a test in src/app/cbe_tester/main.cc may throw.
use cbe.Types.{Request, Operation}
use cbe.Types.Convert.{convert_from, block_op}
use cbe.Tester.Snapshots.{Avl, Snapshot}
use cbe.Prelude.{ℕ, ◌≡◌, some, arith, Option, Result, Bool, ok, true, throw, ◌>>=◌, if_elim, none}
use cbe.Tester.{
  holds, as_create_snapshot, as_discard_snapshot, Session, create_snapshot_done,
  discard_snapshot_done, finish_create, finish_discard, remove_found, finish_extend,
}
use cbe.Tester.Invariant.{runs, found, is_some, is_ok, Safe}

block_op-Safe : (o : Operation) → Safe (block_op o)
unfolding block_op
block_op-Safe Operation.invalid = tt
block_op-Safe Operation.read = tt
block_op-Safe Operation.write = tt
block_op-Safe Operation.sync = tt
block_op-Safe _ = (λ h. cc, λ h. cc)

convertible : {A B : Type 0} (r : Result A) (f : A → B) → Safe r → Safe (r >>= λ a. ok (f a))
convertible (ok a) f h = tt
convertible (throw e) f h = h

pub convert_from-Safe : (r : Request) → Safe (convert_from r)
unfolding convert_from
convert_from-Safe r = convertible (block_op r.operation) _ (block_op-Safe r.operation)

module _ {D : Type 0} (avl : Avl) (r : Request) (s : Session D) where
  finish_create-Safe : (o : Option ℕ) → is_some o ≡ true → Safe (finish_create avl r s o)
  unfolding finish_create
  finish_create-Safe none e = cc
  finish_create-Safe (some id) e = if_elim Safe r.success _ _ (λ _. tt) (λ _. tt)

  pub create_snapshot_done-Safe :
      runs as_create_snapshot s.test_in_progress ≡ true → Safe (create_snapshot_done avl r s)
  unfolding create_snapshot_done
  create_snapshot_done-Safe e = finish_create-Safe _ e

  remove_found-Safe : (o : Result Snapshot) → is_ok o ≡ true → Safe (remove_found avl s o)
  unfolding remove_found
  remove_found-Safe (ok snap) e = tt
  remove_found-Safe (throw x) e = cc

  finish_discard-Safe :
      (o : Option ℕ) → found s.created_snapshots o ≡ true → Safe (finish_discard avl r s o)
  unfolding finish_discard
  finish_discard-Safe none e = cc
  finish_discard-Safe (some id) e =
      if_elim Safe r.success _ _ (λ _. remove_found-Safe _ e) (λ _. tt)

  pub discard_snapshot_done-Safe :
      found s.created_snapshots (holds as_discard_snapshot s.test_in_progress) ≡ true
      → Safe (discard_snapshot_done avl r s)
  unfolding discard_snapshot_done
  discard_snapshot_done-Safe e = finish_discard-Safe _ e

module _ {D : Type 0} (success : Bool) (s : Session D) where
  pub finish_extend-Safe : (o : Option ℕ) → is_some o ≡ true → Safe (finish_extend success s o)
  unfolding finish_extend
  finish_extend-Safe none e = cc
  finish_extend-Safe (some n) e = tt

pub found-runs :
    {D : Type 0} (s : Session D)
    → found s.created_snapshots (holds as_discard_snapshot s.test_in_progress) ≡ true
    → runs as_discard_snapshot s.test_in_progress ≡ true
found-runs s h = ground arith
