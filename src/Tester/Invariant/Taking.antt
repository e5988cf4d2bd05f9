-- ===== src/Tester/Invariant/Taking.antt =====
-- What taking a test off the queue comes to, in src/app/cbe_tester/main.cc.
use cbe.Prelude.{ℕ, true, ◌≡◌, refl, Option, some, none, Result, ok, throw, List, [], ◌∷◌}
use cbe.Tester.{
  Test, Session, start_test, start_unless, start_next, take_head, holds, look_up, with_requests,
  with_create_snapshot, with_discard_snapshot, with_deinitialize, with_list_snapshots, with_rekey,
  with_extend_vbd, with_extend_ft, as_create_snapshot, as_discard_snapshot, as_deinitialize,
  as_rekey, as_extend_vbd, as_extend_ft, as_request, as_list_snapshots, end_list, end_test,
}
use cbe.Tester.Snapshots.{find_by_id, Snapshot}
use cbe.Tester.Invariant.{found}

-- What taking a test comes to: nothing changed, or no test was in progress, and either none is now,
-- or one that is as asked for.
pub data Started {D X : Type 0} (P : Session D → X → Type 0) (s : Session D)
    : Session D × Option X → Type 0 where
  kept : Started P s (s, none)
  idle :
      (t : Session D)
      → Session.test_in_progress s ≡ none
      → Session.test_in_progress t ≡ none
      → Session.created_snapshots t ≡ Session.created_snapshots s
      → Started P s (t, none)
  taken :
      (t : Session D) (x : X)
      → Session.test_in_progress s ≡ none
      → Session.created_snapshots t ≡ Session.created_snapshots s
      → P t x
      → Started P s (t, some x)

-- The test in progress is the one that was asked for.
abbrev pub Holds : {D X : Type 0} → (Test D → Option X) → Session D → X → Type 0
Holds sel t x = holds sel (Session.test_in_progress t) ≡ some x

module _ {D X : Type 0} (sel : Test D → Option X) (s : Session D) where
  take_head-Started :
      (t : Test D) (q : List (Test D)) (o : Option X)
      → Session.test_in_progress s ≡ none
      → sel t ≡ o
      → Started (Holds sel) s (take_head s t q o)
  unfolding take_head holds
  take_head-Started t q none e f = kept
  take_head-Started t q (some x) e f = taken _ x e refl f

  start_next-Started :
      (q : List (Test D))
      → Session.test_in_progress s ≡ none
      → Started (Holds sel) s (start_next sel s q)
  unfolding start_next
  start_next-Started [] e = idle _ e e refl
  start_next-Started (t ∷ q) e = take_head-Started t q (sel t) e refl

  start_unless-Started :
      (o : Option (Test D))
      → Session.test_in_progress s ≡ o
      → Started (Holds sel) s (start_unless sel s o)
  unfolding start_unless
  start_unless-Started (some t) e = kept
  start_unless-Started none e = start_next-Started (Session.test_queue s) e

  pub start_test-Started : Started (Holds sel) s (start_test sel s)
  unfolding start_test
  start_test-Started = start_unless-Started (Session.test_in_progress s) refl

-- The snapshot to discard can be found.
abbrev pub Finds : {D : Type 0} → Session D → ℕ → Type 0
Finds t gen =
    found (Session.created_snapshots t) (holds as_discard_snapshot (Session.test_in_progress t))
    ≡ true

module _ {D : Type 0} (s : Session D) where
  look_up-Started :
      (t : Session D) (id : ℕ) (r : Result Snapshot)
      → Session.test_in_progress s ≡ none
      → Session.created_snapshots t ≡ Session.created_snapshots s
      → Holds as_discard_snapshot t id
      → find_by_id id (Session.created_snapshots t) ≡ r
      → Started Finds s (look_up t r)
  unfolding look_up end_test
  look_up-Started t id (ok snap) e c h f = taken t _ e c (rw h (rw f refl))
  look_up-Started t id (throw x) e c h f = idle _ e refl c

  pub discard-Started :
      (r : Session D × Option ℕ)
      → Started (Holds as_discard_snapshot) s r
      → Started Finds s (cbe.Tester.start_discard r)
  unfolding cbe.Tester.start_discard
  discard-Started _ kept = kept
  discard-Started _ (idle t e f c) = idle t e f c
  discard-Started _ (taken t id e c h) = look_up-Started t id _ e c h refl

  pub list-Started :
      (r : Session D × Option (Unit {0}))
      → Started (Holds as_list_snapshots) s r
      → Started {X = Unit {0}} (λ _ _. ⊥) s (end_list r, none)
  unfolding end_list
  list-Started _ kept = kept
  list-Started _ (idle t e f c) = idle t e f c
  list-Started _ (taken t x e c h) = idle _ e refl c
