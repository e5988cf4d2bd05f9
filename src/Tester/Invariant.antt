-- ===== src/Tester/Invariant.antt =====
-- What holds between the rounds of `Main::_execute` in src/app/cbe_tester/main.cc: the flags and
-- the state of `Main` tell of which type the test in progress is.
pub mod Errors
pub mod Taking
pub mod Starts
pub mod Outcomes
pub mod Ends
pub mod Stages
pub mod Jobs
pub mod Rounds
use cbe.Prelude.{
  ℕ, Bool, true, false, ◌&&◌, not, ◌≡◌, ◌≢◌, refl, Option, some, none, Result, ok, throw, ◌>>=◌,
  Exception, not_constructed, failed_to_find_created_snapshot, List, [], ◌∷◌, ◌||◌, arith,
}
use cbe.Tester.{
  Test, Session, holds, as_create_snapshot, as_discard_snapshot, as_deinitialize, as_rekey,
  as_extend_vbd, as_extend_ft, as_initialize, as_check, as_dump,
}
use cbe.Tester.Snapshots.{Tree, find_by_id}
use cbe.Tester.Main.{Main, State, Parts, M}

-- The members that the invariant is about.
pub record Control (D : Type 0) : Type 0 where
  pub test : Option (Test D)
  pub created : Tree
  pub state : State
  pub creating_snapshot : Bool
  pub discard_snapshot : Bool
  pub rekey : Bool
  pub deinitialize : Bool
  pub extend_vbd : Bool
  pub extend_ft : Bool

abbrev pub control : {L C K Jc Jd Ji D : Type 0} → Main L C K Jc Jd Ji D → Control D
control m = record {
  test = Session.test_in_progress m.block_session;
  created = Session.created_snapshots m.block_session;
  state = m.state;
  creating_snapshot = m.creating_snapshot;
  discard_snapshot = m.discard_snapshot;
  rekey = m.rekey;
  deinitialize = m.deinitialize;
  extend_vbd = m.extend_vbd;
  extend_ft = m.extend_ft;
}

abbrev pub is_some : {X : Type 0} → Option X → Bool
is_some none = false
is_some (some x) = true

abbrev pub is_ok : {X : Type 0} → Result X → Bool
is_ok (throw e) = false
is_ok (ok x) = true

-- The test in progress is of a type.
abbrev pub runs : {D X : Type 0} → (Test D → Option X) → Option (Test D) → Bool
runs sel t = is_some (holds sel t)

-- The test in progress discards a snapshot that can be found.
abbrev pub found : Tree → Option ℕ → Bool
found created none = false
found created (some id) = is_ok (find_by_id id created)

abbrev pub is_init : State → Bool
is_init State.cbe_init = true
is_init _ = false

abbrev pub is_check : State → Bool
is_check State.cbe_check = true
is_check _ = false

abbrev pub is_dump : State → Bool
is_dump State.cbe_dump = true
is_dump _ = false

abbrev pub is_job : State → Bool
is_job s = is_init s || is_check s || is_dump s

-- A flag that is set tells the type of the test in progress.
pub record Flags {D : Type 0} (c : Control D) : Type 0 where
  pub creates : (c.creating_snapshot && not (runs as_create_snapshot c.test)) ≡ false
  pub discards :
      (c.discard_snapshot && not (found c.created (holds as_discard_snapshot c.test))) ≡ false
  pub rekeys : (c.rekey && not (runs as_rekey c.test)) ≡ false
  pub deinitializes : (c.deinitialize && not (runs as_deinitialize c.test)) ≡ false
  pub extends_vbd : (c.extend_vbd && not (runs as_extend_vbd c.test)) ≡ false
  pub extends_ft : (c.extend_ft && not (runs as_extend_ft c.test)) ≡ false

-- So does the state, where it is that of a library that initialises, checks or dumps.
pub record IsValid {D : Type 0} (c : Control D) : Type 0 where
  pub flags : Flags c
  pub initializes : (is_init c.state && not (runs as_initialize c.test)) ≡ false
  pub checks : (is_check c.state && not (runs as_check c.test)) ≡ false
  pub dumps : (is_dump c.state && not (runs as_dump c.test)) ≡ false

-- What the stages of `_execute_cbe` keep: the flags, in a state that is that of the CBE or of none.
pub record Steady {L C K Jc Jd Ji D : Type 0} (env : Parts L C K Jc Jd Ji D) (m : M env)
    : Type 0 where
  pub flags : Flags (control m)
  pub no_job : is_job m.state ≡ false

-- Code that returns keeps `P` of what it returns, and no test that is not there was looked at,
-- nor a snapshot looked for in vain.
pub data Keeps {M : Type 0} (P : M → Type 0) : Result (Bool × M) → Type 0 where
  returns : (b : Bool) (m : M) → P m → Keeps P (ok (b, m))
  throws :
      (e : Exception)
      → e ≢ not_constructed
      → e ≢ failed_to_find_created_snapshot
      → Keeps P (throw e)

pub Keeps-bind :
    {M : Type 0} (P Q : M → Type 0) (r : Result (Bool × M)) (f : Bool × M → Result (Bool × M))
    → Keeps P r
    → ((b : Bool) (m : M) → P m → Keeps Q (f (b, m)))
    → Keeps Q (r >>= f)
Keeps-bind P Q _ f (returns b m p) k = k b m p
Keeps-bind P Q _ f (throws e h i) k = throws e h i

-- What may be thrown where no test that is not there is looked at, and no snapshot in vain.
abbrev pub Harmless : Exception → Type 0
Harmless e = (e ≢ not_constructed) × (e ≢ failed_to_find_created_snapshot)

abbrev pub Safe : {A : Type 0} → Result A → Type 0
Safe (ok a) = Unit {0}
Safe (throw e) = Harmless e

pub Keeps-map :
    {A M : Type 0} (P : M → Type 0) (r : Result A) (g : A → Bool) (f : A → M)
    → Safe r
    → ((a : A) → P (f a))
    → Keeps P (r >>= λ a. ok (g a, f a))
Keeps-map P (ok a) g f h k = returns (g a) _ (k a)
Keeps-map P (throw e) g f h k = throws e h.0 h.1

pub Keeps-then :
    {A M : Type 0} (P : M → Type 0) (r : Result A) (f : A → M)
    → Safe r
    → ((a : A) → r ≡ ok a → P (f a))
    → Keeps P (r >>= λ a. ok (true, f a))
Keeps-then P (ok a) f h k = returns true _ (k a refl)
Keeps-then P (throw e) f h k = throws e h.0 h.1

-- No flag is set.
pub record Quiet {D : Type 0} (c : Control D) : Type 0 where
  pub creating : c.creating_snapshot ≡ false
  pub discarding : c.discard_snapshot ≡ false
  pub rekeying : c.rekey ≡ false
  pub deinitializing : c.deinitialize ≡ false
  pub extending_vbd : c.extend_vbd ≡ false
  pub extending_ft : c.extend_ft ≡ false

module _ {D : Type 0} (c : Control D) where
  pub Quiet-Flags : Quiet c → Flags c
  Quiet-Flags q = ground arith

  -- Where no test is in progress no flag is set.
  pub Flags-Quiet : Flags c → c.test ≡ none → Quiet c
  unfolding holds
  Flags-Quiet f e = ground arith
