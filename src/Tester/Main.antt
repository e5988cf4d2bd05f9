-- ===== src/Tester/Main.antt =====
-- src/app/cbe_tester/main.cc, class `Main`: its state, and the part that runs the libraries which
-- initialise, check and dump a device.
--
-- The libraries, the crypto component, the block session and Genode's tree are `Parts`, over states
-- of any type. The block session of the tester's own tests is constructed with `Main` and never
-- destructed. `Constructible<Cbe::Library>` is a state with a flag; the state is read only where
-- the flag is set.
use cbe.Prelude.{
  ℕ, Bool, true, false, ◌&&◌, ◌||◌, not, if◌then◌else◌, Bytes, Result, ok, ◌>>=◌, Option, some,
  none,
}
use cbe.Types.{Request, valid}
use cbe.Interfaces.{Library, Crypto}
use cbe.Interfaces.Session.{BlockSession, JobLibrary, InitArguments}
use cbe.BlockIo.{Backend, exchange}
use cbe.Tester.{Session, check_done, dump_done, initialize_done}
use cbe.Tester.Snapshots.{Avl}

-- `CBE` is `cbe_run` here.
pub data State : Type 0 where
  invalid cbe_run cbe_init cbe_check cbe_dump : State

pub record Parts (L C K Jc Jd Ji D : Type 0) : Type 0 where
  pub library : Library L
  pub crypto : Crypto C
  pub blk : BlockSession K
  pub check : JobLibrary Jc (Unit {0})
  pub dump : JobLibrary Jd D
  pub init : JobLibrary Ji InitArguments
  pub avl : Avl

pub record Main (L C K Jc Jd Ji D : Type 0) : Type 0 where
  pub block_session : Session D
  pub blk : K
  pub cbe : L
  pub cbe_constructed : Bool
  pub cbe_check : Jc
  pub cbe_dump : Jd
  pub cbe_init : Ji
  pub blk_req : Request
  pub blk_buf : Bytes
  pub crypto_plain_buf : Bytes
  pub crypto_cipher_buf : Bytes
  pub crypto : C
  pub state : State
  pub creating_snapshot : Bool
  pub discard_snapshot : Bool
  pub rekey : Bool
  pub deinitialize : Bool
  pub extend_vbd : Bool
  pub extend_vbd_obj : ℕ
  pub extend_ft : Bool
  pub extend_ft_obj : ℕ

module _ {L C K Jc Jd Ji D : Type 0} (env : Parts L C K Jc Jd Ji D) where
  abbrev pub M : Type 0
  M = Main L C K Jc Jd Ji D

  -- What the loops for block I/O leave in the members that they share.
  unfoldable pub put_backend : {S : Type 0} → Backend S K → M → M
  put_backend b m = record m { blk = b.session; blk_req = b.blk_req; blk_buf = b.blk_buf }

  -- A library's turn with its block requests. The tester has no `_blk_ratio`, which is the ratio 1.
  unfoldable pub run_job :
      {J A : Type 0} → JobLibrary J A → Bool → Bool → J → M → Result (Bool × Backend J K)
  unfolding exchange
  run_job lib syncs progress j m =
      let (k, buf) = JobLibrary.execute lib m.blk_buf j in
      exchange (JobLibrary.io lib) env.blk syncs 1 (progress || JobLibrary.execute_progress lib k)
        (record { source = k; session = m.blk; blk_req = m.blk_req; blk_buf = buf })

  -- The outcome of the request of the tester, if it is complete and no block request is in flight.
  unfoldable pub completed_job : {J A : Type 0} → JobLibrary J A → Backend J K → Option Request
  completed_job lib b =
      let r = JobLibrary.peek_completed_client_request lib b.source in
      if not (valid b.blk_req) && valid r then some r else none

  unfoldable pub conclude_check : Option Request → Jc → M → M
  unfolding check_done
  conclude_check none j m = record m { cbe_check = j }
  conclude_check (some r) j m = record m {
    cbe_check = JobLibrary.drop_completed_client_request env.check r j;
    block_session = check_done r.success m.block_session;
    state = State.invalid;
  }

  unfoldable pub execute_cbe_check : Bool → M → Result (Bool × M)
  unfolding run_job completed_job put_backend conclude_check
  execute_cbe_check progress m = run_job env.check false progress m.cbe_check m >>= λ e.
      ok
        (e.0, conclude_check (completed_job env.check e.1) (Backend.source e.1) (put_backend e.1 m))

  unfoldable pub conclude_dump : Option Request → Jd → M → M
  unfolding dump_done
  conclude_dump none j m = record m { cbe_dump = j }
  conclude_dump (some r) j m = record m {
    cbe_dump = JobLibrary.drop_completed_client_request env.dump r j;
    block_session = dump_done r.success m.block_session;
    state = State.invalid;
  }

  unfoldable pub execute_cbe_dump : Bool → M → Result (Bool × M)
  unfolding run_job completed_job put_backend conclude_dump
  execute_cbe_dump progress m = run_job env.dump false progress m.cbe_dump m >>= λ e.
      ok (e.0, conclude_dump (completed_job env.dump e.1) (Backend.source e.1) (put_backend e.1 m))

  unfoldable pub conclude_init : Option Request → Ji → M → M
  unfolding initialize_done
  conclude_init none j m = record m { cbe_init = j }
  conclude_init (some r) j m = record m {
    cbe_init = JobLibrary.drop_completed_client_request env.init r j;
    block_session = initialize_done r.success m.block_session;
    state = State.invalid;
  }

  unfoldable pub execute_cbe_init : Bool → M → Result (Bool × M)
  unfolding run_job completed_job put_backend conclude_init
  execute_cbe_init progress m = run_job env.init true progress m.cbe_init m >>= λ e.
      ok (e.0, conclude_init (completed_job env.init e.1) (Backend.source e.1) (put_backend e.1 m))
