-- ===== src/Wrapper/Frontend/Transfer.antt =====
-- src/lib/vfs/cbe/vfs.cc, the end of `_handle_cbe_frontend`: blocks that the CBE has read go to
-- where they belong, and blocks that it is to write come from there.
use cbe.Types.{Request, block_size, item, valid, is_read, is_write, u64, invalid_index_value}
use cbe.Prelude.{
  ℕ, Bool, Bytes, Result, memcpy, ◌+◌, if◌then◌else◌, ◌>>=◌, not, ok, true, ◌&&◌, ◌*◌, ◌==◌, throw,
  data_nullptr, minus_one,
}
use cbe.Interfaces.{Library}
use cbe.Wrapper.{
  Wrapper, HelperRequest, helper_in_progress, frontend_in_progress, set_frontend, FrontendState,
}
use cbe.Wrapper.Frontend.Admit.{Flow, go, stop}

-- Where the data of a request stands: the block of a helper request that is in progress, or else
-- the client's buffer, at the address of the primitive.
pub data Place : Type 0 where
  helper : Place
  client : ℕ → Place

module _ {L C H : Type 0} (lib : Library L) where
  unfoldable pub place : HelperRequest → Request → ℕ → Wrapper L C H → Result Place
  place h r prim_index w =
      if helper_in_progress h
      then ok helper
      else if frontend_in_progress w.frontend
      then (let address = u64 (r.offset + prim_index * block_size) in
          if address == 0 then throw data_nullptr else ok (client address))
      else throw minus_one

  unfoldable pub store_block : Place → Bytes → Wrapper L C H → Wrapper L C H
  store_block helper plain w = record w {
    helper_read = record w.helper_read {
      block_data = memcpy w.helper_read.block_data 0 plain 0 block_size;
    };
  }
  store_block (client address) plain w = record w {
    memory = memcpy w.memory address plain 0 block_size;
  }

  unfoldable pub load_block : Place → Wrapper L C H → Bytes
  load_block helper w = w.helper_write.block_data
  load_block (client address) w = λ i. w.memory (address + i)

  -- The read request `r` at hand: obtain its data, if the CBE has it.
  unfoldable pub obtain : Request → ℕ → Bool → Wrapper L C H → Result (Flow (Wrapper L C H))
  unfolding place store_block
  obtain r prim_index progress w = place w.helper_read r prim_index w >>= λ p.
      let (data_index_valid, data_index, l) = Library.obtain_client_data lib r w.cbe in
      if data_index_valid
      then (item w.buffers.plain_data data_index >>= λ plain.
          ok (go true (store_block p plain (record w { cbe = l }))))
      else ok (go progress (record w { cbe = l }))

  unfoldable pub client_read : Bool → Wrapper L C H → Result (Flow (Wrapper L C H))
  unfolding obtain
  client_read progress w =
      let (r, l) = Library.client_data_ready lib w.cbe in
      let v = record w { cbe = l } in
      let prim_index = Library.client_data_index lib r l in
      if not (valid r && is_read r)
      then ok (go progress v)
      else if prim_index == invalid_index_value
      then ok (stop progress (set_frontend FrontendState.error v))
      else obtain r prim_index progress v

  -- The write request `r` at hand: supply its data, which always counts as progress.
  unfoldable pub supply : Request → ℕ → Wrapper L C H → Result (Bool × Wrapper L C H)
  unfolding place load_block
  supply r prim_index w = place w.helper_write r prim_index w >>= λ p.
      ok (true, record w { cbe = (Library.supply_client_data lib r (load_block p w) w.cbe).1 })

  unfoldable pub client_write : Bool → Wrapper L C H → Result (Bool × Wrapper L C H)
  unfolding supply
  client_write progress w =
      let (r, l) = Library.client_data_required lib w.cbe in
      let v = record w { cbe = l } in
      let prim_index = Library.client_data_index lib r l in
      if not (valid r && is_write r)
      then ok (progress, v)
      else if prim_index == invalid_index_value
      then ok (progress, set_frontend FrontendState.error v)
      else supply r prim_index v
