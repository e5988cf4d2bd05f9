-- ===== src/Replay/Sync.antt =====
-- What a sync that src/app/vfs_replay/component.cc replays leaves of the buffers.
use cbe.Prelude.{◌≡◌, Bool, true, false, refl, if_elim}
use cbe.Interfaces.{BlockFile, SyncResult, sync_ok, sync_queued, sync_err_invalid}
use cbe.Replay.{
  Request, RequestState, Files, Turn, none_state, read_pending, write_pending, read_in_progress,
  write_in_progress, read_complete, write_complete, sync_pending, sync_in_progress, sync_complete,
  error_state, sync_in, queue_sync, in_sync, conclude_sync, finish,
}
use cbe.Replay.Bounds.{Beyond, Beyond-refl, Beyond-trans, moved_handle}

module _ {H : Type 0} (fs : BlockFile H) where
  -- The type of the request stays, and the buffers.
  abbrev pub SyncKept : Request → Files H → Turn H → Type 0
  SyncKept r w t = (Request.type (Turn.request t) ≡ r.type) × Beyond w (Turn.files t)

  conclude_sync-Kept :
      (o : SyncResult) (progress : Bool) (r : Request) (w : Files H) (h : H)
      → SyncKept r w (conclude_sync fs o progress r (record w { handle = h }))
  unfolding conclude_sync finish
  conclude_sync-Kept sync_ok progress r w h = (refl, moved_handle w h)
  conclude_sync-Kept sync_queued progress r w h = (refl, moved_handle w h)
  conclude_sync-Kept sync_err_invalid progress r w h = (refl, moved_handle w h)

  in_sync-Kept :
      (progress : Bool) (r : Request) (w : Files H) → SyncKept r w (in_sync fs progress r w)
  unfolding in_sync
  in_sync-Kept progress r w =
      conclude_sync-Kept (BlockFile.complete_sync fs w.handle).0 progress r w
        (BlockFile.complete_sync fs w.handle).1

  queue_sync-Kept :
      (progress : Bool) (r : Request) (w : Files H) → SyncKept r w (queue_sync fs progress r w)
  unfolding queue_sync
  queue_sync-Kept progress r w =
      let (queued, h) = BlockFile.queue_sync fs w.handle in
      if_elim (SyncKept r w) queued _ _
        (λ _.
          let (t, k) =
            in_sync-Kept true (record r { state = sync_in_progress }) (record w { handle = h }) in
          (t, Beyond-trans w _ _ (moved_handle w h) k))
        (λ _. (refl, moved_handle w h))

  pub sync_in-Kept :
      (s : RequestState) (r : Request) (w : Files H) → SyncKept r w (sync_in fs s r w)
  unfolding sync_in finish
  sync_in-Kept none_state r w = queue_sync-Kept true (record r { state = sync_pending }) w
  sync_in-Kept sync_pending r w = queue_sync-Kept false r w
  sync_in-Kept sync_in_progress r w = in_sync-Kept false r w
  sync_in-Kept sync_complete r w = (refl, Beyond-refl w)
  sync_in-Kept read_pending r w = (refl, Beyond-refl w)
  sync_in-Kept read_in_progress r w = (refl, Beyond-refl w)
  sync_in-Kept read_complete r w = (refl, Beyond-refl w)
  sync_in-Kept write_pending r w = (refl, Beyond-refl w)
  sync_in-Kept write_in_progress r w = (refl, Beyond-refl w)
  sync_in-Kept write_complete r w = (refl, Beyond-refl w)
  sync_in-Kept error_state r w = (refl, Beyond-refl w)
