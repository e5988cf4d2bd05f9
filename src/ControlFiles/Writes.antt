-- ===== src/ControlFiles/Writes.antt =====
-- When the control files of src/lib/vfs/cbe/vfs.cc take what is written to them.
use cbe.Wrapper.Handle.{create_snapshot, handle_frontend_request}
use cbe.Types.{is_op, Operation, valid, request}
use Prim.Native.String.{String, len}
use cbe.Prelude.{
  Bool, Result, ℕ, List, ◌>>=◌, ◌≡◌, Option, false, ok, some, Bool-cases, true, ◌⊎◌, >>=-eq-ok, inr,
  ◌≤◌, ap, inl, none, sym, ok-injective, ◌==◌, if◌then◌else◌, ltb, not, ◌∙◌, ◌-◌, arith, subst,
  refl,
}
use cbe.ControlFiles.{
  read_status, write_extend, write_rekey, status_text, is_idle, is_invalid, string_to_type,
  write_discard, write_create,
}
use cbe.Interfaces.{Library, Crypto, BlockFile, WriteResult, write_ok, write_err_io}
use cbe.Wrapper.{Wrapper, ControlState, LastResult, TreeType, FrontendState}
use cbe.Wrapper.Handle.{discard_snapshot, start_extending, start_rekeying, extending_operation}

least :
    (l count n : ℕ)
    → (if ltb (l - 1) count then l else count) ≡ n
    → (n ≤ count) × (n ≤ l) × ((n ≡ count) ⊎ (n ≡ l))
least l count n e = ground arith

some-parts : {A B : Type 0} (p q : A × B) → some p ≡ some q → (p.0 ≡ q.0) × (p.1 ≡ q.1)
some-parts p q e = (
  ap (λ o. elim o [ some y ↦ y.0 | none ↦ p.0 ]) e,
  ap (λ o. elim o [ some y ↦ y.1 | none ↦ p.1 ]) e,
)

-- Read from its start, a control file yields its text; the count that it reports is no more than
-- the buffer and the text have bytes, and all of one of them.
read_status-count :
    (s : ControlState) (r : LastResult) (count n : ℕ) (text : String)
    → read_status s r 0 count ≡ some (text, n)
    → (text ≡ status_text s r) × (n ≤ count) × (n ≤ len text) × ((n ≡ count) ⊎ (n ≡ len text))
unfolding read_status
read_status-count s r count n text e =
    let own = status_text s r in
    let shown : String × ℕ = (own, if ltb (len own - 1) count then len own else count) in
    let (text_of, count_of) = some-parts shown (text, n) e in
    let bounded =
      subst (λ u. (n ≤ count) × (n ≤ len u) × ((n ≡ count) ⊎ (n ≡ len u))) text_of
        (least (len own) count n count_of) in
    (sym text_of, bounded.0, bounded.1, bounded.2)

module _ {L C H : Type 0} (lib : Library L) (cry : Crypto C) (fs : BlockFile H) where
  -- A background request is refused, with nothing changed, or the CBE had room for it.
  abbrev Taken : Wrapper L C H → Bool × Wrapper L C H → Type 0
  Taken w r =
      (r ≡ (false, w)) ⊎ ((r.0 ≡ true) × (Library.client_request_acceptable lib w.cbe ≡ true))

  driven-true :
      (w : Wrapper L C H) (m : Result (Wrapper L C H)) (r : Bool × Wrapper L C H)
      → (m >>= λ v. ok (true, v)) ≡ ok r
      → r.0 ≡ true
  driven-true w m r e = let (v, ran, q) = >>=-eq-ok m _ e in ap (λ y. y.0) (sym (ok-injective q))

  start_rekeying-Taken :
      (fuel : ℕ) (w : Wrapper L C H) (r : Bool × Wrapper L C H)
      → start_rekeying lib cry fs fuel w ≡ ok r
      → Taken w r
  unfolding start_rekeying
  start_rekeying-Taken fuel w r e =
      elim (Bool-cases (Library.client_request_acceptable lib w.cbe)) [
        | inr full ↦ inl (sym (ok-injective (rw (start_rekeying, full) at e)))
        | inl free ↦ inr (driven-true w _ r (rw (start_rekeying, free) at e), free)
      ]

  start_extending-Taken :
      (fuel : ℕ) (type : TreeType) (blocks : ℕ) (w : Wrapper L C H) (r : Bool × Wrapper L C H)
      → start_extending lib cry fs fuel type blocks w ≡ ok r
      → Taken w r
  unfolding start_extending
  start_extending-Taken fuel type blocks w r e =
      elim (Bool-cases (Library.client_request_acceptable lib w.cbe)) [
        | inr full ↦ inl (sym (ok-injective (rw (start_extending, full) at e)))
        | inl free ↦ elim (Bool-cases (is_op (extending_operation type) Operation.invalid)) [
          | inl bad ↦ inl (sym (ok-injective (rw (start_extending, free, bad) at e)))
          | inr good ↦ inr (driven-true w _ r (rw (start_extending, free, good) at e), free)
        ]
      ]

  -- The reply of the files `extend` and `rekey` to a request that was tried.
  reply-Taken :
      (m : Result (Bool × Wrapper L C H)) (count : ℕ) (w : Wrapper L C H)
      (t : WriteResult × Option ℕ × Wrapper L C H)
      → ((r : Bool × Wrapper L C H) → m ≡ ok r → Taken w r)
      → (m >>= λ r. ok (if r.0 then (write_ok, some count, r.1) else (write_err_io, none, r.1)))
        ≡ ok t
      → ((t.0 ≡ write_ok)
          × (t.1 ≡ some count)
          × (Library.client_request_acceptable lib w.cbe ≡ true))
        ⊎ (t ≡ (write_err_io, none, w))
  reply-Taken m count w t taken e =
      let (r, ran, q) = >>=-eq-ok m _ e in
      elim (taken r ran) [
        | inl refused ↦ inr (
            sym (ok-injective q)
            ∙ ap
                (λ (y : Bool × Wrapper L C H).
                  if y.0 then (write_ok, some count, y.1) else (write_err_io, none, y.1))
                refused)
        | inr (started, free) ↦
            let same : (write_ok, some count, r.1) ≡ t = ok-injective (rw started at q) in
            inl (
              ap (λ (y : WriteResult × Option ℕ × Wrapper L C H). y.0) (sym same),
              ap (λ (y : WriteResult × Option ℕ × Wrapper L C H). y.1) (sym same),
              free,
            )
      ]

  -- A write to the file `extend` that returns either was taken, and then reports the whole
  -- count, no extension was under way, the text named a tree and a number of blocks other than
  -- 0, and the CBE had room for a request; or it was refused, and nothing has changed.
  pub write_extend-taken :
      (tree : List ℕ) (blocks fuel count : ℕ) (w : Wrapper L C H)
      (t : WriteResult × Option ℕ × Wrapper L C H)
      → write_extend lib cry fs tree blocks fuel count w ≡ ok t
      → ((t.0 ≡ write_ok)
          × (t.1 ≡ some count)
          × (is_idle w.extend_obj.state ≡ true)
          × (is_invalid (string_to_type tree) ≡ false)
          × ((blocks == 0) ≡ false)
          × (Library.client_request_acceptable lib w.cbe ≡ true))
        ⊎ (t ≡ (write_err_io, none, w))
  unfolding write_extend
  write_extend-taken tree blocks fuel count w t e = elim (Bool-cases (is_idle w.extend_obj.state)) [
    | inr busy ↦ inr (sym (ok-injective (rw (write_extend, busy) at e)))
    | inl idle ↦ elim (Bool-cases (is_invalid (string_to_type tree))) [
      | inl unknown_tree ↦ inr (sym (ok-injective (rw (write_extend, idle, unknown_tree) at e)))
      | inr known ↦ elim (Bool-cases (blocks == 0)) [
        | inl nothing ↦ inr (sym (ok-injective (rw (write_extend, idle, known, nothing) at e)))
        | inr some_blocks ↦
            elim (reply-Taken (start_extending lib cry fs fuel (string_to_type tree) blocks w) count
              w t (λ r h. start_extending-Taken fuel (string_to_type tree) blocks w r h)
              (rw (write_extend, idle, known, some_blocks) at e)) [
                | inl (done, counted, free) ↦ inl (done, counted, idle, known, some_blocks, free)
                | inr refused ↦ inr refused
              ]
      ]
    ]
  ]

  -- A write to the file `rekey` that returns either was taken, and then reports the whole count,
  -- no rekeying was under way, the text asked for one, and the CBE had room for a request; or it
  -- was refused, and nothing has changed.
  pub write_rekey-taken :
      (flag : Bool) (fuel count : ℕ) (w : Wrapper L C H)
      (t : WriteResult × Option ℕ × Wrapper L C H)
      → write_rekey lib cry fs flag fuel count w ≡ ok t
      → ((t.0 ≡ write_ok)
          × (t.1 ≡ some count)
          × (is_idle w.rekey_obj.state ≡ true)
          × (flag ≡ true)
          × (Library.client_request_acceptable lib w.cbe ≡ true))
        ⊎ (t ≡ (write_err_io, none, w))
  unfolding write_rekey
  write_rekey-taken flag fuel count w t e = elim (Bool-cases (is_idle w.rekey_obj.state)) [
    | inr busy ↦ inr (sym (ok-injective (rw (write_rekey, busy) at e)))
    | inl idle ↦ elim (Bool-cases flag) [
      | inr unset ↦ inr (sym (ok-injective (rw (write_rekey, idle, unset) at e)))
      | inl set ↦
          elim (reply-Taken (start_rekeying lib cry fs fuel w) count w t
            (λ r h. start_rekeying-Taken fuel w r h) (rw (write_rekey, idle, set) at e)) [
              | inl (done, counted, free) ↦ inl (done, counted, idle, set, free)
              | inr refused ↦ inr refused
            ]
    ]
  ]

  discard_snapshot-Taken :
      (fuel id : ℕ) (w : Wrapper L C H) (r : Bool × Wrapper L C H)
      → discard_snapshot lib cry fs fuel id w ≡ ok r
      → Taken w r
  unfolding discard_snapshot
  discard_snapshot-Taken fuel id w r e =
      elim (Bool-cases (Library.client_request_acceptable lib w.cbe)) [
        | inr full ↦ inl (sym (ok-injective (rw (discard_snapshot, full) at e)))
        | inl free ↦ elim (Bool-cases (valid w.discard_snapshot_request.cbe_request)) [
          | inl busy ↦ inl (sym (ok-injective (rw (discard_snapshot, free, busy) at e)))
          | inr good ↦ inr (driven-true w _ r (rw (discard_snapshot, free, good) at e), free)
        ]
      ]

  -- A write to the file `discard_snapshot` that returns reports no bytes, and success only if it
  -- has changed nothing; in every other case it reports an I/O error.
  pub write_discard-inverted :
      (id fuel count : ℕ) (w : Wrapper L C H) (t : WriteResult × Option ℕ × Wrapper L C H)
      → write_discard lib cry fs id fuel count w ≡ ok t
      → (t.1 ≡ some 0) × ((t.0 ≡ write_err_io) ⊎ (t ≡ (write_ok, some 0, w)))
  unfolding write_discard
  write_discard-inverted id fuel count w t e = elim (Bool-cases (id == 0)) [
    | inl null ↦
        let same : (write_err_io, some 0, w) ≡ t = ok-injective (rw (write_discard, null) at e) in
        (
          ap (λ (y : WriteResult × Option ℕ × Wrapper L C H). y.1) (sym same),
          inl (ap (λ (y : WriteResult × Option ℕ × Wrapper L C H). y.0) (sym same)),
        )
    | inr real ↦
        let (r, ran, q) =
          >>=-eq-ok (discard_snapshot lib cry fs fuel id w) _ (rw (write_discard, real) at e) in
        let same : (if not r.0 then write_ok else write_err_io, some 0, r.1) ≡ t = ok-injective q in
        (
          ap (λ (y : WriteResult × Option ℕ × Wrapper L C H). y.1) (sym same),
          elim (discard_snapshot-Taken fuel id w r ran) [
            | inl refused ↦ inr (
                sym same
                ∙ ap
                    (λ (y : Bool × Wrapper L C H).
                      (if not y.0 then write_ok else write_err_io, some 0, y.1))
                    refused)
            | inr (started, free) ↦ inl (
                ap (λ (y : WriteResult × Option ℕ × Wrapper L C H). y.0) (sym same)
                ∙ ap (λ b. if not b then write_ok else write_err_io) started)
          ],
        )
  ]

  -- The plugin with the snapshot's creation submitted.
  abbrev pub creating : Wrapper L C H → Wrapper L C H
  creating w =
      let req = request Operation.create_snapshot 0 0 1 in
      record w {
        cbe = Library.submit_client_request lib req 0 w.cbe;
        create_snapshot_request = record w.create_snapshot_request {
          cbe_request = req;
          state = FrontendState.in_progress;
        };
      }

  -- The CBE takes no request, or the creation of a snapshot is under way already.
  abbrev pub CannotCreate : Wrapper L C H → Type 0
  CannotCreate w =
      (Library.client_request_acceptable lib w.cbe ≡ false)
      ⊎ (valid w.create_snapshot_request.cbe_request ≡ true)

  create_snapshot-cases :
      (fuel : ℕ) (w : Wrapper L C H) (r : Bool × Wrapper L C H)
      → create_snapshot lib cry fs fuel w ≡ ok r
      → (CannotCreate w × (r ≡ (false, w)))
        ⊎ ((Library.client_request_acceptable lib w.cbe ≡ true)
            × (valid w.create_snapshot_request.cbe_request ≡ false)
            × (r.0 ≡ true)
            × (handle_frontend_request lib cry fs fuel (creating w) ≡ ok r.1))
  unfolding create_snapshot
  create_snapshot-cases fuel w r e =
      elim (Bool-cases (Library.client_request_acceptable lib w.cbe)) [
        | inr full ↦ inl (inl full, sym (ok-injective (rw (create_snapshot, full) at e)))
        | inl free ↦ elim (Bool-cases (valid w.create_snapshot_request.cbe_request)) [
          | inl busy ↦ inl (inr busy, sym (ok-injective (rw (create_snapshot, free, busy) at e)))
          | inr none_yet ↦
              let (v, ran, q) =
                >>=-eq-ok (handle_frontend_request lib cry fs fuel (creating w)) _
                  (rw (create_snapshot, free, none_yet) at e) in
              let same : ◌≡◌ {A = Bool × Wrapper L C H} (true, v) r = ok-injective q in
              inr (
                free,
                none_yet,
                ap (λ y. y.0) (sym same),
                ran ∙ ap (λ (y : Bool × Wrapper L C H). ok y.1) same,
              )
        ]
      ]

  -- A write to the file `create_snapshot` that returns is one of three: the text did not ask for
  -- a snapshot, and it is an I/O error that changes nothing; or the CBE had no room for a request
  -- or a snapshot was being created already, and it reports success with no bytes and changes
  -- nothing; or the CBE had room and no snapshot was being created, and it reports the whole
  -- count, submits one request for a snapshot, notes it as in progress, and leaves what
  -- `handle_frontend_request` makes of that.
  pub write_create-counts :
      (flag : Bool) (fuel count : ℕ) (w : Wrapper L C H)
      (t : WriteResult × Option ℕ × Wrapper L C H)
      → write_create lib cry fs flag fuel count w ≡ ok t
      → ((flag ≡ false) × (t ≡ (write_err_io, none, w)))
        ⊎ ((flag ≡ true) × CannotCreate w × (t ≡ (write_ok, some 0, w)))
        ⊎ ((flag ≡ true)
            × (Library.client_request_acceptable lib w.cbe ≡ true)
            × (valid w.create_snapshot_request.cbe_request ≡ false)
            × (t.0 ≡ write_ok)
            × (t.1 ≡ some count)
            × (handle_frontend_request lib cry fs fuel (creating w) ≡ ok t.2))
  unfolding write_create
  write_create-counts false fuel count w t e = inl (refl, sym (ok-injective e))
  write_create-counts true fuel count w t e =
      let (r, ran, q) = >>=-eq-ok (create_snapshot lib cry fs fuel w) _ e in
      let same : ◌≡◌ {A = WriteResult × Option ℕ × Wrapper L C H}
          (write_ok, some (if r.0 then count else 0), r.1) t =
        ok-injective q in
      elim (create_snapshot-cases fuel w r ran) [
        | inl (why, refused) ↦ inr (
            inl (
              refl,
              why,
              sym same
                  ∙ ap
                      (λ (y : Bool × Wrapper L C H).
                        (write_ok, some (if y.0 then count else 0), y.1))
                      refused,
            ))
        | inr (free, none_yet, started, driven) ↦ inr (
            inr (
              refl,
              free,
              none_yet,
              ap (λ (y : WriteResult × Option ℕ × Wrapper L C H). y.0) (sym same),
              ap (λ (y : WriteResult × Option ℕ × Wrapper L C H). y.1) (sym same)
                  ∙ ap (λ b. some (if b then count else 0)) started,
              driven ∙ ap (λ (y : WriteResult × Option ℕ × Wrapper L C H). ok y.2) same,
            ))
      ]
