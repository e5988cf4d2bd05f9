-- ===== src/Wrapper/Handle/Settled.antt =====
-- What `handle_frontend_request` of src/lib/vfs/cbe/vfs.cc has come to when it returns.
use cbe.Wrapper.Frontend.Settled.{Settled, Unless, handle_cbe_frontend-Settled}
use cbe.Wrapper.Frontend.{handle_cbe_frontend}
use cbe.Wrapper.Backend.{handle_cbe_backend}
use cbe.Wrapper.Encryption.{repeat, handle_crypto}
use cbe.Wrapper.Handle.{handle_all, handle_frontend_request, resume}
use cbe.Wrapper.Handle.Invariant.{handle_cbe_backend-IfOk, handle_crypto-IfOk}
use cbe.Wrapper.Handle.Keeps.{Val, handle_all-IsValid}
use cbe.IoJob.Calls.{IfOk, IfOk-bind, IfOk-ok}
use cbe.Wrapper.Frontend.Invariant.{IsValid}
use cbe.Prelude.{
  ℕ, Bool, Bool-cases, inl, inr, true, false, ◌≡◌, Result, ok, throw, zero, suc, refl, arith,
}
use cbe.Interfaces.{Library, Crypto, BlockFile}
use cbe.Interfaces.Contracts.{Answers, HasRoom}
use cbe.Wrapper.{Wrapper}

IfOk-both :
    {A : Type 0} (P Q : A → Type 0) (m : Result A) → IfOk P m → IfOk Q m → IfOk (λ a. P a × Q a) m
IfOk-both P Q (ok a) p q = (p, q)
IfOk-both P Q (throw x) p q = tt

-- What a last round leaves, where every round keeps `P`.
repeat-last :
    {S : Type 0} (P Q : S → Type 0) (round : S → Result (Bool × S))
    → ((s : S) → P s → IfOk (λ r. P r.1) (round s))
    → ((s : S) → P s → IfOk (λ r. r.0 ≡ false → Q r.1) (round s))
    → (fuel : ℕ) (progress : Bool) (s : S) → P s
    → IfOk (λ r. Q r.1) (repeat round fuel progress s)
unfolding repeat
repeat-last P Q round keep last zero progress s p = tt
repeat-last {S = S} P Q round keep last (suc fuel) progress s p =
    IfOk-bind (λ (r : Bool × S). P r.1 × (r.0 ≡ false → Q r.1)) (λ (r : Bool × S). Q r.1) (round s)
      _
      (IfOk-both (λ (r : Bool × S). P r.1) (λ (r : Bool × S). r.0 ≡ false → Q r.1) (round s)
        (keep s p) (last s p))
      λ r q. elim (Bool-cases r.0) [
        | inl more ↦ rw more (repeat-last P Q round keep last fuel true r.1 q.0)
        | inr left ↦ rw left (q.1 left)
      ]

module _ {L C H : Type 0} (lib : Library L) (answers : Answers lib) (room : HasRoom lib answers)
    (cry : Crypto C) (fs : BlockFile H) where
  open answers use {owes}

  same-Settled :
      (w u : Wrapper L C H)
      → u.helper_read ≡ w.helper_read
      → u.helper_write ≡ w.helper_write
      → u.frontend ≡ w.frontend
      → Settled w
      → Settled u
  same-Settled w u a b c s = record {
    submitted = record {
      read = rw a s.submitted.read;
      write = rw b s.submitted.write;
      client = rw c s.submitted.client;
    };
    read = rw a s.read;
    write = rw b s.write;
  }

  handle_all-Settled :
      (fuel : ℕ) (w : Wrapper L C H)
      → IsValid lib answers w
      → IfOk (Unless Settled) (handle_all lib cry fs fuel w)
  unfolding handle_all
  handle_all-Settled fuel w v =
      IfOk-bind (Unless Settled) (Unless Settled) (handle_cbe_frontend lib fuel w) _
        (handle_cbe_frontend-Settled lib answers room fuel w v)
        λ a ha.
          let P : Wrapper L C H → Type 0 = λ u. a.0 ≡ false → Settled u in
          let same : (x u : Wrapper L C H)
              → u.helper_read ≡ x.helper_read
              → u.helper_write ≡ x.helper_write
              → u.frontend ≡ x.frontend
              → owes u.cbe ≡ owes x.cbe
              → P x
              → P u =
            λ x u p q r o s e. same-Settled x u p q r (s e) in
          IfOk-bind (λ (t : Bool × Wrapper L C H). P t.1) (Unless Settled)
            (handle_cbe_backend lib fs a.1) _ (handle_cbe_backend-IfOk lib answers P same fs a.1 ha)
            λ b hb.
              IfOk-bind (λ (t : Bool × Wrapper L C H). P t.1) (Unless Settled)
                (handle_crypto lib cry fuel b.1) _
                (handle_crypto-IfOk lib answers P same cry fuel b.1 hb) λ c hc e. hc (ground arith)

  -- With a CBE that answers only what it was asked, and has room for a data request while it owes
  -- no answer to one: a call of `handle_frontend_request` on requests whose states go together,
  -- if it returns, has left no work behind with the client's request and its helpers. Neither the
  -- client's request, nor a helper read, nor a helper write still waits to be handed to the CBE,
  -- and no helper that has come back waits to be dealt with.
  pub handle_frontend_request-Settled :
      (fuel : ℕ) (w v : Wrapper L C H)
      → IsValid lib answers w
      → handle_frontend_request lib cry fs fuel w ≡ ok v
      → Settled v
  unfolding handle_frontend_request resume
  handle_frontend_request-Settled fuel w v valid_w e =
      let rounds = repeat (handle_all lib cry fs fuel) fuel false w in
      IfOk-ok Settled
        (IfOk-bind (λ (t : Bool × Wrapper L C H). Settled t.1) Settled rounds _
          (repeat-last (Val lib answers) Settled (handle_all lib cry fs fuel)
            (handle_all-IsValid lib answers cry fs fuel) (handle_all-Settled fuel) fuel false w
            valid_w)
          λ r s. same-Settled r.1 _ refl refl refl s)
        e
