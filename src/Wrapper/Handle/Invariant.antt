-- ===== src/Wrapper/Handle/Invariant.antt =====
-- `handle_frontend_request` of src/lib/vfs/cbe/vfs.cc and what it calls keep the states that the
-- requests can be in together.
use cbe.Types.{valid, item}
use cbe.Wrapper.Frontend.Invariant.{IsValid}
use cbe.IoJob.{IoJob, Turn, execute}
use cbe.Wrapper.Backend.{execute_job, handle_cbe_backend, after_turn, current_job, world_of}
use cbe.IoJob.Calls.{IfOk, IfOk-bind, IfOk-any, execute-Kept}
use cbe.Prelude.{
  Result, Bool, ◌≡◌, ℕ, Option, suc, Bool-cases, inl, true, inr, zero, ◌∙◌, refl, ◌>>=◌, not, Bytes,
  ◌||◌,
}
use cbe.Interfaces.Contracts.{Answers}
use cbe.Wrapper.Encryption.{
  repeat, add_key, finish_decryption, finish_encryption, handle_crypto, remove_key,
  submit_decryption, submit_encryption,
}
use cbe.Interfaces.{Library, BlockFile, Crypto}
use cbe.Wrapper.{Wrapper}

pub repeat-IfOk :
    {S : Type 0} (P : S → Type 0) (round : S → Result (Bool × S))
    → ((s : S) → P s → IfOk (λ r. P r.1) (round s))
    → (fuel : ℕ) (progress : Bool) (s : S) → P s
    → IfOk (λ r. P r.1) (repeat round fuel progress s)
unfolding repeat
repeat-IfOk {S = S} P round keep zero progress s p = tt
repeat-IfOk {S = S} P round keep (suc fuel) progress s p =
    IfOk-bind Q Q (round s) _ (keep s p) λ r q. elim (Bool-cases r.0) [
      | inl more ↦ rw more (repeat-IfOk P round keep fuel true r.1 q)
      | inr left ↦ rw left q
    ]
  where
    Q : Bool × S → Type 0
    Q r = P r.1

module _ {L C H : Type 0} (lib : Library L) (answers : Answers lib) where
  open answers use {owes}

  abbrev pub Valid : Wrapper L C H → Type 0
  Valid w = IsValid lib answers w

  abbrev pub PairValid : Bool × Wrapper L C H → Type 0
  PairValid r = IsValid lib answers r.1

  -- The invariant is about the three requests and what the CBE owes.
  pub same-IsValid :
      (w u : Wrapper L C H)
      → u.helper_read ≡ w.helper_read
      → u.helper_write ≡ w.helper_write
      → u.frontend ≡ w.frontend
      → owes u.cbe ≡ owes w.cbe
      → Valid w
      → Valid u
  same-IsValid w u a b c d v = record {
    states = rw (a, b, c, d) v.states;
    bounded = rw (a, b, c) v.bounded;
  }

-- Whatever depends on no more than the three requests and what the CBE owes is kept by the back
-- end and the crypto component.
module _ {L C H : Type 0} (lib : Library L) (answers : Answers lib) (P : Wrapper L C H → Type 0)
    (same : (w u : Wrapper L C H)
      → u.helper_read ≡ w.helper_read
      → u.helper_write ≡ w.helper_write
      → u.frontend ≡ w.frontend
      → Answers.owes answers u.cbe ≡ Answers.owes answers w.cbe
      → P w
      → P u) where
  open answers use {owes}

  abbrev OfPair : Bool × Wrapper L C H → Type 0
  OfPair r = P r.1

  module _ (fs : BlockFile H) where
    execute_job-IfOk :
        (o : Option IoJob) (w : Wrapper L C H) → P w → IfOk OfPair (execute_job lib fs o w)
    unfolding execute_job after_turn
    execute_job-IfOk Option.none w v = v
    execute_job-IfOk (Option.some j) w v =
        IfOk-bind (λ (t : Turn L H). owes t.world.cbe ≡ owes w.cbe) OfPair
          (execute lib fs j (world_of lib fs w)) _
          (execute-Kept lib fs (λ l. owes l ≡ owes w.cbe) (λ i l e. answers.begun_owes i l ∙ e)
            (λ i b l e. answers.done_owes i b l ∙ e) j (world_of lib fs w) refl)
          λ t e. same w _ refl refl refl e v

    pub handle_cbe_backend-IfOk :
        (w : Wrapper L C H) → P w → IfOk OfPair (handle_cbe_backend lib fs w)
    unfolding handle_cbe_backend
    handle_cbe_backend-IfOk w v =
        IfOk-bind (λ (o : Option IoJob). Unit {0}) OfPair (current_job lib fs w) _
          (IfOk-any (current_job lib fs w)) λ o _. execute_job-IfOk o w v

  module _ (cry : Crypto C) where
    add_key-IfOk : (w : Wrapper L C H) → P w → IfOk OfPair (add_key lib cry w)
    unfolding add_key
    add_key-IfOk w v = elim (Bool-cases (valid (Library.crypto_add_key_required lib w.cbe).0)) [
      | inl due ↦ rw due (
          same w _ refl refl refl
            (answers.crypto_add_key_completed_owes _ _
              ∙ answers.crypto_add_key_requested_owes _ w.cbe)
            v)
      | inr none_due ↦ rw none_due v
    ]

    remove_key-IfOk : (w : Wrapper L C H) → P w → IfOk OfPair (remove_key lib cry w)
    unfolding remove_key
    remove_key-IfOk w v =
        elim (Bool-cases (valid (Library.crypto_remove_key_required lib w.cbe).0)) [
          | inl due ↦ rw due (
              same w _ refl refl refl
                (answers.crypto_remove_key_completed_owes _ _
                  ∙ answers.crypto_remove_key_requested_owes _ w.cbe)
                v)
          | inr none_due ↦ rw none_due v
        ]

    submit_encryption-IfOk : (w : Wrapper L C H) → P w → IfOk OfPair (submit_encryption lib cry w)
    unfolding submit_encryption
    submit_encryption-IfOk w v =
        let (r, i) = Library.crypto_cipher_data_required lib w.cbe in
        elim (Bool-cases
          (not (valid r) || not (Crypto.encryption_request_acceptable cry w.crypto))) [
            | inl done ↦ rw done v
            | inr due ↦ rw due (
                IfOk-bind (λ (d : Bytes). Unit {0}) OfPair (item w.buffers.plain_data i) _
                  (IfOk-any (item w.buffers.plain_data i))
                  λ d _.
                    same w _ refl refl refl (answers.crypto_cipher_data_requested_owes i w.cbe) v)
          ]

    finish_encryption-IfOk : (w : Wrapper L C H) → P w → IfOk OfPair (finish_encryption lib cry w)
    unfolding finish_encryption
    finish_encryption-IfOk w v =
        let r = Crypto.peek_completed_encryption_request cry w.crypto in
        elim (Bool-cases (valid r)) [
          | inr done ↦ rw done v
          | inl due ↦ rw due (
              IfOk-bind (λ (d : Bytes). Unit {0}) OfPair (item w.buffers.cipher_data r.tag) _
                (IfOk-any (item w.buffers.cipher_data r.tag))
                λ d _. elim (Bool-cases (Crypto.supply_cipher_data cry r d w.crypto).0) [
                  | inl supplied ↦ rw supplied (
                      same w _ refl refl refl
                        (answers.supply_crypto_cipher_data_owes r.tag r.success w.cbe) v)
                  | inr refused ↦ rw refused (same w _ refl refl refl refl v)
                ])
        ]

    submit_decryption-IfOk : (w : Wrapper L C H) → P w → IfOk OfPair (submit_decryption lib cry w)
    unfolding submit_decryption
    submit_decryption-IfOk w v =
        let (r, i) = Library.crypto_plain_data_required lib w.cbe in
        elim (Bool-cases
          (not (valid r) || not (Crypto.decryption_request_acceptable cry w.crypto))) [
            | inl done ↦ rw done v
            | inr due ↦ rw due (
                IfOk-bind (λ (d : Bytes). Unit {0}) OfPair (item w.buffers.cipher_data i) _
                  (IfOk-any (item w.buffers.cipher_data i))
                  λ d _.
                    same w _ refl refl refl (answers.crypto_plain_data_requested_owes i w.cbe) v)
          ]

    finish_decryption-IfOk : (w : Wrapper L C H) → P w → IfOk OfPair (finish_decryption lib cry w)
    unfolding finish_decryption
    finish_decryption-IfOk w v =
        let r = Crypto.peek_completed_decryption_request cry w.crypto in
        elim (Bool-cases (valid r)) [
          | inr done ↦ rw done v
          | inl due ↦ rw due (
              IfOk-bind (λ (d : Bytes). Unit {0}) OfPair (item w.buffers.plain_data r.tag) _
                (IfOk-any (item w.buffers.plain_data r.tag))
                λ d _. elim (Bool-cases (Crypto.supply_plain_data cry r d w.crypto).0) [
                  | inl supplied ↦ rw supplied (
                      same w _ refl refl refl
                        (answers.supply_crypto_plain_data_owes r.tag r.success w.cbe) v)
                  | inr refused ↦ rw refused (same w _ refl refl refl refl v)
                ])
        ]

    -- A loop of the function, and what comes behind it.
    loop-IfOk :
        (round : Wrapper L C H → Result (Bool × Wrapper L C H))
        (next : Bool × Wrapper L C H → Result (Bool × Wrapper L C H))
        → ((w : Wrapper L C H) → P w → IfOk OfPair (round w))
        → ((r : Bool × Wrapper L C H) → OfPair r → IfOk OfPair (next r))
        → (fuel : ℕ) (progress : Bool) (w : Wrapper L C H) → P w
        → IfOk OfPair (repeat round fuel progress w >>= next)
    loop-IfOk round next keep go fuel progress w v =
        IfOk-bind OfPair OfPair (repeat round fuel progress w) next
          (repeat-IfOk P round keep fuel progress w v) go

    pub handle_crypto-IfOk :
        (fuel : ℕ) (w : Wrapper L C H) → P w → IfOk OfPair (handle_crypto lib cry fuel w)
    unfolding handle_crypto
    handle_crypto-IfOk fuel w v =
        let v0 =
          same w (record w { crypto = (Crypto.execute cry w.crypto).1 }) refl refl refl refl v in
        loop-IfOk (add_key lib cry) _ add_key-IfOk
          (λ a va.
            loop-IfOk (remove_key lib cry) _ remove_key-IfOk
              (λ b vb.
                loop-IfOk (submit_encryption lib cry) _ submit_encryption-IfOk
                  (λ c vc.
                    loop-IfOk (finish_encryption lib cry) _ finish_encryption-IfOk
                      (λ d vd.
                        loop-IfOk (submit_decryption lib cry) _ submit_decryption-IfOk
                          (λ e ve.
                            repeat-IfOk P (finish_decryption lib cry) finish_decryption-IfOk fuel
                              e.0 e.1 ve)
                          fuel d.0 d.1 vd)
                      fuel c.0 c.1 vc)
                  fuel b.0 b.1 vb)
              fuel a.0 a.1 va)
          fuel _ _ v0
