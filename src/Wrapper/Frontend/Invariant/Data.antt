-- ===== src/Wrapper/Frontend/Invariant/Data.antt =====
-- The end of `_handle_cbe_frontend` in src/lib/vfs/cbe/vfs.cc keeps the invariant, and finds
-- the place of the data that the CBE hands out or asks for.
use cbe.Wrapper.{HelperRequest, Wrapper, FrontendState, helper_in_progress}
use cbe.Wrapper.Frontend.Transfer.{
  client_read, client_write, obtain, place, Place, supply, load_block,
}
use cbe.Wrapper.Frontend.Admit.{Flow}
use cbe.Interfaces.Contracts.{Answers}
use cbe.Types.{item, Request, valid, is_read, is_write, u64, block_size}
use cbe.Prelude.{
  Result, Bytes, ok, ◌>>=◌, throw, ℕ, Bool, Bool-cases, ◌≢◌, minus_one, ◌==◌, ◌≡◌, inl, true, arith,
  inr, ◌&&◌, ap, false, ◌∙◌, ◌+◌, ◌*◌,
}
use cbe.Interfaces.{Library}
use cbe.Wrapper.Frontend.Invariant.{
  IsValid, allowed, FlowIsValid, set_cbe-IsValid, store_block-IsValid,
}

-- A call that throws nothing but what the contract of the CBE allows, and else yields what
-- satisfies `P`: never the `throw -1` that stands for data which belongs to no request.
abbrev pub Ends : {A : Type 0} → (A → Type 0) → Result A → Type 0
Ends P (ok a) = P a
Ends P (throw x) = x ≢ minus_one

pub Ends-bind :
    {A B : Type 0} (Q : A → Type 0) (P : B → Type 0) (m : Result A) (f : A → Result B)
    → Ends Q m
    → ((a : A) → Q a → Ends P (f a))
    → Ends P (m >>= f)
Ends-bind Q P (ok a) f e k = k a e
Ends-bind Q P (throw x) f e k = e

item-Ends : (block : Bytes) (i : ℕ) → Ends (λ _. Unit {0}) (item block i)
unfolding item
item-Ends block i = elim (Bool-cases (i == 0)) [
  | inl good ↦ rw good tt
  | inr wrong ↦ rw wrong (λ e. cc)
]

module _ {L C H : Type 0} (lib : Library L) (answers : Answers lib) where
  open answers use {owes}

  abbrev pub FlowIsVal : Flow (Wrapper L C H) → Type 0
  FlowIsVal = FlowIsValid lib answers

  owed-in_progress :
      (w : Wrapper L C H)
      → IsValid lib answers w
      → owes w.cbe ≡ true
      → w.frontend.state ≡ FrontendState.in_progress
  unfolding allowed
  owed-in_progress w v o = ground arith

  place-Ends :
      (h : HelperRequest) (r : Request) (i : ℕ) (w : Wrapper L C H)
      → w.frontend.state ≡ FrontendState.in_progress
      → Ends (λ _. Unit {0}) (place lib h r i w)
  unfolding place
  place-Ends h r i w e = elim (Bool-cases (helper_in_progress h)) [
    | inl helps_it ↦ rw helps_it tt
    | inr alone ↦
        rw (alone, ap {B = Bool} (λ s. elim s [ FrontendState.in_progress ↦ true | _ ↦ false ]) e)
          (elim (Bool-cases (u64 (r.offset + i * block_size) == 0)) [
            | inl null ↦ rw null (λ e. cc)
            | inr good ↦ rw good tt
          ])
  ]

  obtain-IsValid :
      (r : Request) (i : ℕ) (progress : Bool) (w : Wrapper L C H)
      → IsValid lib answers w
      → owes w.cbe ≡ true
      → Ends FlowIsVal (obtain lib r i progress w)
  unfolding obtain
  obtain-IsValid r i progress w v o =
      let got = Library.obtain_client_data lib r w.cbe in
      let v' : IsValid lib answers (record w { cbe = got.2 }) =
        set_cbe-IsValid lib answers got.2 w v (answers.obtain_owes r w.cbe) in
      Ends-bind (λ (p : Place). Unit {0}) FlowIsVal (place lib w.helper_read r i w) _
        (place-Ends w.helper_read r i w (owed-in_progress w v o))
        λ p _. elim (Bool-cases got.0) [
          | inl data_index_valid ↦ rw data_index_valid (
              Ends-bind (λ (b : Bytes). Unit {0}) FlowIsVal (item w.buffers.plain_data got.1) _
                (item-Ends w.buffers.plain_data got.1)
                λ plain _. store_block-IsValid lib answers p plain _ v')
          | inr no_data ↦ rw no_data v'
        ]

  pub client_read-IsValid :
      (progress : Bool) (w : Wrapper L C H)
      → IsValid lib answers w
      → Ends FlowIsVal (client_read lib progress w)
  unfolding client_read
  client_read-IsValid progress w v =
      let ready = Library.client_data_ready lib w.cbe in
      let v' : IsValid lib answers (record w { cbe = ready.1 }) =
        set_cbe-IsValid lib answers ready.1 w v (answers.ready_owes w.cbe) in
      elim (Bool-cases (valid ready.0 && is_read ready.0)) [
        | inr none_ready ↦ rw none_ready v'
        | inl is_ready ↦
            rw (is_ready, answers.ready_indexed w.cbe)
              (obtain-IsValid ready.0 (Library.client_data_index lib ready.0 ready.1) progress _ v'
                (answers.ready_owes w.cbe ∙ answers.ready_owed w.cbe (ground arith) (ground arith)))
      ]

  abbrev pub PairIsVal : Bool × Wrapper L C H → Type 0
  PairIsVal r = IsValid lib answers r.1

  supply-IsValid :
      (r : Request) (i : ℕ) (w : Wrapper L C H)
      → IsValid lib answers w
      → owes w.cbe ≡ true
      → Ends PairIsVal (supply lib r i w)
  unfolding supply
  supply-IsValid r i w v o =
      Ends-bind (λ (p : Place). Unit {0}) PairIsVal (place lib w.helper_write r i w) _
        (place-Ends w.helper_write r i w (owed-in_progress w v o))
        λ p _. set_cbe-IsValid lib answers _ w v (answers.supply_owes r (load_block lib p w) w.cbe)

  pub client_write-IsValid :
      (progress : Bool) (w : Wrapper L C H)
      → IsValid lib answers w
      → Ends PairIsVal (client_write lib progress w)
  unfolding client_write
  client_write-IsValid progress w v =
      let required = Library.client_data_required lib w.cbe in
      let v' : IsValid lib answers (record w { cbe = required.1 }) =
        set_cbe-IsValid lib answers required.1 w v (answers.required_owes w.cbe) in
      elim (Bool-cases (valid required.0 && is_write required.0)) [
        | inr none_required ↦ rw none_required v'
        | inl is_required ↦
            rw (is_required, answers.required_indexed w.cbe)
              (supply-IsValid required.0 (Library.client_data_index lib required.0 required.1) _ v'
                (answers.required_owes w.cbe
                  ∙ answers.required_owed w.cbe (ground arith) (ground arith)))
      ]
