-- ===== src/Wrapper/Encryption/Rounds.antt =====
-- What the rounds of a loop keep, over a whole loop.
use cbe.Prelude.{ℕ, zero, suc, Bool, true, Result, if_elim, Leaves, Leaves-bind}
use cbe.Wrapper.Encryption.{repeat}

-- What holds of the state with which a round or a loop returns.
abbrev pub LeavesState : {S : Type 0} → (S → Type 0) → Result (Bool × S) → Type 0
LeavesState {S} P r = Leaves (λ (t : Bool × S). P t.1) r

pub repeat-LeavesState :
    {S : Type 0} (P : S → Type 0) (round : S → Result (Bool × S))
    → ((s : S) → P s → LeavesState P (round s))
    → (n : ℕ) (progress : Bool) (s : S) → P s
    → LeavesState P (repeat round n progress s)
unfolding repeat
repeat-LeavesState P round h zero progress s p = tt
repeat-LeavesState {S} P round h (suc n) progress s p =
    Leaves-bind (λ (t : Bool × S). P t.1) _ (round s) _
      (λ t q.
        if_elim (LeavesState P) t.0 _ _ (λ _. repeat-LeavesState P round h n true t.1 q) (λ _. q))
      (h s p)
