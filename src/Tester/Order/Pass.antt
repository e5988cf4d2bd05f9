-- ===== src/Tester/Order/Pass.antt =====
-- The order of the tests over `Main::_execute_cbe` in src/app/cbe_tester/main.cc, stage by stage.
use cbe.Wrapper.Encryption.Rounds.{repeat-LeavesState}
use cbe.Prelude.{Leaves-bind, Every, nothing, ◌&◌, ℕ, Bool, false, ◌||◌, Result, List, [], ◌∷◌}
use cbe.Wrapper.Encryption.{repeat}
use cbe.Tester.{Test}
use cbe.Tester.Main.{Parts, M}
use cbe.Tester.Execute.{run_stages, client_stages, backend_stages, execute_cbe}
use cbe.Tester.Order.Stages.{
  InOrder, Goes, accept_requests-Goes, acknowledge-Goes, start_create-Goes, end_create-Goes,
  start_discard-Goes, end_discard-Goes,
}
use cbe.Tester.Order.Background.{
  start_deinitialize-Goes, end_deinitialize-Goes, list_snapshots-Goes, start_rekey-Goes,
  end_rekey-Goes, start_extend_vbd-Goes, end_extend_vbd-Goes, start_extend_ft-Goes,
  end_extend_ft-Goes,
}
use cbe.Tester.Order.Exchange.{
  execute_library-Steps, obtain_data-Steps, supply_data-Steps, submit_io-Steps,
  acknowledge_io-Steps, execute_crypto-Steps, add_key-Steps, remove_key-Steps,
  submit_encryption-Steps, finish_encryption-Steps, submit_decryption-Steps,
  finish_decryption-Steps, settle_state-Steps, Steps,
}

module _ {L C K Jc Jd Ji D : Type 0} (env : Parts L C K Jc Jd Ji D)
    (configured : List (Test D)) where
  abbrev I : M env → Type 0
  I = InOrder env configured

  abbrev G : Result (Bool × M env) → Type 0
  G = Goes env configured

  abbrev Step : (M env → Result (Bool × M env)) → Type 0
  Step = Steps env configured

  repeat-Step :
      (round : M env → Result (Bool × M env)) (n : ℕ) (progress : Bool)
      → Step round
      → Step (repeat round n progress)
  repeat-Step round n progress h m o = repeat-LeavesState I round h n progress m o

  run_stages-Step :
      (l : List (M env → Result (Bool × M env))) (progress : Bool)
      → Every Step l
      → Step (run_stages env l progress)
  unfolding run_stages
  run_stages-Step [] progress nothing m o = o
  run_stages-Step (stage ∷ rest) progress (h & k) m o =
      Leaves-bind (λ (s : Bool × M env). I s.1) _ (stage m) _
        (λ t p. run_stages-Step rest (progress || t.0) k t.1 p) (h m o)

  -- The stages of `_execute_cbe` that start and end a test.
  client_stages-Every : Every Step (client_stages env)
  unfolding client_stages
  client_stages-Every =
      accept_requests-Goes env configured
      & acknowledge-Goes env configured
      & start_create-Goes env configured
      & end_create-Goes env configured
      & start_discard-Goes env configured
      & end_discard-Goes env configured
      & start_deinitialize-Goes env configured
      & end_deinitialize-Goes env configured
      & list_snapshots-Goes env configured
      & start_rekey-Goes env configured
      & end_rekey-Goes env configured
      & start_extend_vbd-Goes env configured
      & end_extend_vbd-Goes env configured
      & start_extend_ft-Goes env configured
      & end_extend_ft-Goes env configured
      & execute_library-Steps env configured
      & obtain_data-Steps env configured
      & supply_data-Steps env configured
      & nothing

  backend_stages-Every : (fuel : ℕ) → Every Step (backend_stages env fuel)
  unfolding backend_stages
  backend_stages-Every fuel =
      submit_io-Steps env configured
      & acknowledge_io-Steps env configured
      & execute_crypto-Steps env configured
      & repeat-Step _ fuel false (add_key-Steps env configured)
      & repeat-Step _ fuel false (remove_key-Steps env configured)
      & repeat-Step _ fuel false (submit_encryption-Steps env configured)
      & repeat-Step _ fuel false (finish_encryption-Steps env configured)
      & repeat-Step _ fuel false (submit_decryption-Steps env configured)
      & repeat-Step _ fuel false (finish_decryption-Steps env configured)
      & settle_state-Steps env configured
      & nothing

  pub execute_cbe-Step : (fuel : ℕ) (progress : Bool) → Step (execute_cbe env fuel progress)
  unfolding execute_cbe
  execute_cbe-Step fuel progress m o =
      Leaves-bind (λ (s : Bool × M env). I s.1) _ (run_stages env (client_stages env) progress m) _
        (λ t p. run_stages-Step (backend_stages env fuel) t.0 (backend_stages-Every fuel) t.1 p)
        (run_stages-Step (client_stages env) progress client_stages-Every m o)
