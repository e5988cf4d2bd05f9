-- ===== src/Tools/Runs.antt =====
-- When src/app/cbe_init/main.cc, src/app/cbe_check/main.cc and src/app/cbe_dump/main.cc exit.
use cbe.Prelude.{
  ℕ, zero, suc, Bool, true, false, ◌≡◌, ◌∙◌, ◌==◌, ◌⊎◌, inl, inr, refl, ap, subst, Result, ok, [],
  ◌∷◌, if_elim, arith, Leaves, Leaves-bind, if◌then◌else◌,
}
use cbe.Types.{valid}
use cbe.Interfaces.Session.{BlockSession, JobLibrary, ExitCode, exit_minus_one}
use cbe.BlockIo.{Backend, exchange}
use cbe.Tools.{
  Tool, run_library, report, pass, execute, supported, checked_acceptable, submit_job, exit,
}
use cbe.Tools.Pending.{OneJob, exchange-Same}

-- Where a program stands: its request is with the library, and it has not exited; or the request is
-- not there, or not any more, and it has exited once.
pub data Once {J K A : Type 0} {lib : JobLibrary J A} (one : OneJob lib) (t : Tool J K)
    : Type 0 where
  busy : t.exits ≡ [] → OneJob.pending one t.backend.source ≡ true → Once one t
  left :
      (code : ExitCode)
      → t.exits ≡ code ∷ []
      → OneJob.pending one t.backend.source ≡ false
      → Once one t

module _ {J K A : Type 0} (lib : JobLibrary J A) (blk : BlockSession K) (syncs : Bool) (ratio : ℕ)
    (one : OneJob lib) where
  -- What leaves the exits and the request.
  moved :
      (t u : Tool J K)
      → u.exits ≡ t.exits
      → one.pending u.backend.source ≡ one.pending t.backend.source
      → Once one t
      → Once one u
  moved t u e p (busy x b) = busy (e ∙ x) (p ∙ b)
  moved t u e p (left code x b) = left code (e ∙ x) (p ∙ b)

  reported :
      (t : Tool J K) (code : ExitCode)
      → valid (JobLibrary.peek_completed_client_request lib t.backend.source) ≡ true
      → Once one t
      → Once one (record {
        backend = record t.backend {
          source =
              JobLibrary.drop_completed_client_request lib
                (JobLibrary.peek_completed_client_request lib t.backend.source)
                t.backend.source;
        };
        exits = code ∷ t.exits;
      })
  reported t code v (busy x b) = left code (ap (λ l. code ∷ l) x) (one.dropped _ _)
  reported t code v (left c x b) = absurd (let p = one.peeked t.backend.source v in ground arith)

  report-Once : (t : Tool J K) → Once one t → Once one (report lib blk syncs ratio t)
  unfolding report
  report-Once t o =
      if_elim (Once one) (valid (JobLibrary.peek_completed_client_request lib t.backend.source)) _ _
        (λ v. reported t _ v o) (λ _. o)

  pass-Once :
      (t : Tool J K)
      → Once one t
      → Leaves (λ (r : Bool × Tool J K). Once one r.1) (pass lib blk syncs ratio t)
  unfolding pass run_library
  pass-Once t o =
      let (progress, ran) = run_library lib blk syncs ratio t in
      let u = report lib blk syncs ratio ran in
      let here = report-Once ran (moved t ran refl (one.executed _ _) o) in
      Leaves-bind
        (λ (e : Bool × Backend J K).
          one.pending (Backend.source e.1) ≡ one.pending u.backend.source)
        _ (exchange (JobLibrary.io lib) blk syncs ratio progress u.backend) _
        (λ e same. moved u (record u { backend = e.1 }) refl same here)
        (exchange-Same lib blk syncs ratio one _ progress u.backend refl)

  pub execute-Once :
      (fuel : ℕ) (t : Tool J K)
      → Once one t
      → Leaves (Once one) (execute lib blk syncs ratio fuel t)
  unfolding execute
  execute-Once zero t o = tt
  execute-Once (suc fuel) t o =
      Leaves-bind (λ (r : Bool × Tool J K). Once one r.1) _ (pass lib blk syncs ratio t) _
        (λ r p.
          if_elim (Leaves (Once one)) r.0 _ _ (λ _. execute-Once fuel r.1 p)
            (λ _. moved r.1 _ refl refl p))
        (pass-Once t o)

  -- From a program that was started by `start` on, its states between the signals of the block
  -- session, which goes on by itself.
  pub data Reach (start : ℕ → Result (Tool J K)) : Tool J K → Type 0 where
    started : (fuel : ℕ) (t : Tool J K) → start fuel ≡ ok t → Reach start t
    signalled :
        (fuel : ℕ) (t u : Tool J K) (k : K)
        → Reach start t
        → execute lib blk syncs ratio fuel (record t { backend = record t.backend { session = k } })
          ≡ ok u
        → Reach start u

  pub Reach-Once :
      {start : ℕ → Result (Tool J K)} {t : Tool J K}
      → ((fuel : ℕ) → Leaves (Once one) (start fuel))
      → Reach start t
      → Once one t
  Reach-Once h (started fuel t e) = subst (Leaves (Once one)) e (h fuel)
  Reach-Once h (signalled fuel t u k r e) =
      subst (Leaves (Once one)) e (execute-Once fuel _ (moved t _ refl refl (Reach-Once h r)))

  -- the start of a program whose library takes the request
  module _ (t : Tool J K) (quiet : t.exits ≡ []) (idle : one.pending t.backend.source ≡ false)
      (takes : JobLibrary.client_request_acceptable lib t.backend.source ≡ true) where
    supported-cases :
        (supported lib blk syncs ratio t ≡ (false, exit exit_minus_one t))
        ⊎ (supported lib blk syncs ratio t ≡ (true, t))
    unfolding supported
    supported-cases =
        if_elim (λ r. (r ≡ (false, exit exit_minus_one t)) ⊎ (r ≡ (true, t))) (ratio == 0) _ _
          (λ _. inl refl) (λ _. inr refl)

    pub refused : Once one (exit exit_minus_one t)
    refused = left exit_minus_one (ap (λ l. exit_minus_one ∷ l) quiet) idle

    pub begun :
        (fuel : ℕ) (a : A)
        → Leaves (Once one) (
            execute lib blk syncs ratio fuel
              (submit_job lib blk syncs ratio a (checked_acceptable lib blk syncs ratio t)))
    unfolding submit_job checked_acceptable
    begun fuel a = rw takes (execute-Once fuel _ (busy quiet (one.submitted _ _ _)))

    pub supported-Once :
        (f : Tool J K → Result (Tool J K))
        → Leaves (Once one) (f t)
        → Leaves (Once one) (
            if (supported lib blk syncs ratio t).0
            then f (supported lib blk syncs ratio t).1
            else ok (supported lib blk syncs ratio t).1)
    supported-Once f h = elim supported-cases [ inl e ↦ rw e refused | inr e ↦ rw e h ]
