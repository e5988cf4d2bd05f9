-- ===== src/Wrapper/Frontend/Range.antt =====
-- The range check of `_handle_cbe_frontend` in src/lib/vfs/cbe/vfs.cc, without the wrap-around.
use cbe.Prelude.{ℕ, ◌≤◌, ◌+◌, ◌<◌, ◌^◌, ◌≡◌, false, true, ◌↔◌, arith, ◌⊎◌, Bool-cases, inl, inr}
use cbe.Types.{Request}
use cbe.Interfaces.{Library}
use cbe.Wrapper.{Wrapper, frontend_pending, FrontendState, set_frontend}
use cbe.Wrapper.Frontend.Admit.{submit_frontend, out_of_range, go, stop}

-- All blocks of the request exist.
abbrev pub InRange : Request → ℕ → Type 0
InRange r max = (r.block_number ≤ max) × (r.block_number + r.count ≤ max + 1)

-- On 64-bit numbers, with a highest address that is not the very last one, the three tests of the
-- source reject exactly the requests that name a block which does not exist.
pub out_of_range_iff :
    {L : Type 0} (lib : Library L) (r : Request) (l : L)
    → r.block_number < 2 ^ 64
    → r.count < 2 ^ 64
    → Library.max_vba lib l + 1 < 2 ^ 64
    → (out_of_range lib r l ≡ false) ↔ InRange r (Library.max_vba lib l)
unfolding out_of_range
out_of_range_iff lib r l hb hc hm = (λ h. ground arith, λ h. ground arith)

module _ {L C H : Type 0} (lib : Library L) (w : Wrapper L C H) where
  -- On 64-bit numbers, with a highest address that is not the very last one, a pending request of
  -- the client is submitted to the CBE only if all its blocks exist. One that names a block which
  -- does not exist ends as `ERROR_EOF`, with nothing else changed; one whose blocks exist is
  -- submitted, with its snapshot, as soon as the CBE accepts a request, and waits unchanged until
  -- then.
  pub submit_frontend_range :
      frontend_pending w.frontend ≡ true
      → w.frontend.cbe_request.block_number < 2 ^ 64
      → w.frontend.cbe_request.count < 2 ^ 64
      → Library.max_vba lib w.cbe + 1 < 2 ^ 64
      → let r = w.frontend.cbe_request in
        (InRange r (Library.max_vba lib w.cbe)
          × (Library.client_request_acceptable lib w.cbe ≡ true)
          × (submit_frontend lib w
              ≡ go false (record w {
                cbe = Library.submit_client_request lib r w.frontend.snap_id w.cbe;
                frontend = record w.frontend { state = FrontendState.in_progress };
              })))
        ⊎ (InRange r (Library.max_vba lib w.cbe)
            × (Library.client_request_acceptable lib w.cbe ≡ false)
            × (submit_frontend lib w ≡ go false w))
        ⊎ ((¬ InRange r (Library.max_vba lib w.cbe))
            × (submit_frontend lib w ≡ stop false (set_frontend FrontendState.error_eof w)))
  unfolding submit_frontend
  submit_frontend_range p hb hc hm =
      elim (Bool-cases (out_of_range lib w.frontend.cbe_request w.cbe)) [
        | inl out ↦ inr (
            inr (
              (λ i.
                  ground (arith, (out_of_range_iff lib w.frontend.cbe_request w.cbe hb hc hm).1 i)),
              ground arith,
            ))
        | inr fits ↦ elim (Bool-cases (Library.client_request_acceptable lib w.cbe)) [
          | inl free ↦ inl (
            (out_of_range_iff lib w.frontend.cbe_request w.cbe hb hc hm).0 fits,
            free,
            ground arith,
          )
          | inr busy ↦ inr (
              inl (
                (out_of_range_iff lib w.frontend.cbe_request w.cbe hb hc hm).0 fits,
                busy,
                ground arith,
              ))
        ]
      ]
