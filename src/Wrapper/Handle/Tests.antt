-- ===== src/Wrapper/Handle/Tests.antt =====
-- A call of `handle_frontend_request` of src/lib/vfs/cbe/vfs.cc on a plugin that has been given an
-- unaligned write, which takes a helper read and a helper write.
use cbe.Wrapper.Handle.Settled.{handle_frontend_request-Settled}
use cbe.Wrapper.Frontend.Settled.{Settled}
use cbe.Wrapper.Handle.Keeps.{fresh_wrapper-IsValid, submit_frontend_request-IsValid}
use cbe.Wrapper.Frontend.Invariant.{IsValid}
use cbe.Wrapper.Handle.{handle_frontend_request}
use cbe.Wrapper.Submit.{submit_frontend_request}
use cbe.Prelude.{Result, Bool, ok, ℕ, ◌≡◌, throw, true, false, refl}
use cbe.Types.{Request, Operation}
use cbe.Interfaces.Samples.{
  Disk, prompt_library, prompt_library-Answers, prompt_library-HasRoom, quiet_crypto, disk_file,
}
use cbe.Interfaces.{Buffers}
use cbe.Wrapper.{Wrapper, FrontendState, fresh_wrapper, helper_pending}

abbrev disk : Disk
disk = record { at = 0; bytes = λ i. 0 }

abbrev buffers : Buffers
buffers = record { io_data = λ i. 0; plain_data = λ i. 0; cipher_data = λ i. 0 }

abbrev plugin : Wrapper Request ℕ Disk
plugin = fresh_wrapper prompt_library 0 disk buffers (λ i. 0) 8192 16384

-- The five bytes from the file's offset 100 on are to be written from the address 4096.
abbrev writing : Wrapper Request ℕ Disk
writing = (submit_frontend_request 100 4096 5 Operation.write 0 plugin).1

or_else : {A : Type 0} → A → Result A → A
or_else d (ok t) = t
or_else d (throw e) = d

abbrev is_ok : {A : Type 0} → Result A → Bool
is_ok (ok t) = true
is_ok (throw e) = false

or_else-ok : {A : Type 0} (d : A) (r : Result A) → is_ok r ≡ true → r ≡ ok (or_else d r)
unfolding or_else
or_else-ok d (ok t) p = refl
or_else-ok d (throw e) p = cc

handled : Wrapper Request ℕ Disk
handled = or_else plugin (handle_frontend_request prompt_library quiet_crypto disk_file 9 writing)

handle_frontend_request_returns :
    handle_frontend_request prompt_library quiet_crypto disk_file 9 writing ≡ ok handled
unfolding handled handle_frontend_request fresh_wrapper submit_frontend_request
    cbe.Wrapper.Frontend.Admit.submit_frontend cbe.Wrapper.Frontend.Admit.submit_helpers
    cbe.Wrapper.Frontend.Complete.drain cbe.Wrapper.Frontend.Transfer.client_read
    cbe.Wrapper.Frontend.Transfer.client_write cbe.Wrapper.Frontend.Helper.finish_helper_write
    cbe.Wrapper.Frontend.Helper.finish_helper_read
handle_frontend_request_returns =
    or_else-ok plugin (handle_frontend_request prompt_library quiet_crypto disk_file 9 writing) refl

-- Its helper read was pending, and the request is complete.
was_pending : helper_pending writing.helper_read ≡ true
unfolding submit_frontend_request fresh_wrapper
was_pending = refl

is_complete : handled.frontend.state ≡ FrontendState.complete
unfolding handled or_else handle_frontend_request fresh_wrapper submit_frontend_request
    cbe.Wrapper.Frontend.Admit.submit_frontend cbe.Wrapper.Frontend.Admit.submit_helpers
    cbe.Wrapper.Frontend.Complete.drain cbe.Wrapper.Frontend.Transfer.client_read
    cbe.Wrapper.Frontend.Transfer.client_write cbe.Wrapper.Frontend.Helper.finish_helper_write
    cbe.Wrapper.Frontend.Helper.finish_helper_read
is_complete = refl

writing-IsValid : IsValid prompt_library prompt_library-Answers writing
writing-IsValid =
    submit_frontend_request-IsValid prompt_library prompt_library-Answers 100 4096 5 Operation.write
      0 plugin
      (fresh_wrapper-IsValid prompt_library prompt_library-Answers 0 disk buffers (λ i. 0) 8192
        16384)

handle_frontend_request-Settled_example : Settled handled
handle_frontend_request-Settled_example =
    handle_frontend_request-Settled prompt_library prompt_library-Answers prompt_library-HasRoom
      quiet_crypto disk_file 9 writing handled writing-IsValid handle_frontend_request_returns
