-- ===== src/System/Steps.antt =====
-- Every step of the system keeps the invariant.
mod Dispatch
pub mod Return
mod Close
pub mod Accept
pub mod Work
use horus_app_eval.Prelude.{ℕ}
use horus_app_eval.System.{System, Step, serve, accept, receive, take, finish, Reach, here, next}
use horus_app_eval.System.View.{Inv}
use Accept.{handle_networker-Inv}
use Work.{serve-Inv, take-Inv, complete-Inv, receive-Inv}

pub Step-Inv : {n cap room : ℕ} {s t : System} → Step n s t → Inv n cap room s → Inv n cap room t
Step-Inv {s} (serve i now t lt e) inv = serve-Inv i now s t lt inv e
Step-Inv {s} (accept now t e) inv = handle_networker-Inv now s t inv e
Step-Inv {s} (receive np requests empty batch) inv = receive-Inv s np requests inv batch
Step-Inv {s} (take i lt idle ready) inv = take-Inv i s lt inv ready
Step-Inv {s} (finish i o sent lt busy data_there) inv =
    complete-Inv i o sent s lt inv busy data_there

pub Reach-Inv : {n cap room : ℕ} {s t : System} → Reach n s t → Inv n cap room s → Inv n cap room t
Reach-Inv here inv = inv
Reach-Inv (next r st) inv = Step-Inv st (Reach-Inv r inv)
