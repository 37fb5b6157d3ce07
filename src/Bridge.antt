-- ===== src/Bridge.antt =====
-- exercises/bridgelab: host.h, main_thread_queue.h and bridge_core.h. The queue's mutex makes Post and
-- the swap of Drain one step each. A future is the number of its job among those posted, and is ready
-- when there are more answers than that. The main thread is asserted by the stub host and is taken for
-- granted here: only Drain and Invoke on the main thread run a job. A job that is run has left the batch:
-- the batch is local to Drain, and no job can see whether its pop is before it or behind it.
pub mod Order
pub mod Loop
pub mod Drain
use going_unmanaged.Prelude.{
  ℕ, suc, List, [], ◌∷◌, ◌++◌, Option, none, some, Bool, true, false, not, if◌then◌else◌, Bytes,
  codes, bytes_eq, length, ◌>>=◌,
}

pub record CommandResult : Type 0 where
  pub done : Bool
  pub text : Bytes

-- StubHostAdapter.
pub record Host : Type 0 where
  pub modal : Bool
  pub undo : List Bytes

unfoldable pub is_idle : Host → Bool
is_idle h = not h.modal

unfoldable pub set_modal : Bool → Host → Host
set_modal modal h = record h { modal = modal }

-- What a callable leaves in its future: a result of a command, a number, or the exception that it threw.
pub data Completion : Type 0 where
  returned : CommandResult → Completion
  number : ℕ → Completion
  thrown : Completion

-- A callable that comes to its end, by what it does: it ends, it reads and writes the host, it calls Post
-- and gets a future, or it calls Drain and gets how many jobs ran. An Invoke that it calls is, on the main
-- thread, the job of that Invoke in its place.
pub data Job : Type 0 where
  gives : Completion → Job
  with_host : (Host → Host) → (Host → Job) → Job
  calls_post : Job → (ℕ → Job) → Job
  calls_drain : (ℕ → Job) → Job

abbrev pub Handler : Type 0
Handler = Bytes → Job

abbrev pub host_busy : CommandResult
host_busy = record { done = false; text = codes "HOST_BUSY" }

unfoldable pub push_undo : Bytes → Host → Host
push_undo label h = record h { undo = h.undo ++ label ∷ [] }

unfoldable pub after_body : Bytes → Completion → Job
unfolding push_undo
after_body label (returned r) =
    if r.done then with_host (push_undo label) (λ h. gives (returned r)) else gives (returned r)
after_body label (number n) = gives (number n)
after_body label thrown = gives thrown

-- RunUndoable with its body: what it throws leaves RunUndoable as it is.
unfoldable pub run_undoable : Bytes → Job → Job
unfolding after_body
run_undoable label (gives c) = after_body label c
run_undoable label (with_host f next) = with_host f (λ h. run_undoable label (next h))
run_undoable label (calls_post j next) = calls_post j (λ n. run_undoable label (next n))
run_undoable label (calls_drain next) = calls_drain (λ n. run_undoable label (next n))

-- The job of Invoke.
unfoldable pub invoke_job : Handler → Bytes → Job
unfolding is_idle
invoke_job handler args =
    with_host (λ h. h) (λ h. if not (is_idle h) then gives (returned host_busy) else handler args)

-- The queue with the local `batch` of the Drain that is running and what is left of the job that it runs,
-- the host, and a record of what was posted, what was begun, and what each future got.
pub record State : Type 0 where
  pub host : Host
  pub jobs : List Job
  pub batch : List Job
  pub current : Option Job
  pub draining : Bool
  pub posted : List Job
  pub ran : List Job
  pub answers : List Completion

unfoldable pub initial : Host → State
initial host = record {
  host = host;
  jobs = [];
  batch = [];
  current = none;
  draining = false;
  posted = [];
  ran = [];
  answers = [];
}

unfoldable pub post : Job → State → State
post j s = record s { jobs = s.jobs ++ j ∷ []; posted = s.posted ++ j ∷ [] }

-- Drain up to its loop, the start and the end of a round of the loop, and the end of Drain.
unfoldable pub drain_begin : State → State
drain_begin s = record s { draining = true; batch = s.jobs; jobs = [] }

unfoldable pub take_front : Job → List Job → State → State
take_front j rest s = record s { batch = rest; current = some j; ran = s.ran ++ j ∷ [] }

unfoldable pub job_done : Completion → State → State
job_done c s = record s { current = none; answers = s.answers ++ c ∷ [] }

unfoldable pub drain_end : State → State
drain_end s = record s { draining = false }

-- A Drain that a job of a Drain calls, as far as its first line: `none` is one that does not return there.
unfoldable pub drain_nested : State → Option (ℕ × State)
drain_nested s = if s.draining then some (0, s) else none

-- The next thing that the job of the running Drain does.
unfoldable pub act : Job → State → Option State
unfolding post job_done drain_nested
act (gives c) s = some (job_done c s)
act (with_host f next) s = some (record s { host = f s.host; current = some (next s.host) })
act (calls_post j next) s = some (record (post j s) { current = some (next (length s.posted)) })
act (calls_drain next) s = do (n, t) ← drain_nested s; some (record t { current = some (next n) })

-- A whole call with no other thread in between, by what Drain does in it.
unfoldable pub call : (State → Option (ℕ × State)) → Job → State → Option (Completion × State)
unfolding post
call drain (gives c) s = some (c, s)
call drain (with_host f next) s = call drain (next s.host) (record s { host = f s.host })
call drain (calls_post j next) s = call drain (next (length s.posted)) (post j s)
call drain (calls_drain next) s = do (n, t) ← drain s; call drain (next n) t

-- The loop of Drain with no other thread in between, and Drain.
unfoldable pub drain_loop : List Job → State → Option State
unfolding take_front call drain_nested job_done
drain_loop [] s = some s
drain_loop (j ∷ rest) s = do
  (c, t) ← call drain_nested j (take_front j rest s)
  drain_loop rest (job_done c t)

unfoldable pub drain : State → Option (ℕ × State)
unfolding drain_begin drain_loop drain_end
drain s =
    if s.draining
    then some (0, s)
    else do t ← drain_loop s.jobs (drain_begin s); some (length s.jobs, drain_end t)

-- BridgeCore.
pub record Core : Type 0 where
  pub started : Bool
  pub handlers : List (Bytes × Handler)

-- Later entries stand in front, so that they replace earlier ones.
unfoldable pub find_handler : Bytes → List (Bytes × Handler) → Option Handler
find_handler name [] = none
find_handler name ((n, h) ∷ hs) = if bytes_eq n name then some h else find_handler name hs

-- RegisterCommand and Start; a failed assertion is `none`.
unfoldable pub register_command : Bytes → Handler → Core → Option Core
register_command name handler b =
    if b.started then none else some (record b { handlers = (name, handler) ∷ b.handlers })

unfoldable pub start : Core → Core
start b = record b { started = true }

-- No future comes of an Invoke that a job on the main thread throws out of.
pub data Future : Type 0 where
  ready : CommandResult → Future
  ticket : ℕ → Future
  escapes : Future

-- A job of Invoke gives a result or throws.
abbrev pub ready_of : Completion → Future
ready_of (returned r) = ready r
ready_of (number n) = escapes
ready_of thrown = escapes

-- Invoke, by whether the caller is on the main thread.
unfoldable pub invoke : Bool → Bytes → Bytes → Core → State → Option (Future × State)
unfolding find_handler invoke_job call drain post
invoke on_main name args b s = if not b.started then none else elim (find_handler name b.handlers) [
  | none ↦ some (ready (record { done = false; text = codes "NO_SUCH_COMMAND: " ++ name }), s)
  | some handler ↦
      let job = invoke_job handler args in
      if on_main
      then (do (c, t) ← call drain job s; some (ready_of c, t))
      else some (ticket (length s.posted), post job s)
]
