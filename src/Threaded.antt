-- ===== src/Threaded.antt =====
-- solutions/device_threaded_solution.cpp: the Poller's thread and the main thread, which makes and
-- destroys Sessions, over the devices of exercises/fakedevice. A context is its place in `g_contexts`,
-- which is also the number of the Session that made it and of its Sink. A step is what a thread does
-- between two accesses to what the threads share: the job queue, `stop_`, the promise of FlushAndWait,
-- and each Sink. What the poller's thread alone touches, every call of the SDK among it, goes with one
-- job or with one turn of the loop in PollAll.
pub mod Samples
pub mod Plan
pub mod Invariant
pub mod Flow
pub mod Devices
pub mod Calls
pub mod Poller
pub mod Jobs
pub mod Run
pub mod Sessions
pub mod Safe
pub mod Outcome
pub mod Drain
pub mod Ends
pub mod Promise
pub mod Wakes
use going_unmanaged.Prelude.{
  ℕ, ◌+◌, ◌-◌, ◌<◌, ◌≡◌, List, [], ◌∷◌, ◌++◌, Option, none, some, Bool, true, false, not, ◌||◌,
  if◌then◌else◌, ltb, ◌==◌, Bytes, codes,
}
use going_unmanaged.Device.{
  DeviceHandle, sensor0, sensor1, sensor2, sensor3, same, DevErr, dev_ok, Sdk, closed_sdk,
  device_open, device_close, device_set_callback, device_poll, inject_samples,
}

-- `owned` is the reference in `sink_` of its Session, `kept` the number of those that the main thread
-- took with Session::sink.
pub record Sink : Type 0 where
  pub owned : Bool
  pub kept : ℕ
  pub alive : Bool
  pub samples : List ℕ

-- A name of kNames is the device that it is the name of.
abbrev pub Name : Type 0
Name = DeviceHandle

abbrev pub k_names : Name → Bytes
k_names sensor0 = codes "sensor0"
k_names sensor1 = codes "sensor1"
k_names sensor2 = codes "sensor2"
k_names sensor3 = codes "sensor3"

-- kBatch
abbrev pub k_batch : ℕ
k_batch = 8

-- The functions that are posted, with what they captured: those of the constructor and the destructor
-- of Session, that of FlushAndWait and what it does behind its PollAll, and the one that sets `stream`.
pub data Job : Type 0 where
  open_job : Name → ℕ → Job
  close_job : Name → Job
  flush_job set_value stream_job : Job

-- Where the poller's thread is in Run: before the test of `stop_`, the swap in Drain, the jobs of the
-- batch and then PollAll; then the last swap, the last jobs, and the end.
pub data Phase : Type 0 where
  testing swapping running last_swap last_run finished : Phase

-- Where the main thread is: between two statements of `main`, in ~Session behind either of its two
-- steps, in `wait.wait()`, or in StopAndJoin.
pub data Main : Type 0 where
  ready : Main
  told : Name → ℕ → Main
  asked : ℕ → Main
  waiting joining : Main

-- The Sessions are found by their names. Of the poller's thread: its State, the rest of the batch, the
-- rest of the loop in PollAll, the rest of the calls that Device_Poll makes, and the call in which the
-- Sink is locked.
pub record State : Type 0 where
  pub sinks : ℕ → Sink
  pub contexts : ℕ
  pub sessions : Name → Option ℕ
  pub main : Main
  pub jobs : List Job
  pub stop : Bool
  pub kept_promise : Bool
  pub sdk : Sdk ℕ
  pub opened : Name → Option (Option DeviceHandle)
  pub stream : Bool
  pub phase : Phase
  pub batch : List Job
  pub polls : List (Option DeviceHandle)
  pub calls : List (ℕ × ℕ)
  pub in_flight : Option (ℕ × ℕ)
  pub delivered : ℕ

abbrev pub no_sink : Sink
no_sink = record { owned = false; kept = 0; alive = false; samples = [] }

-- Before Start.
unfoldable pub initial : State
unfolding closed_sdk
initial = record {
  sinks = λ c. no_sink;
  contexts = 0;
  sessions = λ n. none;
  main = ready;
  jobs = [];
  stop = false;
  kept_promise = false;
  sdk = closed_sdk;
  opened = λ n. none;
  stream = false;
  phase = testing;
  batch = [];
  polls = [];
  calls = [];
  in_flight = none;
  delivered = 0;
}

abbrev pub set_sink : ℕ → Sink → State → State
set_sink c x s = record s { sinks = λ d. if c == d then x else s.sinks d }

abbrev pub set_name : {A : Type 0} → Name → A → (Name → A) → Name → A
set_name n x f = λ m. if same n m then x else f m

abbrev pub is_ok : DevErr → Bool
is_ok DevErr.dev_ok = true
is_ok DevErr.dev_null_param = false
is_ok DevErr.dev_not_found = false
is_ok DevErr.dev_closed = false
is_ok DevErr.dev_busy = false

-- The handles in `open`, in the order of the names.
abbrev pub entry : Option (Option DeviceHandle) → List (Option DeviceHandle)
entry none = []
entry (some h) = h ∷ []

unfoldable pub entries : (Name → Option (Option DeviceHandle)) → List (Option DeviceHandle)
entries f = entry (f sensor0) ++ entry (f sensor1) ++ entry (f sensor2) ++ entry (f sensor3)

-- `st.open.emplace(name, h)`, which leaves a name that is there as it is.
abbrev pub emplace : Option (Option DeviceHandle) → Option DeviceHandle → Option DeviceHandle
emplace none h = h
emplace (some old) h = old

-- The job of Session's constructor; `none` is an assertion that failed, as in all of the poller's code.
unfoldable pub open_device : Name → ℕ → State → Option State
unfolding device_open device_set_callback inject_samples
open_device n c s =
    let (e, h, sdk) = device_open (some (k_names n)) true s.sdk in
    if not (is_ok e)
    then none
    else (let (e', sdk') = device_set_callback h (some c) sdk in
        if not (is_ok e')
        then none
        else (let (e'', sdk'') = inject_samples h k_batch sdk' in
            if not (is_ok e'')
            then none
            else some (record s {
              sdk = sdk'';
              opened = set_name n (some (emplace (s.opened n) h)) s.opened;
            })))

-- The job of Session's destructor, with State::Take.
unfoldable pub close_device : Name → State → Option State
unfolding device_set_callback device_close
close_device n s = elim (s.opened n) [
  | none ↦ none
  | some h ↦
      let (e, sdk) = device_set_callback h none s.sdk in
      let (e', sdk') = device_close h sdk in
      if not (is_ok e')
      then none
      else some (record s { sdk = sdk'; opened = set_name n none s.opened })
]

unfoldable pub run_job : Job → State → Option State
unfolding open_device close_device entries
run_job (open_job n c) s = open_device n c s
run_job (close_job n) s = close_device n s
run_job flush_job s = some (record s { polls = entries s.opened; batch = set_value ∷ s.batch })
run_job set_value s = some (record s { kept_promise = true })
run_job stream_job s = some (record s { stream = true })

-- One turn of the loop in PollAll, up to the calls that Device_Poll makes.
unfoldable pub poll_entry : Option DeviceHandle → State → State
unfolding inject_samples device_poll
poll_entry h s =
    let (e, sdk) = inject_samples h k_batch s.sdk in
    let (e', calls, sdk') = device_poll h (if s.stream then sdk else s.sdk) in
    record s { sdk = sdk'; calls = calls }

-- Trampoline, up to the lock: the context finds the Sink while someone has a reference to it.
unfoldable pub trampoline : ℕ → ℕ → State → State
trampoline c sample s =
    if (s.sinks c).owned || ltb 0 (s.sinks c).kept
    then record s { in_flight = some (c, sample) }
    else s

-- Trampoline, under the lock.
unfoldable pub deliver : ℕ → ℕ → State → State
deliver c sample s =
    if not (s.sinks c).alive
    then record s { in_flight = none }
    else record (set_sink c (record (s.sinks c) { samples = (s.sinks c).samples ++ sample ∷ [] })
        s) { in_flight = none; delivered = s.delivered + 1 }

-- `state_.open.empty()`
unfoldable pub is_empty : List (Option DeviceHandle) → Bool
is_empty [] = true
is_empty (h ∷ hs) = false

-- The statements of Run, when nothing of the batch or of PollAll is left.
unfoldable pub run_phase : Phase → State → Option State
unfolding entries is_empty
run_phase testing s = some (record s { phase = if s.stop then last_swap else swapping })
run_phase swapping s = some (record s { batch = s.jobs; jobs = []; phase = running })
run_phase running s = some (record s { polls = entries s.opened; phase = testing })
run_phase last_swap s = some (record s { batch = s.jobs; jobs = []; phase = last_run })
run_phase last_run s =
    if is_empty (entries s.opened) then some (record s { phase = finished }) else none
run_phase finished s = some s

-- What the poller's thread does next.
unfoldable pub poller : State → Option State
unfolding deliver trampoline poll_entry run_job run_phase
poller s = elim s.in_flight [
  | some (c, sample) ↦ some (deliver c sample s)
  | none ↦ elim s.calls [
    | (c, sample) ∷ calls ↦ some (trampoline c sample (record s { calls = calls }))
    | [] ↦ elim s.polls [
      | h ∷ polls ↦ some (poll_entry h (record s { polls = polls }))
      | [] ↦ elim s.batch [
        | job ∷ batch ↦ run_job job (record s { batch = batch })
        | [] ↦ run_phase s.phase s
      ]
    ]
  ]
]

-- Poller::Post
abbrev pub post : Job → State → State
post job s = record s { jobs = s.jobs ++ job ∷ [] }

-- The Sink of a new Session.
abbrev pub new_sink : Sink
new_sink = record { owned = true; kept = 0; alive = true; samples = [] }

-- Session's constructor, with NewContext.
unfoldable pub construct : Name → State → State
construct n s = post (open_job n s.contexts) (record (set_sink s.contexts new_sink s) {
  contexts = s.contexts + 1;
  sessions = set_name n (some s.contexts) s.sessions;
})

-- Session's destructor: the flag under the lock, the job, and the member.
unfoldable pub tell : Name → ℕ → State → State
tell n c s = record (set_sink c (record (s.sinks c) { alive = false }) s) { main = told n c }

unfoldable pub ask : Name → ℕ → State → State
ask n c s = post (close_job n) (record s { main = asked c; sessions = set_name n none s.sessions })

unfoldable pub leave : ℕ → State → State
leave c s = record (set_sink c (record (s.sinks c) { owned = false }) s) { main = ready }

-- Session::sink, and the end of what it gave.
unfoldable pub keep : ℕ → State → State
keep c s = set_sink c (record (s.sinks c) { kept = (s.sinks c).kept + 1 }) s

unfoldable pub release : ℕ → State → State
release c s = set_sink c (record (s.sinks c) { kept = (s.sinks c).kept - 1 }) s

-- FlushAndWait, up to the wait.
unfoldable pub flush : State → State
flush s = post flush_job (record s { main = waiting; kept_promise = false })

-- The steps of the main thread and of the poller's. `main` makes no two Sessions with one name at a time
-- and stops when it has none.
pub data Step (s : State) : State → Type 0 where
  constructs : (n : Name) → s.main ≡ ready → s.sessions n ≡ none → Step s (construct n s)
  tells : (n : Name) (c : ℕ) → s.main ≡ ready → s.sessions n ≡ some c → Step s (tell n c s)
  asks : (n : Name) (c : ℕ) → s.main ≡ told n c → Step s (ask n c s)
  leaves : (c : ℕ) → s.main ≡ asked c → Step s (leave c s)
  keeps : (n : Name) (c : ℕ) → s.main ≡ ready → s.sessions n ≡ some c → Step s (keep c s)
  releases : (c : ℕ) → s.main ≡ ready → 0 < (s.sinks c).kept → Step s (release c s)
  flushes : s.main ≡ ready → Step s (flush s)
  wakes : s.main ≡ waiting → s.kept_promise ≡ true → Step s (record s { main = ready })
  streams : s.main ≡ ready → Step s (post stream_job s)
  stops :
      s.main ≡ ready
      → ((n : Name) → s.sessions n ≡ none)
      → Step s (record s { stop = true; main = joining })
  polls : {t : State} → poller s ≡ some t → Step s t

pub data Reach : State → Type 0 where
  here : Reach initial
  next : {s t : State} → Reach s → Step s t → Reach t
