-- ===== src/Threaded/Invariant.antt =====
-- solutions/device_threaded_solution.cpp: what holds between any two steps of the threads.
use going_unmanaged.Prelude.{
  ℕ, ◌≤◌, ◌<◌, ◌≡◌, refl, List, [], ◌++◌, Option, none, some, Bool, true, false,
}
use going_unmanaged.Device.{DeviceHandle, DeviceImpl, closed_sdk}
use going_unmanaged.Device.Session.Owned.{how_many}
use going_unmanaged.Threaded.{Sink, Name, Job, Phase, Main, State, initial, joining}
use going_unmanaged.Threaded.Samples.{Follows, Whole, coming, with_flight}
use going_unmanaged.Threaded.Plan.{events, Plan, Rising}

abbrev pub Devices : Type 0
Devices = DeviceHandle → DeviceImpl ℕ

-- Whether a device is open, by the context of its callback.
abbrev pub Linked : Name → Option ℕ → Option (Option DeviceHandle) → Bool → Type 0
Linked n none opened is_open = (opened ≡ none) × (is_open ≡ false)
Linked n (some c) opened is_open = (opened ≡ some (some n)) × (is_open ≡ true)

-- The Session of this context was told to go.
abbrev pub Gone : (ℕ → Sink) → ℕ → ℕ → Type 0
Gone sinks contexts c = (c < contexts) × ((sinks c).alive ≡ false)

-- The devices and the jobs. The contexts below `lo` were registered.
pub record Queue (lo : ℕ) (sinks : ℕ → Sink) (contexts : ℕ) (sessions : Name → Option ℕ)
    (js : List Job) (devices : Devices) (open_count : ℕ)
    (opened : Name → Option (Option DeviceHandle)) : Type 0 where
  pub linked : (n : Name) → Linked n (devices n).callback (opened n) (devices n).is_open
  pub plan : (n : Name) → Plan (Gone sinks contexts) (sessions n) (devices n).callback (events n js)
  pub rising : Rising lo contexts js
  pub early : (n : Name) (c : ℕ) → (devices n).callback ≡ some c → c < lo
  pub one :
      (n m : Name) (c : ℕ) → (devices n).callback ≡ some c → (devices m).callback ≡ some c → n ≡ m
  pub known : (n : Name) (c : ℕ) → sessions n ≡ some c → c < contexts
  pub counted : open_count ≡ how_many (λ n. (devices n).callback)

-- A Sink, with the samples that are on their way to it. While its Session is alive, none of its device's
-- batches is lost.
pub record Good (lo : ℕ) (devices : Devices) (line : List ℕ) (c : ℕ) (x : Sink) : Type 0 where
  pub unused : lo ≤ c → (line ≡ []) × (x.samples ≡ [])
  pub held : x.alive ≡ true → x.owned ≡ true
  pub whole :
      (n : Name)
      → (devices n).callback ≡ some c
      → x.alive ≡ true
      → Whole (x.samples ++ (line ++ (devices n).pending))
  pub on_the_way : x.alive ≡ true → Follows 0 (x.samples ++ line)
  pub right : Follows 0 x.samples

abbrev pub Flow : ℕ → (ℕ → Sink) → Devices → List (ℕ × ℕ) → Type 0
Flow lo sinks devices ps = (c : ℕ) → Good lo devices (coming c ps) c (sinks c)

abbrev pub MainKnows : (ℕ → Sink) → (Name → Option ℕ) → Main → Type 0
MainKnows sinks sessions Main.ready = Unit
MainKnows sinks sessions (Main.told n c) = ((sinks c).alive ≡ false) × (sessions n ≡ some c)
MainKnows sinks sessions (Main.asked c) = (sinks c).alive ≡ false
MainKnows sinks sessions Main.waiting = Unit
MainKnows sinks sessions Main.joining = (n : Name) → sessions n ≡ none

abbrev pub PhaseKnows : Main → List Job → List Job → Phase → Type 0
PhaseKnows main jobs batch Phase.testing = Unit
PhaseKnows main jobs batch Phase.swapping = Unit
PhaseKnows main jobs batch Phase.running = Unit
PhaseKnows main jobs batch Phase.last_swap = main ≡ joining
PhaseKnows main jobs batch Phase.last_run = (main ≡ joining) × (jobs ≡ [])
PhaseKnows main jobs batch Phase.finished = (main ≡ joining) × (jobs ≡ []) × (batch ≡ [])

-- Where the threads are.
pub record Places (sinks : ℕ → Sink) (sessions : Name → Option ℕ) (main : Main)
    (jobs batch : List Job) (stop : Bool) (phase : Phase) : Type 0 where
  pub main_knows : MainKnows sinks sessions main
  pub phase_knows : PhaseKnows main jobs batch phase
  pub stopped : stop ≡ true → main ≡ joining
  pub set_stop : main ≡ joining → stop ≡ true

pub record Inv (s : State) : Type 0 where
  pub lo : ℕ
  pub queue :
      Queue lo s.sinks s.contexts s.sessions
        (s.batch ++ s.jobs)
        s.sdk.devices
        s.sdk.open_count
        s.opened
  pub flow : Flow lo s.sinks s.sdk.devices (with_flight s.in_flight s.calls)
  pub places : Places s.sinks s.sessions s.main s.jobs s.batch s.stop s.phase

pub initial-Inv : Inv initial
unfolding initial closed_sdk
initial-Inv = record {
  lo = 0;
  queue = record {
    linked = λ n. (refl, refl);
    plan = λ n. refl;
    rising = refl;
    early = λ n c e. cc;
    one = λ n m c e f. cc;
    known = λ n c e. cc;
    counted = refl;
  };
  flow = λ c. record {
    unused = λ l. (refl, refl);
    held = λ e. cc;
    whole = λ n e a. cc;
    on_the_way = λ a. tt;
    right = tt;
  };
  places = record { main_knows = tt; phase_knows = tt; stopped = λ e. cc; set_stop = λ e. cc };
}
