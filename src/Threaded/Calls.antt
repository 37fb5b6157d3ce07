-- ===== src/Threaded/Calls.antt =====
-- solutions/device_threaded_solution.cpp: what the jobs' calls of the SDK do on the devices as they are.
use mathlib.Core.Path.{fun_ext}
use going_unmanaged.Prelude.{
  ℕ, ◌+◌, ◌≡◌, refl, ap, ◌∙◌, [], ◌++◌, Option, none, some, Bool-cases, true, false, inl, inr,
}
use going_unmanaged.Device.{
  sensor0, sensor1, sensor2, sensor3, DeviceImpl, Sdk, dev_ok, put, same, index_of, behind,
  device_of, samples_from, one_closed, device_open, device_close, device_set_callback,
  inject_samples, device_poll, calls_of,
}
use going_unmanaged.Device.Session.Owned.{same_refl}
use going_unmanaged.Threaded.{
  Name, State, k_names, k_batch, set_name, open_device, close_device, poll_entry,
}

put_self : (n : Name) (v : DeviceImpl ℕ) (sdk : Sdk ℕ) → (put n v sdk).devices n ≡ v
put_self n v sdk = rw (same_refl n) refl

put-put : (n : Name) (v w : DeviceImpl ℕ) (sdk : Sdk ℕ) → put n w (put n v sdk) ≡ put n w sdk
put-put n v w sdk =
    ap (λ d. record sdk { devices = d })
      (fun_ext (λ m. elim (Bool-cases (same n m)) [ inl y ↦ rw y refl | inr x ↦ rw x refl ]))

index_of-k_names : (n : Name) → index_of (k_names n) ≡ some n
unfolding index_of behind device_of
index_of-k_names sensor0 = refl
index_of-k_names sensor1 = refl
index_of-k_names sensor2 = refl
index_of-k_names sensor3 = refl

abbrev fresh_device : DeviceImpl ℕ
fresh_device = record { is_open = true; callback = none; pending = [] }

-- What Device_Open leaves.
abbrev opened_sdk : Name → DeviceImpl ℕ → Sdk ℕ → Sdk ℕ
opened_sdk n v sdk = record (put n v sdk) { open_count = sdk.open_count + 1 }

device_open-closed :
    (n : Name) (sdk : Sdk ℕ)
    → (sdk.devices n).is_open ≡ false
    → device_open (some (k_names n)) true sdk ≡ (dev_ok, some n, opened_sdk n fresh_device sdk)
unfolding device_open
device_open-closed n sdk e = rw (device_open, index_of-k_names n) (rw e refl)

device_set_callback-open :
    (n : Name) (c : Option ℕ) (sdk : Sdk ℕ)
    → (sdk.devices n).is_open ≡ true
    → device_set_callback (some n) c sdk
      ≡ (dev_ok, put n (record (sdk.devices n) { callback = c }) sdk)
unfolding device_set_callback
device_set_callback-open n c sdk e = rw e refl

inject_samples-open :
    (n : Name) (k : ℕ) (sdk : Sdk ℕ)
    → (sdk.devices n).is_open ≡ true
    → inject_samples (some n) k sdk ≡ (
      dev_ok,
      put n (record (sdk.devices n) { pending = (sdk.devices n).pending ++ samples_from 0 k }) sdk,
    )
unfolding inject_samples
inject_samples-open n k sdk e = rw e refl

device_close-open :
    (n : Name) (sdk : Sdk ℕ)
    → (sdk.devices n).is_open ≡ true
    → device_close (some n) sdk ≡ (
      dev_ok,
      record (put n (record (sdk.devices n) { is_open = false; callback = none }) sdk) {
        open_count = one_closed sdk.open_count;
      },
    )
unfolding device_close
device_close-open n sdk e = rw e refl

open_then_write :
    (n : Name) (v w : DeviceImpl ℕ) (sdk : Sdk ℕ)
    → put n w (opened_sdk n v sdk) ≡ opened_sdk n w sdk
open_then_write n v w sdk =
    ap (λ (x : Sdk ℕ). record x { open_count = sdk.open_count + 1 }) (put-put n v w sdk)

set_callback-opened :
    (n : Name) (c : ℕ) (sdk : Sdk ℕ)
    → device_set_callback (some n) (some c) (opened_sdk n fresh_device sdk)
      ≡ (dev_ok, opened_sdk n (record fresh_device { callback = some c }) sdk)
set_callback-opened n c sdk =
    let at = put_self n fresh_device sdk in
    device_set_callback-open n (some c) (opened_sdk n fresh_device sdk) (ap (λ v. v.is_open) at)
    ∙ ap (λ v. (dev_ok, put n (record v { callback = some c }) (opened_sdk n fresh_device sdk))) at
    ∙ ap (λ x. (dev_ok, x))
        (open_then_write n fresh_device (record fresh_device { callback = some c }) sdk)

inject_samples-opened :
    (n : Name) (c : ℕ) (sdk : Sdk ℕ)
    → inject_samples (some n) k_batch (opened_sdk n (record fresh_device { callback = some c }) sdk)
      ≡ (
        dev_ok,
        opened_sdk n
            (record { is_open = true; callback = some c; pending = samples_from 0 k_batch })
            sdk,
      )
inject_samples-opened n c sdk =
    let v = record fresh_device { callback = some c } in
    let at = put_self n v sdk in
    inject_samples-open n k_batch (opened_sdk n v sdk) (ap (λ v. v.is_open) at)
    ∙ ap
        (λ w. (
          dev_ok,
          put n (record w { pending = w.pending ++ samples_from 0 k_batch }) (opened_sdk n v sdk),
        ))
        at
    ∙ ap (λ x. (dev_ok, x))
        (open_then_write n v (record v { pending = samples_from 0 k_batch }) sdk)

-- What the job of the constructor leaves.
abbrev pub after_open : Name → ℕ → State → State
after_open n c s = record s {
  sdk =
      opened_sdk n (record { is_open = true; callback = some c; pending = samples_from 0 k_batch })
        s.sdk;
  opened = set_name n (some (some n)) s.opened;
}

pub open_device-closed :
    (n : Name) (c : ℕ) (s : State)
    → (s.sdk.devices n).is_open ≡ false
    → s.opened n ≡ none
    → open_device n c s ≡ some (after_open n c s)
unfolding open_device
open_device-closed n c s e f =
    rw (open_device, device_open-closed n s.sdk e)
      (rw (set_callback-opened n c s.sdk) (rw (inject_samples-opened n c s.sdk) (rw f refl)))

-- What the job of the destructor leaves.
abbrev pub after_close : Name → State → State
after_close n s = record s {
  sdk = record (put n (record (s.sdk.devices n) { is_open = false; callback = none }) s.sdk) {
    open_count = one_closed s.sdk.open_count;
  };
  opened = set_name n none s.opened;
}

set_callback-close :
    (n : Name) (sdk : Sdk ℕ)
    → (sdk.devices n).is_open ≡ true
    → device_close (some n) (put n (record (sdk.devices n) { callback = none }) sdk) ≡ (
      dev_ok,
      record (put n (record (sdk.devices n) { is_open = false; callback = none }) sdk) {
        open_count = one_closed sdk.open_count;
      },
    )
set_callback-close n sdk e =
    let v = record (sdk.devices n) { callback = none } in
    let at = put_self n v sdk in
    device_close-open n (put n v sdk) (ap (λ v. v.is_open) at ∙ e)
    ∙ ap
        (λ (w : DeviceImpl ℕ). (
          dev_ok,
          record (put n (record w { is_open = false; callback = none }) (put n v sdk)) {
            open_count = one_closed sdk.open_count;
          },
        ))
        at
    ∙ ap (λ (x : Sdk ℕ). (dev_ok, record x { open_count = one_closed sdk.open_count }))
        (put-put n v (record v { is_open = false; callback = none }) sdk)

pub close_device-open :
    (n : Name) (s : State)
    → (s.sdk.devices n).is_open ≡ true
    → s.opened n ≡ some (some n)
    → close_device n s ≡ some (after_close n s)
unfolding close_device
close_device-open n s e f =
    rw (close_device, f)
      (rw (device_set_callback-open n none s.sdk e) (rw (set_callback-close n s.sdk e) refl))

-- One turn of PollAll, by whether the device is open and the batches stream.
abbrev pub injected : Name → State → State
injected n s = record s {
  sdk =
      put n
        (record (s.sdk.devices n) { pending = (s.sdk.devices n).pending ++ samples_from 0 k_batch })
        s.sdk;
}

abbrev pub after_poll : Name → State → State
after_poll n s = record s {
  sdk = put n (record (s.sdk.devices n) { pending = [] }) s.sdk;
  calls = calls_of (s.sdk.devices n).callback (s.sdk.devices n).pending;
}

device_poll-open :
    (n : Name) (sdk : Sdk ℕ)
    → (sdk.devices n).is_open ≡ true
    → device_poll (some n) sdk ≡ (
      dev_ok,
      calls_of (sdk.devices n).callback (sdk.devices n).pending,
      put n (record (sdk.devices n) { pending = [] }) sdk,
    )
unfolding device_poll
device_poll-open n sdk e = rw e refl

pub poll_entry-null : (s : State) → poll_entry none s ≡ record s { calls = [] }
unfolding poll_entry inject_samples device_poll
poll_entry-null s = elim (Bool-cases s.stream) [ inl y ↦ rw y refl | inr x ↦ rw x refl ]

pub poll_entry-closed :
    (n : Name) (s : State)
    → (s.sdk.devices n).is_open ≡ false
    → poll_entry (some n) s ≡ record s { calls = [] }
unfolding poll_entry inject_samples device_poll
poll_entry-closed n s e = elim (Bool-cases s.stream) [
  | inl y ↦ rw (y, e) (rw e refl)
  | inr x ↦ rw (x, e) refl
]

pub poll_entry-still :
    (n : Name) (s : State)
    → (s.sdk.devices n).is_open ≡ true
    → s.stream ≡ false
    → poll_entry (some n) s ≡ after_poll n s
unfolding poll_entry
poll_entry-still n s e f = rw f (rw (device_poll-open n s.sdk e) refl)

pub poll_entry-stream :
    (n : Name) (s : State)
    → (s.sdk.devices n).is_open ≡ true
    → s.stream ≡ true
    → poll_entry (some n) s ≡ after_poll n (injected n s)
unfolding poll_entry
poll_entry-stream n s e f =
    let v = record (s.sdk.devices n) {
      pending = (s.sdk.devices n).pending ++ samples_from 0 k_batch;
    } in
    rw f (
      rw (inject_samples-open n k_batch s.sdk e) (
        rw (device_poll-open n (put n v s.sdk) (ap (λ v. v.is_open) (put_self n v s.sdk) ∙ e))
          refl))
