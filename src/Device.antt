-- ===== src/Device.antt =====
-- exercises/fakedevice/FakeDevice.cpp and FakeDevice.h. A DeviceHandle is the address of one of the four
-- devices, and a null one is `none`. A callback and its context are one value: the context of a null
-- callback is not looked at. The calls that Device_Poll makes are given back, in their order; what is
-- behind a callback makes no call of the SDK here, so that they may run when Device_Poll is over.
pub mod Open
pub mod Session
use going_unmanaged.Prelude.{
  ℕ, zero, suc, ◌+◌, ◌-◌, List, [], ◌∷◌, ◌++◌, map, Option, none, some, Bool, true, false, not,
  ◌&&◌, if◌then◌else◌, ltb, leb, ◌==◌, Bytes, codes, bytes_eq, length,
}

pub data DevErr : Type 0 where
  dev_ok dev_null_param dev_not_found dev_closed dev_busy : DevErr

pub data DeviceHandle : Type 0 where
  sensor0 sensor1 sensor2 sensor3 : DeviceHandle

-- Where a device stands in `g_devices`, and the test for the same address.
abbrev pub place : DeviceHandle → ℕ
place sensor0 = 0
place sensor1 = 1
place sensor2 = 2
place sensor3 = 3

abbrev pub same : DeviceHandle → DeviceHandle → Bool
same a b = place a == place b

-- `cb` and `ctx` are of a type `C` that only the client looks into.
pub record DeviceImpl (C : Type 0) : Type 0 where
  pub is_open : Bool
  pub callback : Option C
  pub pending : List ℕ

-- `g_devices` and `g_open`.
pub record Sdk (C : Type 0) : Type 0 where
  pub devices : DeviceHandle → DeviceImpl C
  pub open_count : ℕ

-- Before the first call.
unfoldable pub closed_sdk : {C : Type 0} → Sdk C
closed_sdk = record {
  devices = λ h. record { is_open = false; callback = none; pending = [] };
  open_count = 0;
}

abbrev pub put : {C : Type 0} → DeviceHandle → DeviceImpl C → Sdk C → Sdk C
put h d s = record s { devices = λ x. if same h x then d else s.devices x }

-- `name[6] - '0'`, where the name has six bytes before it.
unfoldable pub device_of : Bytes → Option DeviceHandle
device_of (b ∷ []) =
    if b == b'0'
    then some sensor0
    else if b == b'1'
    then some sensor1
    else if b == b'2'
    then some sensor2
    else if b == b'3'
    then some sensor3
    else none
device_of s = none

-- What stands behind a prefix, if the text starts with it.
unfoldable pub behind : Bytes → Bytes → Option Bytes
behind [] s = some s
behind (p ∷ prefix) [] = none
behind (p ∷ prefix) (b ∷ s) = if p == b then behind prefix s else none

-- IndexOf
unfoldable pub index_of : Bytes → Option DeviceHandle
unfolding behind device_of
index_of name = elim (behind (codes "sensor") name) [ none ↦ none | some s ↦ device_of s ]

-- `--g_open`
unfoldable pub one_closed : ℕ → ℕ
one_closed n = if n == 0 then 0xffffffffffffffff else n - 1

-- The samples 100, 101, ... of FakeDevice_InjectSamples, from `i` on.
unfoldable pub samples_from : ℕ → ℕ → List ℕ
samples_from i zero = []
samples_from i (suc n) = (100 + i) ∷ samples_from (i + 1) n

module _ {C : Type 0} where
  -- Device_Open, by whether `outHandle` is not null: the code, what is written to it, and the state.
  unfoldable pub device_open : Option Bytes → Bool → Sdk C → DevErr × Option DeviceHandle × Sdk C
  unfolding index_of
  device_open none out s = (dev_null_param, none, s)
  device_open (some name) false s = (dev_null_param, none, s)
  device_open (some name) true s = elim (index_of name) [
    | none ↦ (dev_not_found, none, s)
    | some h ↦ if (s.devices h).is_open then (dev_busy, none, s) else (
      dev_ok,
      some h,
      record (put h (record { is_open = true; callback = none; pending = [] }) s) {
        open_count = s.open_count + 1;
      },
    )
  ]

  unfoldable pub device_close : Option DeviceHandle → Sdk C → DevErr × Sdk C
  unfolding one_closed
  device_close none s = (dev_ok, s)
  device_close (some h) s = if not (s.devices h).is_open then (dev_closed, s) else (
    dev_ok,
    record (put h (record (s.devices h) { is_open = false; callback = none }) s) {
      open_count = one_closed s.open_count;
    },
  )

  unfoldable pub device_set_callback : Option DeviceHandle → Option C → Sdk C → DevErr × Sdk C
  device_set_callback none callback s = (dev_null_param, s)
  device_set_callback (some h) callback s =
      if not (s.devices h).is_open
      then (dev_closed, s)
      else (dev_ok, put h (record (s.devices h) { callback = callback }) s)

  -- The loop of Device_Poll: a call for each sample.
  unfoldable pub calls_of : Option C → List ℕ → List (C × ℕ)
  calls_of none pending = []
  calls_of (some c) [] = []
  calls_of (some c) (sample ∷ pending) = (c, sample) ∷ calls_of (some c) pending

  unfoldable pub device_poll : Option DeviceHandle → Sdk C → DevErr × List (C × ℕ) × Sdk C
  unfolding calls_of
  device_poll none s = (dev_null_param, [], s)
  device_poll (some h) s = if not (s.devices h).is_open then (dev_closed, [], s) else (
    dev_ok,
    calls_of (s.devices h).callback (s.devices h).pending,
    put h (record (s.devices h) { pending = [] }) s,
  )

  unfoldable pub inject_samples : Option DeviceHandle → ℕ → Sdk C → DevErr × Sdk C
  unfolding samples_from
  inject_samples none n s = (dev_null_param, s)
  inject_samples (some h) n s = if not (s.devices h).is_open then (dev_closed, s) else (
    dev_ok,
    put h (record (s.devices h) { pending = (s.devices h).pending ++ samples_from 0 n }) s,
  )
