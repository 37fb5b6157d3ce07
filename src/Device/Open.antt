-- ===== src/Device/Open.antt =====
-- exercises/fakedevice/FakeDevice.cpp: the calls on a device that is open.
use going_unmanaged.Prelude.{◌≡◌, ap, [], Option, some, true, not, if◌then◌else◌}
use going_unmanaged.Device.{
  DeviceHandle, Sdk, dev_ok, dev_closed, put, calls_of, device_set_callback, device_poll,
}

module _ {C : Type 0} (h : DeviceHandle) (sdk : Sdk C) where
  pub device_set_callback-open :
      (c : Option C)
      → (sdk.devices h).is_open ≡ true
      → device_set_callback (some h) c sdk
        ≡ (dev_ok, put h (record (sdk.devices h) { callback = c }) sdk)
  unfolding device_set_callback
  device_set_callback-open c e =
      ap
        (λ b.
          if not b
          then (dev_closed, sdk)
          else (dev_ok, put h (record (sdk.devices h) { callback = c }) sdk))
        e

  pub device_poll-open :
      (sdk.devices h).is_open ≡ true
      → device_poll (some h) sdk ≡ (
        dev_ok,
        calls_of (sdk.devices h).callback (sdk.devices h).pending,
        put h (record (sdk.devices h) { pending = [] }) sdk,
      )
  unfolding device_poll
  device_poll-open e =
      ap
        (λ b. if not b then (dev_closed, [], sdk) else (
          dev_ok,
          calls_of (sdk.devices h).callback (sdk.devices h).pending,
          put h (record (sdk.devices h) { pending = [] }) sdk,
        ))
        e
