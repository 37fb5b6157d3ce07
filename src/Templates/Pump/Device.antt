-- ===== src/Templates/Pump/Device.antt =====
-- exercises/templatelab/policies.h: FakeDeviceSdk, over the SDK of exercises/fakedevice. The sink of a poll
-- is the only context there is, and the trampoline hands it each sample.
use going_unmanaged.Prelude.{
  ℕ, ◌+◌, ◌<◌, ◌≡◌, subst, refl, ap, ◌∙◌, sym, List, [], ◌∷◌, Option, none, some, Bool, true, false,
  not, if◌then◌else◌, Bytes, arith,
}
use going_unmanaged.Device.{
  DeviceHandle, DevErr, dev_ok, dev_null_param, dev_not_found, dev_closed, dev_busy, Sdk, put, same,
  index_of, one_closed, calls_of, device_open, device_close, device_set_callback, device_poll,
}
use going_unmanaged.Device.Open.{device_set_callback-open, device_poll-open}
use going_unmanaged.Device.Session.Owned.{same_refl}
use going_unmanaged.Templates.Pump.{Policy, View, Laws}

abbrev pub Sink : Type 0
Sink = Unit {0}

abbrev pub is_ok : DevErr → Bool
is_ok dev_ok = true
is_ok dev_null_param = false
is_ok dev_not_found = false
is_ok dev_closed = false
is_ok dev_busy = false

abbrev pub differ : Option DeviceHandle → Option DeviceHandle → Bool
differ none none = false
differ none (some b) = true
differ (some a) none = true
differ (some a) (some b) = not (same a b)

unfoldable pub sdk_open : Bytes → Sdk Sink → Option (Option DeviceHandle × Sdk Sink)
unfolding device_open
sdk_open name w =
    let (err, h, w') = device_open (some name) true w in
    if not (is_ok err) then none else some (h, w')

unfoldable pub sdk_close : Option DeviceHandle → Sdk Sink → Sdk Sink
unfolding device_close
sdk_close h w = (device_close h w).1

unfoldable pub samples_of : List (Sink × ℕ) → List ℕ
samples_of [] = []
samples_of ((sink, sample) ∷ calls) = sample ∷ samples_of calls

unfoldable pub sdk_poll : Option DeviceHandle → Sdk Sink → Option (List ℕ × Sdk Sink)
unfolding device_set_callback device_poll samples_of
sdk_poll h w =
    let (e₁, w₁) = device_set_callback h (some tt) w in
    let (e₂, calls, w₂) = device_poll h w₁ in
    let (e₃, w₃) = device_set_callback h none w₂ in some (samples_of calls, w₃)

abbrev pub device_sdk : Policy
device_sdk = record {
  World = Sdk Sink;
  Handle = Option DeviceHandle;
  Sample = ℕ;
  no_handle = none;
  differs = differ;
  open_handle = sdk_open;
  close_handle = sdk_close;
  poll_handle = sdk_poll;
}

abbrev pub Opened : Option DeviceHandle → Sdk Sink → Type 0
Opened h w = (d : DeviceHandle) × (h ≡ some d) × ((w.devices d).is_open ≡ true) × (0 < w.open_count)

samples_of-calls : (pending : List ℕ) → samples_of (calls_of (some tt) pending) ≡ pending
unfolding samples_of calls_of
samples_of-calls [] = refl
samples_of-calls (sample ∷ pending) = ap (λ t. sample ∷ t) (samples_of-calls pending)

-- The three states behind the calls of a poll.
abbrev listening : DeviceHandle → Sdk Sink → Sdk Sink
listening d w = put d (record (w.devices d) { callback = some tt }) w

abbrev drained : DeviceHandle → Sdk Sink → Sdk Sink
drained d w = put d (record ((listening d w).devices d) { pending = [] }) (listening d w)

abbrev deaf : DeviceHandle → Sdk Sink → Sdk Sink
deaf d w = put d (record ((drained d w).devices d) { callback = none }) (drained d w)

-- A poll of an open device gives its samples in their order, and leaves it open with no callback and no
-- sample.
pub sdk_poll-open :
    (d : DeviceHandle) (w : Sdk Sink)
    → (w.devices d).is_open ≡ true
    → (w' : Sdk Sink) × (sdk_poll (some d) w ≡ some ((w.devices d).pending, w'))
      × ((w'.devices d).is_open ≡ true)
      × ((w'.devices d).callback ≡ none)
      × ((w'.devices d).pending ≡ [])
      × (w'.open_count ≡ w.open_count)
unfolding sdk_poll
sdk_poll-open d w e =
    let e₁ : ((listening d w).devices d).is_open ≡ true = rw (same_refl d) e in
    let e₂ : ((drained d w).devices d).is_open ≡ true = rw (same_refl d) e in
    let sent : calls_of ((listening d w).devices d).callback ((listening d w).devices d).pending
        ≡ calls_of (some tt) (w.devices d).pending =
      rw (same_refl d) refl in
    (
      deaf d w,
      ap
            (λ t.
              let (a, w₁) = t in
              let (b, calls, w₂) = device_poll (some d) w₁ in
              let (c, w₃) = device_set_callback (some d) none w₂ in some (samples_of calls, w₃))
            (device_set_callback-open d w (some tt) e)
          ∙ ap
              (λ t.
                let (b, calls, w₂) = t in
                let (c, w₃) = device_set_callback (some d) none w₂ in some (samples_of calls, w₃))
              (device_poll-open d (listening d w) e₁)
          ∙ ap
              (λ t.
                let (c, w₃) = t in
                some (
                  samples_of (
                      calls_of ((listening d w).devices d).callback
                        ((listening d w).devices d).pending),
                  w₃,
                ))
              (device_set_callback-open d (drained d w) none e₂)
          ∙ ap (λ cs. some (samples_of cs, deaf d w)) sent
          ∙ ap (λ ss. some (ss, deaf d w)) (samples_of-calls (w.devices d).pending),
      rw (same_refl d) e,
      rw (same_refl d) refl,
      rw (same_refl d) refl,
      refl,
    )

-- Closing an open device, and opening a closed one.
sdk_close-open :
    (d : DeviceHandle) (w : Sdk Sink)
    → (w.devices d).is_open ≡ true
    → 0 < w.open_count
    → (sdk_close (some d) w).open_count + 1 ≡ w.open_count
unfolding sdk_close device_close one_closed
sdk_close-open d w e l = rw (sdk_close, e) (ground arith)

sdk_open-shut :
    (name : Bytes) (d : DeviceHandle) (w : Sdk Sink)
    → index_of name ≡ some d
    → (w.devices d).is_open ≡ false
    → sdk_open name w
      ≡ some (
        some d,
        record (put d (record { is_open = true; callback = none; pending = [] }) w) {
          open_count = w.open_count + 1;
        },
      )
unfolding sdk_open device_open
sdk_open-shut name d w i e = rw (device_open, i) (rw e refl)

-- There is room for a session of a name whose device is closed.
abbrev pub device_view : View device_sdk
device_view = record {
  Room = λ name w. (d : DeviceHandle) × (index_of name ≡ some d) × ((w.devices d).is_open ≡ false);
  IsOpen = Opened;
  live = λ w. w.open_count;
}

pub device_sdk-Laws : Laws device_sdk device_view
unfolding sdk_close device_close
device_sdk-Laws = record {
  opens = λ name w (d, i, e). (
    some d,
    _,
    sdk_open-shut name d w i e,
    refl,
    (d, refl, rw (same_refl d) refl, omega arith),
    refl,
  );
  closes = λ h w (d, same', e, l).
      subst (λ z. (sdk_close z w).open_count + 1 ≡ w.open_count) (sym same')
        (sdk_close-open d w e l);
  closes_none = λ w. refl;
  none_closed = refl;
  polls = λ h w (d, same', e, l).
      let (w', polled, still, deaf', left, count) = sdk_poll-open d w e in
      (
        (w.devices d).pending,
        w',
        ap (λ z. sdk_poll z w) same' ∙ polled,
        (d, same', still, omega (arith, count)),
        count,
      );
}
