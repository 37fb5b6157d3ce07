-- ===== src/Device/Session/Owned.antt =====
-- solutions/device_solution.cpp: which session has which device.
use going_unmanaged.Prelude.{
  ℕ, ◌+◌, ◌≤◌, ◌<◌, ◌≡◌, ◌≢◌, refl, ap, ◌∙◌, sym, subst, Option, none, some, Bool, Bool-cases, true,
  false, if◌then◌else◌, ◌==◌, ==_iff, ==_refl, ne→==, inl, inr, arith,
}
use going_unmanaged.Device.{
  DeviceHandle, sensor0, sensor1, sensor2, sensor3, place, same, closed_sdk,
}
use going_unmanaged.Device.Session.{Session, State, start, write, target}

place_injective : (a b : DeviceHandle) → place a ≡ place b → a ≡ b
place_injective sensor0 sensor0 e = refl
place_injective sensor1 sensor1 e = refl
place_injective sensor2 sensor2 e = refl
place_injective sensor3 sensor3 e = refl
place_injective sensor0 sensor1 e = absurd (omega arith)
place_injective sensor0 sensor2 e = absurd (omega arith)
place_injective sensor0 sensor3 e = absurd (omega arith)
place_injective sensor1 sensor0 e = absurd (omega arith)
place_injective sensor1 sensor2 e = absurd (omega arith)
place_injective sensor1 sensor3 e = absurd (omega arith)
place_injective sensor2 sensor0 e = absurd (omega arith)
place_injective sensor2 sensor1 e = absurd (omega arith)
place_injective sensor2 sensor3 e = absurd (omega arith)
place_injective sensor3 sensor0 e = absurd (omega arith)
place_injective sensor3 sensor1 e = absurd (omega arith)
place_injective sensor3 sensor2 e = absurd (omega arith)

pub same→eq : (a b : DeviceHandle) → same a b ≡ true → a ≡ b
same→eq a b h = place_injective a b ((==_iff (place a) (place b)).0 h)

pub same_refl : (a : DeviceHandle) → same a a ≡ true
same_refl a = ==_refl (place a)

-- Each device's session, if any.
abbrev pub Owners : Type 0
Owners = DeviceHandle → Option ℕ

abbrev pub give : DeviceHandle → Option ℕ → Owners → Owners
give h o own = λ d. if same h d then o else own d

abbrev pub handle_of : Option Session → Option DeviceHandle
handle_of none = none
handle_of (some x) = x.handle

abbrev pub function_of : Option Session → Option ℕ
function_of none = none
function_of (some x) = x.on_sample

abbrev pub is_some : Option ℕ → Bool
is_some none = false
is_some (some p) = true

-- What the SDK should have registered for a device with this session.
abbrev pub expected : Option ℕ → State → Option ℕ
expected none s = none
expected (some p) s = target p (function_of (s.objects p))

abbrev pub one_if : Option ℕ → ℕ
one_if none = 0
one_if (some p) = 1

abbrev pub how_many : Owners → ℕ
how_many own =
    one_if (own sensor0) + one_if (own sensor1) + one_if (own sensor2) + one_if (own sensor3)

pub record Inv (own : Owners) (s : State) : Type 0 where
  pub forth : (p : ℕ) (d : DeviceHandle) → handle_of (s.objects p) ≡ some d → own d ≡ some p
  pub back : (p : ℕ) (d : DeviceHandle) → own d ≡ some p → handle_of (s.objects p) ≡ some d
  pub opened : (d : DeviceHandle) → (s.sdk.devices d).is_open ≡ is_some (own d)
  pub called : (d : DeviceHandle) → (s.sdk.devices d).callback ≡ expected (own d) s
  pub counted : s.sdk.open_count ≡ how_many own
  pub fresh : (p : ℕ) → s.next ≤ p → s.objects p ≡ none

pub start-Inv : Inv (λ d. none) start
unfolding start closed_sdk
start-Inv = record {
  forth = λ p d e. cc;
  back = λ p d e. cc;
  opened = λ d. refl;
  called = λ d. refl;
  counted = refl;
  fresh = λ p l. refl;
}

pub how_many-give :
    (h : DeviceHandle) (o : Option ℕ) (own : Owners)
    → how_many (give h o own) + one_if (own h) ≡ how_many own + one_if o
how_many-give sensor0 o own = omega arith
how_many-give sensor1 o own = omega arith
how_many-give sensor2 o own = omega arith
how_many-give sensor3 o own = omega arith

pub expected-eq :
    (o : Option ℕ) (s s' : State)
    → ((q : ℕ) → o ≡ some q → function_of (s.objects q) ≡ function_of (s'.objects q))
    → expected o s ≡ expected o s'
expected-eq none s s' h = refl
expected-eq (some q) s s' h = ap (target q) (h q refl)

-- A session that has a device, another one that does not, and the owner of a device.
pub apart :
    {own : Owners} {s : State} (p q : ℕ) (d : DeviceHandle)
    → Inv own s
    → own d ≡ some q
    → handle_of (s.objects p) ≢ some d
    → (p == q) ≡ false
apart p q d i e n = elim (Bool-cases (p == q)) [
  | inl same ↦ absurd (n (i.back p d (e ∙ ap some (sym ((==_iff p q).0 same)))))
  | inr other ↦ other
]

pub one_owner :
    {own : Owners} {s : State} (p q : ℕ) (h d : DeviceHandle)
    → Inv own s
    → handle_of (s.objects p) ≡ some h
    → own d ≡ some q
    → (p == q) ≡ false
    → same h d ≡ false
one_owner {own = own} p q h d i e o n = elim (Bool-cases (same h d)) [
  | inl y ↦
      let mine = i.forth p h e in
      let eq : h ≡ d = same→eq h d y in
      let theirs : own h ≡ some q = ap own eq ∙ o in
      let agree : p ≡ q = cc in let yes : (p == q) ≡ true = (==_iff p q).1 agree in cc
  | inr other ↦ other
]

pub other_device :
    (o : Option Session) (h d : DeviceHandle)
    → handle_of o ≡ some h
    → same h d ≡ false
    → handle_of o ≢ some d
other_device o h d e n z =
    let both : some h ≡ some d = sym e ∙ z in
    let eq : h ≡ d = cc in
    let yes' : same h d ≡ true = subst (λ x. same h x ≡ true) eq (same_refl h) in cc

-- An object that has no device may be written over with another one of this kind, also a new one.
pub write_idle-Inv :
    (own : Owners) (p n : ℕ) (y : Option Session) (s : State)
    → Inv own s
    → handle_of (s.objects p) ≡ none
    → handle_of y ≡ none
    → p < n
    → s.next ≤ n
    → Inv own (record (write p y s) { next = n })
write_idle-Inv own p n y s i idle idle' l g = record {
  forth = λ q d e. elim (Bool-cases (p == q)) [
    | inl yes' ↦ cc (rw yes' at e, idle')
    | inr other ↦ i.forth q d (rw other at e)
  ];
  back = λ q d e. rw (apart p q d i e (λ x. cc)) (i.back q d e);
  opened = i.opened;
  called = λ d.
      i.called d
      ∙ expected-eq (own d) s (record (write p y s) { next = n })
          (λ q e. rw (apart p q d i e (λ x. cc)) refl);
  counted = i.counted;
  fresh = λ q m. rw (ne→== p q (λ e. absurd (omega arith))) (i.fresh q (omega arith));
}
