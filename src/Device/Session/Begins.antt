-- ===== src/Device/Session/Begins.antt =====
-- solutions/device_solution.cpp: a session that gets another function, and a new one.
use going_unmanaged.Prelude.{
  ℕ, ◌+◌, ◌≡◌, refl, ap, ◌∙◌, sym, subst, [], Option, none, some, Bool-cases, true, false, ◌==◌,
  ==_iff, ==_refl, ne→==, inl, inr, arith,
}
use going_unmanaged.Device.{DeviceHandle, put, same}
use going_unmanaged.Device.Session.{Session, State, write, make, target}
use going_unmanaged.Device.Session.Owned.{
  same→eq, same_refl, Owners, give, handle_of, is_some, one_if, Inv, how_many-give, expected-eq,
  apart, other_device,
}
use going_unmanaged.Device.Session.Steps.{registered, live_lt}

-- A session gets another function to call.
abbrev pub heard_by : ℕ → Session → DeviceHandle → State → State
heard_by p y h s = record (write p (some y) s) { sdk = registered h (target p y.on_sample) s.sdk }

pub hear-Inv :
    (own : Owners) (p : ℕ) (x : Session) (f : Option ℕ) (h : DeviceHandle) (s : State)
    → Inv own s
    → s.objects p ≡ some x
    → x.handle ≡ some h
    → Inv own (heard_by p (record x { on_sample = f }) h s)
hear-Inv own p x f h s i at_p has =
    let held : handle_of (s.objects p) ≡ some h = ap handle_of at_p ∙ has in
    let mine : own h ≡ some p = i.forth p h held in
    let y : Session = record x { on_sample = f } in
    record {
      forth = λ r d e. elim (Bool-cases (p == r)) [
        | inl yes' ↦ i.forth r d (
            ap (λ z. handle_of (s.objects z)) (sym ((==_iff p r).0 yes'))
            ∙ ap handle_of at_p
            ∙ (rw yes' at e))
        | inr np ↦ i.forth r d (rw np at e)
      ];
      back = λ r d e. elim (Bool-cases (p == r)) [
        | inl yes' ↦ rw yes' (
            sym (ap handle_of at_p)
            ∙ ap (λ z. handle_of (s.objects z)) ((==_iff p r).0 yes')
            ∙ i.back r d e)
        | inr np ↦ rw np (i.back r d e)
      ];
      opened = λ d. elim (Bool-cases (same h d)) [
        | inl yes' ↦ rw yes' (ap (λ z. (s.sdk.devices z).is_open) (same→eq h d yes') ∙ i.opened d)
        | inr other ↦ rw other (i.opened d)
      ];
      called = λ d. elim (Bool-cases (same h d)) [
        | inl yes' ↦
            let now : own d ≡ some p = ap own (sym (same→eq h d yes')) ∙ mine in
            rw (yes', now) (rw (==_refl p) refl)
        | inr other ↦ rw other (
            i.called d
            ∙ expected-eq (own d) s (heard_by p y h s)
                (λ r e. rw (apart p r d i e (other_device (s.objects p) h d held other)) refl))
      ];
      counted = i.counted;
      fresh = λ r m.
          rw (ne→== p r (λ e. absurd (omega (arith, live_lt own p x s i at_p)))) (i.fresh r m);
    }

-- An open device for a new session.
abbrev pub opened_for : DeviceHandle → State → State
opened_for h s =
    make (record { handle = some h; on_sample = none })
      (record s {
        sdk = record (put h (record { is_open = true; callback = none; pending = [] }) s.sdk) {
          open_count = s.sdk.open_count + 1;
        };
      })

pub open-Inv :
    (own : Owners) (h : DeviceHandle) (s : State)
    → Inv own s
    → (s.sdk.devices h).is_open ≡ false
    → Inv (give h (some (s.next)) own) (opened_for h s)
open-Inv own h s i shut =
    let free : own h ≡ none = nobody (own h) (sym (i.opened h) ∙ shut) in
    record {
      forth = λ r d e. elim (Bool-cases (s.next == r)) [
        | inl yes' ↦
            let mine : some h ≡ some d = rw yes' at e in
            let eq : h ≡ d = cc in
            let hd : same h d ≡ true = subst (λ z. same h z ≡ true) eq (same_refl h) in
            rw hd (ap some ((==_iff s.next r).0 yes'))
        | inr np ↦
            let theirs : own d ≡ some r = i.forth r d (rw np at e) in
            rw (not_free h d theirs free) theirs
      ];
      back = λ r d e. elim (Bool-cases (same h d)) [
        | inl yes' ↦
            let pr : some (s.next) ≡ some r = rw yes' at e in
            let agree : s.next ≡ r = cc in
            rw ((==_iff s.next r).1 agree) (ap some (same→eq h d yes'))
        | inr other ↦
            let theirs : own d ≡ some r = rw other at e in
            rw (apart s.next r d i theirs (λ z. cc (ap handle_of (i.fresh s.next (omega arith)))))
              (i.back r d theirs)
      ];
      opened = λ d. elim (Bool-cases (same h d)) [
        | inl yes' ↦ rw yes' refl
        | inr other ↦ rw other (i.opened d)
      ];
      called = λ d. elim (Bool-cases (same h d)) [
        | inl yes' ↦ rw (yes', ==_refl s.next) refl
        | inr other ↦ rw other (
            i.called d
            ∙ expected-eq (own d) s (opened_for h s) (λ r e.
              rw (apart s.next r d i e (λ z. cc (ap handle_of (i.fresh s.next (omega arith)))))
                refl))
      ];
      counted =
          let zero' : one_if (own h) ≡ 0 = ap one_if free in
          omega (arith, i.counted, zero', how_many-give h (some (s.next)) own);
      fresh = λ r m. rw (ne→== s.next r (λ e. absurd (omega arith))) (i.fresh r (omega arith));
    }
  where
    nobody : (o : Option ℕ) → is_some o ≡ false → o ≡ none
    nobody none e = refl
    nobody (some p) e = cc

    not_free : (a d : DeviceHandle) {r : ℕ} → own d ≡ some r → own a ≡ none → same a d ≡ false
    not_free a d e n = elim (Bool-cases (same a d)) [
      | inl y ↦ let eq : own a ≡ own d = ap own (same→eq a d y) in cc
      | inr o ↦ o
    ]
