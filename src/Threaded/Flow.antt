-- ===== src/Threaded/Flow.antt =====
-- solutions/device_threaded_solution.cpp: the samples on their way from a device to a Sink.
use going_unmanaged.Prelude.{
  ℕ, ◌+◌, ◌<◌, ◌≡◌, ◌≢◌, refl, ap, ◌∙◌, sym, subst, List, [], ◌∷◌, ◌++◌, append-nil, append_assoc,
  none, some, Bool-cases, Option-cases, true, false, if◌then◌else◌, ◌==◌, ==_iff, ==_refl, inl, inr,
  arith,
}
use going_unmanaged.Device.{DeviceHandle, DeviceImpl, same, samples_from, calls_of}
use going_unmanaged.Device.Session.Owned.{same_refl}
use going_unmanaged.Threaded.{Sink, Name, k_batch}
use going_unmanaged.Threaded.Samples.{
  Follows, Whole, Whole-batch, Follows-front, coming, coming-calls_self, coming-calls_other,
  coming-calls_none,
}
use going_unmanaged.Threaded.Invariant.{Devices, Good, Flow}

-- One Sink is written, and with it the calls may change that lead to it.
pub Flow-sink :
    (lo c : ℕ) (x : Sink) (sinks : ℕ → Sink) (devices : Devices) (ps qs : List (ℕ × ℕ))
    → Flow lo sinks devices ps
    → ((d : ℕ) → (c == d) ≡ false → coming d ps ≡ coming d qs)
    → Good lo devices (coming c qs) c x
    → Flow lo (λ d. if c == d then x else sinks d) devices qs
Flow-sink lo c x sinks devices ps qs f others g d = elim (Bool-cases (c == d)) [
  | inl y ↦ rw y (subst (λ z. Good lo devices (coming z qs) z x) ((==_iff c d).0 y) g)
  | inr n ↦ rw n (subst (λ z. Good lo devices z d (sinks d)) (others d n) (f d))
]

-- One device is written.
abbrev pub put_device : DeviceHandle → DeviceImpl ℕ → Devices → Devices
put_device n v devices = λ m. if same n m then v else devices m

batch_last : (xs ys zs bs : List ℕ) → (xs ++ (ys ++ zs)) ++ bs ≡ xs ++ (ys ++ (zs ++ bs))
batch_last xs ys zs bs = append_assoc xs (ys ++ zs) bs ∙ ap (λ r. xs ++ r) (append_assoc ys zs bs)

-- The device gets another batch.
pub Flow-inject :
    (lo : ℕ) (n : Name) (sinks : ℕ → Sink) (devices : Devices) (ps : List (ℕ × ℕ))
    → Flow lo sinks devices ps
    → Flow lo sinks
        (put_device n
          (record (devices n) { pending = (devices n).pending ++ samples_from 0 k_batch })
          devices)
        ps
Flow-inject lo n sinks devices ps f c = record {
  unused = (f c).unused;
  held = (f c).held;
  whole = λ m e a. elim (Bool-cases (same n m)) [
    | inl y ↦
        let more =
          Whole-batch ((sinks c).samples ++ (coming c ps ++ (devices n).pending))
            ((f c).whole n (rw y at e) a) in
        rw y (
          subst Whole
            (batch_last (sinks c).samples (coming c ps) (devices n).pending
              (samples_from 0 k_batch))
            more)
    | inr x ↦ rw x ((f c).whole m (rw x at e) a)
  ];
  on_the_way = (f c).on_the_way;
  right = (f c).right;
}

abbrev pub polled : Name → Devices → Devices
polled n devices = put_device n (record (devices n) { pending = [] }) devices

-- Another device's Sink.
poll_other :
    (lo : ℕ) (n : Name) (c : ℕ) (x : Sink) (devices : Devices)
    → Good lo devices [] c x
    → (devices n).callback ≢ some c
    → Good lo (polled n devices) [] c x
poll_other lo n c x devices g off = record {
  unused = g.unused;
  held = g.held;
  whole = λ m e a. elim (Bool-cases (same n m)) [
    | inl y ↦ absurd (off (rw y at e))
    | inr z ↦ rw z (g.whole m (rw z at e) a)
  ];
  on_the_way = g.on_the_way;
  right = g.right;
}

poll_own :
    (lo : ℕ) (n : Name) (c : ℕ) (x : Sink) (devices : Devices)
    → Good lo devices [] c x
    → (devices n).callback ≡ some c
    → ((m : Name) → (devices m).callback ≡ some c → n ≡ m)
    → c < lo
    → Good lo (polled n devices) (devices n).pending c x
poll_own lo n c x devices g mine one early = record {
  unused = λ l. absurd (omega arith);
  held = g.held;
  whole = λ m e a. elim (Bool-cases (same n m)) [
    | inl y ↦ rw y (
        subst (λ r. Whole (x.samples ++ r)) (sym (append-nil (devices n).pending))
          (g.whole n mine a))
    | inr z ↦
        let eq = one m (rw z at e) in
        let y : same n m ≡ true = subst (λ k. same n k ≡ true) eq (same_refl n) in cc
  ];
  on_the_way = λ a. (g.whole n mine a).0;
  right = g.right;
}

-- Device_Poll makes the calls for what was pending.
pub Flow-poll :
    (lo : ℕ) (n : Name) (sinks : ℕ → Sink) (devices : Devices)
    → Flow lo sinks devices []
    → ((m : Name) (c : ℕ) → (devices n).callback ≡ some c → (devices m).callback ≡ some c → n ≡ m)
    → ((c : ℕ) → (devices n).callback ≡ some c → c < lo)
    → Flow lo sinks (polled n devices) (calls_of (devices n).callback (devices n).pending)
Flow-poll lo n sinks devices f one early c = elim (Option-cases (devices n).callback) [
  | inl idle ↦
      let line =
        ap (λ o. coming c (calls_of o (devices n).pending)) idle
        ∙ coming-calls_none c (devices n).pending in
      subst (λ z. Good lo (polled n devices) z c (sinks c)) (sym line)
        (poll_other lo n c (sinks c) devices (f c) (λ e. cc))
  | inr (d, has) ↦
      let calls = ap (λ o. coming c (calls_of o (devices n).pending)) has in
      elim (Bool-cases (d == c)) [
        | inl y ↦
            let eq : d ≡ c = (==_iff d c).0 y in
            let line =
              calls
              ∙ ap (λ z. coming c (calls_of (some z) (devices n).pending)) eq
              ∙ coming-calls_self c (devices n).pending in
            let mine = has ∙ ap some eq in
            subst (λ z. Good lo (polled n devices) z c (sinks c)) (sym line)
              (poll_own lo n c (sinks c) devices (f c) mine (λ m. one m c mine) (early c mine))
        | inr x ↦
            let line = calls ∙ coming-calls_other c d (devices n).pending x in
            subst (λ z. Good lo (polled n devices) z c (sinks c)) (sym line)
              (poll_other lo n c (sinks c) devices (f c)
                (λ e. let eq : d ≡ c = cc in let y : (d == c) ≡ true = (==_iff d c).1 eq in cc))
      ]
]

-- A device that opens, with the first batch for a new context, and one that closes.
pub Flow-open :
    (lo : ℕ) (n : Name) (sinks : ℕ → Sink) (devices : Devices)
    → Flow lo sinks devices []
    → Flow
        (lo + 1)
        sinks
        (put_device n
          (record { is_open = true; callback = some lo; pending = samples_from 0 k_batch })
          devices)
        []
Flow-open lo n sinks devices f c = record {
  unused = λ l. (f c).unused (omega arith);
  held = (f c).held;
  whole = λ m e a. elim (Bool-cases (same n m)) [
    | inl y ↦
        let was : some lo ≡ some c = rw y at e in
        let eq : lo ≡ c = cc in
        let empty = ((f c).unused (omega (arith, eq))).1 in
        rw y
          (subst (λ r. Whole (r ++ samples_from 0 k_batch)) (sym empty) (Whole-batch [] (tt, refl)))
    | inr z ↦ rw z ((f c).whole m (rw z at e) a)
  ];
  on_the_way = (f c).on_the_way;
  right = (f c).right;
}

pub Flow-close :
    (lo : ℕ) (n : Name) (sinks : ℕ → Sink) (devices : Devices) (ps : List (ℕ × ℕ))
    → Flow lo sinks devices ps
    → Flow lo sinks
        (put_device n (record (devices n) { is_open = false; callback = none }) devices)
        ps
Flow-close lo n sinks devices ps f c = record {
  unused = (f c).unused;
  held = (f c).held;
  whole = λ m e a. elim (Bool-cases (same n m)) [
    | inl y ↦ let was : none ≡ some c = rw y at e in cc
    | inr z ↦ rw z ((f c).whole m (rw z at e) a)
  ];
  on_the_way = (f c).on_the_way;
  right = (f c).right;
}

-- The trampoline drops the sample of a Sink that is told, and gives it to another.
pub Flow-drop :
    (lo c x : ℕ) (sinks : ℕ → Sink) (devices : Devices) (ps : List (ℕ × ℕ))
    → Flow lo sinks devices ((c, x) ∷ ps)
    → (sinks c).alive ≡ false
    → Flow lo sinks devices ps
Flow-drop lo c x sinks devices ps f dead d = elim (Bool-cases (c == d)) [
  | inl y ↦
      let off : (sinks d).alive ≡ false =
        subst (λ z. (sinks z).alive ≡ false) ((==_iff c d).0 y) dead in
      record {
        unused = λ l. let gone : (x ∷ coming d ps) ≡ [] = rw y at ((f d).unused l).0 in cc;
        held = (f d).held;
        whole = λ m e a. cc;
        on_the_way = λ a. cc;
        right = (f d).right;
      }
  | inr n ↦ subst (λ z. Good lo devices z d (sinks d)) (rw n refl) (f d)
]

pub Flow-deliver :
    (lo c x : ℕ) (sinks : ℕ → Sink) (devices : Devices) (ps : List (ℕ × ℕ))
    → Flow lo sinks devices ((c, x) ∷ ps)
    → (sinks c).alive ≡ true
    → Flow lo
        (λ d.
          if c == d then record (sinks c) { samples = (sinks c).samples ++ x ∷ [] } else sinks d)
        devices
        ps
Flow-deliver lo c x sinks devices ps f live =
    let line : coming c ((c, x) ∷ ps) ≡ x ∷ coming c ps = rw (==_refl c) refl in
    let g = subst (λ z. Good lo devices z c (sinks c)) line (f c) in
    let assoc = λ (r : List ℕ). append_assoc (sinks c).samples (x ∷ []) r in
    Flow-sink lo c (record (sinks c) { samples = (sinks c).samples ++ x ∷ [] }) sinks devices
      ((c, x) ∷ ps) ps f (λ d n. rw n refl)
      (record {
        unused = λ l. let gone : (x ∷ coming c ps) ≡ [] = (g.unused l).0 in cc;
        held = g.held;
        whole =
            λ m e a. subst Whole (sym (assoc (coming c ps ++ (devices m).pending))) (g.whole m e a);
        on_the_way = λ a. subst (Follows 0) (sym (assoc (coming c ps))) (g.on_the_way a);
        right =
            Follows-front 0 ((sinks c).samples ++ x ∷ []) (coming c ps)
              (subst (Follows 0) (sym (assoc (coming c ps))) (g.on_the_way live));
      })
