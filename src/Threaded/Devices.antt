-- ===== src/Threaded/Devices.antt =====
-- solutions/device_threaded_solution.cpp: the devices and the jobs, when a job is run or posted.
use mathlib.Core.Path.{fun_ext}
use going_unmanaged.Prelude.{
  ℕ, ◌+◌, ◌≡◌, refl, ap, ◌∙◌, sym, subst, List, ◌∷◌, Option, none, some, Bool-cases, true, false,
  inl, inr, arith,
}
use going_unmanaged.Device.{DeviceHandle, DeviceImpl, same, one_closed}
use going_unmanaged.Device.Session.Owned.{same→eq, same_refl, give, one_if, how_many, how_many-give}
use going_unmanaged.Threaded.{Sink, Name, Job, open_job, close_job, set_name}
use going_unmanaged.Threaded.Plan.{
  events, events-open_same, events-open_other, events-close_same, events-close_other, Plan,
  Plan-mono, Rising,
}
use going_unmanaged.Threaded.Invariant.{Devices, Linked, Gone, Queue}
use going_unmanaged.Threaded.Flow.{put_device}

put-callbacks :
    (n : Name) (v : DeviceImpl ℕ) (devices : Devices)
    → (λ m. (put_device n v devices m).callback) ≡ give n v.callback (λ m. (devices m).callback)
put-callbacks n v devices =
    fun_ext (λ m. elim (Bool-cases (same n m)) [ inl y ↦ rw y refl | inr x ↦ rw x refl ])

put-how_many :
    (n : Name) (v : DeviceImpl ℕ) (devices : Devices)
    → how_many (λ m. (put_device n v devices m).callback) + one_if (devices n).callback
      ≡ how_many (λ m. (devices m).callback) + one_if v.callback
put-how_many n v devices =
    ap (λ own. how_many own + one_if (devices n).callback) (put-callbacks n v devices)
    ∙ how_many-give n v.callback (λ m. (devices m).callback)

module _ (lo : ℕ) (sinks : ℕ → Sink) (contexts : ℕ) (sessions : Name → Option ℕ) (js : List Job)
    (devices : Devices) (count : ℕ) (opened : Name → Option (Option DeviceHandle)) where
  -- What the next job finds.
  pub opens_closed :
      (n : Name) (c : ℕ)
      → Queue lo sinks contexts sessions (open_job n c ∷ js) devices count opened
      → ((devices n).callback ≡ none) × (c ≡ lo)
  opens_closed n c i =
      let p =
        subst (Plan (Gone sinks contexts) (sessions n) (devices n).callback)
          (events-open_same n n c js (same_refl n)) (i.plan n) in
      (p.0, (i.rising).0)

  pub closes_open :
      (n : Name)
      → Queue lo sinks contexts sessions (close_job n ∷ js) devices count opened
      → (c : ℕ) × ((devices n).callback ≡ some c) × Gone sinks contexts c
  closes_open n i =
      let p =
        subst (Plan (Gone sinks contexts) (sessions n) (devices n).callback)
          (events-close_same n n js (same_refl n)) (i.plan n) in
      p.0

  pub Queue-open :
      (n : Name) (c : ℕ) (pending : List ℕ)
      → Queue lo sinks contexts sessions (open_job n c ∷ js) devices count opened
      → Queue
          (lo + 1)
          sinks
          contexts
          sessions
          js
          (put_device n (record { is_open = true; callback = some lo; pending = pending }) devices)
          (count + 1)
          (set_name n (some (some n)) opened)
  Queue-open n c pending i =
      let found = opens_closed n c i in
      record {
        linked = λ m. elim (Bool-cases (same n m)) [
          | inl y ↦ rw y (ap (λ k. some (some k)) (same→eq n m y), refl)
          | inr x ↦ rw x (i.linked m)
        ];
        plan = λ m. elim (Bool-cases (same n m)) [
          | inl y ↦
              let p =
                subst (Plan (Gone sinks contexts) (sessions m) (devices m).callback)
                  (events-open_same n m c js y) (i.plan m) in
              rw y (
                subst (λ z. Plan (Gone sinks contexts) (sessions m) (some z) (events m js)) found.1
                  p.1)
          | inr x ↦
              let p =
                subst (Plan (Gone sinks contexts) (sessions m) (devices m).callback)
                  (events-open_other n m c js x) (i.plan m) in
              rw x p
        ];
        rising = (i.rising).1;
        early = λ m d e. elim (Bool-cases (same n m)) [
          | inl y ↦
              let was : some lo ≡ some d = rw y at e in let eq : lo ≡ d = cc in omega (arith, eq)
          | inr x ↦ let l = i.early m d (rw x at e) in omega (arith, l)
        ];
        one = λ m k d e f. elim (Bool-cases (same n m)) [
          | inl y ↦ elim (Bool-cases (same n k)) [
            | inl z ↦ sym (same→eq n m y) ∙ same→eq n k z
            | inr z ↦
                let was : some lo ≡ some d = rw y at e in
                let eq : lo ≡ d = cc in
                let l = i.early k d (rw z at f) in absurd (omega (arith, eq, l))
          ]
          | inr x ↦ elim (Bool-cases (same n k)) [
            | inl z ↦
                let was : some lo ≡ some d = rw z at f in
                let eq : lo ≡ d = cc in
                let l = i.early m d (rw x at e) in absurd (omega (arith, eq, l))
            | inr z ↦ i.one m k d (rw x at e) (rw z at f)
          ]
        ];
        known = i.known;
        counted =
            let sum =
              put-how_many n (record { is_open = true; callback = some lo; pending = pending })
                devices in
            let no_one : one_if (devices n).callback ≡ 0 = ap one_if found.0 in
            omega (arith, sum, no_one, i.counted);
      }

  pub Queue-close :
      (n : Name)
      → Queue lo sinks contexts sessions (close_job n ∷ js) devices count opened
      → Queue lo sinks contexts sessions js
          (put_device n (record (devices n) { is_open = false; callback = none }) devices)
          (one_closed count)
          (set_name n none opened)
  unfolding one_closed
  Queue-close n i =
      let (c, has, gone) = closes_open n i in
      record {
        linked = λ m. elim (Bool-cases (same n m)) [
          | inl y ↦ rw y (refl, refl)
          | inr x ↦ rw x (i.linked m)
        ];
        plan = λ m. elim (Bool-cases (same n m)) [
          | inl y ↦
              let p =
                subst (Plan (Gone sinks contexts) (sessions m) (devices m).callback)
                  (events-close_same n m js y) (i.plan m) in
              rw y p.1
          | inr x ↦
              let p =
                subst (Plan (Gone sinks contexts) (sessions m) (devices m).callback)
                  (events-close_other n m js x) (i.plan m) in
              rw x p
        ];
        rising = i.rising;
        early = λ m d e. elim (Bool-cases (same n m)) [
          | inl y ↦ let was : none ≡ some d = rw y at e in cc
          | inr x ↦ i.early m d (rw x at e)
        ];
        one = λ m k d e f. elim (Bool-cases (same n m)) [
          | inl y ↦ let was : none ≡ some d = rw y at e in cc
          | inr x ↦ elim (Bool-cases (same n k)) [
            | inl z ↦ let was : none ≡ some d = rw z at f in cc
            | inr z ↦ i.one m k d (rw x at e) (rw z at f)
          ]
        ];
        known = i.known;
        counted =
            let sum =
              put-how_many n (record (devices n) { is_open = false; callback = none }) devices in
            let one_of : one_if (devices n).callback ≡ 1 = ap one_if has in
            ground (arith, sum, one_of, i.counted);
      }

  pending-callback :
      (n : Name) (pending : List ℕ) (m : Name)
      → (put_device n (record (devices n) { pending = pending }) devices m).callback
        ≡ (devices m).callback
  pending-callback n pending m = elim (Bool-cases (same n m)) [
    | inl y ↦ rw y (ap (λ k. (devices k).callback) (same→eq n m y))
    | inr x ↦ rw x refl
  ]

  -- Only the samples that a device has yet to hand out are another.
  pub Queue-pending :
      (n : Name) (pending : List ℕ)
      → Queue lo sinks contexts sessions js devices count opened
      → Queue lo sinks contexts sessions js
          (put_device n (record (devices n) { pending = pending }) devices)
          count
          opened
  Queue-pending n pending i =
      let v = record (devices n) { pending = pending } in
      let back = λ (m : Name). pending-callback n pending m in
      record {
        linked = λ m. elim (Bool-cases (same n m)) [
          | inl y ↦ rw y (
              subst (λ k. Linked k (devices n).callback (opened k) (devices n).is_open)
                (same→eq n m y) (i.linked n))
          | inr x ↦ rw x (i.linked m)
        ];
        plan = λ m.
            subst (λ o. Plan (Gone sinks contexts) (sessions m) o (events m js)) (sym (back m))
              (i.plan m);
        rising = i.rising;
        early = λ m d e. i.early m d (sym (back m) ∙ e);
        one = λ m k d e f. i.one m k d (sym (back m) ∙ e) (sym (back k) ∙ f);
        known = i.known;
        counted = i.counted ∙ ap how_many (sym (fun_ext back));
      }

  -- Jobs with the same events.
  pub Queue-jobs :
      (ks : List Job)
      → ((n : Name) → events n js ≡ events n ks)
      → (Rising lo contexts js → Rising lo contexts ks)
      → Queue lo sinks contexts sessions js devices count opened
      → Queue lo sinks contexts sessions ks devices count opened
  Queue-jobs ks e r i = record {
    linked = i.linked;
    plan =
        λ n. subst (Plan (Gone sinks contexts) (sessions n) (devices n).callback) (e n) (i.plan n);
    rising = r i.rising;
    early = i.early;
    one = i.one;
    known = i.known;
    counted = i.counted;
  }

  -- The Sinks that were told stay so.
  pub Queue-sinks :
      (sinks' : ℕ → Sink)
      → ((c : ℕ) → Gone sinks contexts c → Gone sinks' contexts c)
      → Queue lo sinks contexts sessions js devices count opened
      → Queue lo sinks' contexts sessions js devices count opened
  Queue-sinks sinks' g i = record {
    linked = i.linked;
    plan = λ n.
        Plan-mono (Gone sinks contexts) (Gone sinks' contexts) (sessions n) (devices n).callback
          (events n js) g (i.plan n);
    rising = i.rising;
    early = i.early;
    one = i.one;
    known = i.known;
    counted = i.counted;
  }
