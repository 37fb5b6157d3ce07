-- ===== src/Threaded/Plan.antt =====
-- solutions/device_threaded_solution.cpp: the jobs that are posted and not yet run, in their order.
use going_unmanaged.Prelude.{
  ℕ, ◌+◌, ◌≤◌, ◌≡◌, refl, ap, List, [], ◌∷◌, ◌++◌, Option, none, some, if◌then◌else◌, Bool-cases,
  inl, inr, arith, true, false,
}
use going_unmanaged.Device.{same}
use going_unmanaged.Threaded.{Name, Job, open_job, close_job, flush_job, set_value, stream_job}

-- What the jobs do to the device of a name: it gets a context, or is closed.
abbrev pub events : Name → List Job → List (Option ℕ)
events n [] = []
events n (open_job m c ∷ js) = if same m n then some c ∷ events n js else events n js
events n (close_job m ∷ js) = if same m n then none ∷ events n js else events n js
events n (flush_job ∷ js) = events n js
events n (set_value ∷ js) = events n js
events n (stream_job ∷ js) = events n js

pub events-open_same :
    (m n : Name) (c : ℕ) (js : List Job)
    → same m n ≡ true
    → events n (open_job m c ∷ js) ≡ some c ∷ events n js
events-open_same m n c js y = rw y refl

pub events-open_other :
    (m n : Name) (c : ℕ) (js : List Job)
    → same m n ≡ false
    → events n (open_job m c ∷ js) ≡ events n js
events-open_other m n c js x = rw x refl

pub events-close_same :
    (m n : Name) (js : List Job)
    → same m n ≡ true
    → events n (close_job m ∷ js) ≡ none ∷ events n js
events-close_same m n js y = rw y refl

pub events-close_other :
    (m n : Name) (js : List Job) → same m n ≡ false → events n (close_job m ∷ js) ≡ events n js
events-close_other m n js x = rw x refl

pub events-append : (n : Name) (js ks : List Job) → events n (js ++ ks) ≡ events n js ++ events n ks
events-append n [] ks = refl
events-append n (open_job m c ∷ js) ks = elim (Bool-cases (same m n)) [
  | inl y ↦ rw y (ap (λ r. some c ∷ r) (events-append n js ks))
  | inr x ↦ rw x (events-append n js ks)
]
events-append n (close_job m ∷ js) ks = elim (Bool-cases (same m n)) [
  | inl y ↦ rw y (ap (λ r. none ∷ r) (events-append n js ks))
  | inr x ↦ rw x (events-append n js ks)
]
events-append n (flush_job ∷ js) ks = events-append n js ks
events-append n (set_value ∷ js) ks = events-append n js ks
events-append n (stream_job ∷ js) ks = events-append n js ks

-- From the context that a device has now to the one that it has at the end, each open finds it closed, and
-- each close finds it open, with a context of which `Gone` holds.
abbrev pub Plan : (ℕ → Type 0) → Option ℕ → Option ℕ → List (Option ℕ) → Type 0
Plan Gone last now [] = now ≡ last
Plan Gone last now (some c ∷ es) = (now ≡ none) × Plan Gone last (some c) es
Plan Gone last now (none ∷ es) = ((c : ℕ) × (now ≡ some c) × Gone c) × Plan Gone last none es

pub Plan-mono :
    (G H : ℕ → Type 0) (last now : Option ℕ) (es : List (Option ℕ))
    → ((c : ℕ) → G c → H c)
    → Plan G last now es
    → Plan H last now es
Plan-mono G H last now [] f p = p
Plan-mono G H last now (some c ∷ es) f p = (p.0, Plan-mono G H last (some c) es f p.1)
Plan-mono G H last now (none ∷ es) f ((c, e, g), p) =
    ((c, e, f c g), Plan-mono G H last none es f p)

pub Plan-open :
    (G : ℕ → Type 0) (c : ℕ) (now : Option ℕ) (es : List (Option ℕ))
    → Plan G none now es
    → Plan G (some c) now (es ++ some c ∷ [])
Plan-open G c now [] p = (p, refl)
Plan-open G c now (some d ∷ es) p = (p.0, Plan-open G c (some d) es p.1)
Plan-open G c now (none ∷ es) p = (p.0, Plan-open G c none es p.1)

pub Plan-close :
    (G : ℕ → Type 0) (c : ℕ) (now : Option ℕ) (es : List (Option ℕ))
    → G c
    → Plan G (some c) now es
    → Plan G none now (es ++ none ∷ [])
Plan-close G c now [] g p = ((c, p, g), refl)
Plan-close G c now (some d ∷ es) g p = (p.0, Plan-close G c (some d) es g p.1)
Plan-close G c now (none ∷ es) g p = (p.0, Plan-close G c none es g p.1)

-- The jobs that open a device have the contexts from `lo` on, one after the other, up to `hi`.
abbrev pub Rising : ℕ → ℕ → List Job → Type 0
Rising lo hi [] = lo ≡ hi
Rising lo hi (open_job m c ∷ js) = (c ≡ lo) × Rising (lo + 1) hi js
Rising lo hi (close_job m ∷ js) = Rising lo hi js
Rising lo hi (flush_job ∷ js) = Rising lo hi js
Rising lo hi (set_value ∷ js) = Rising lo hi js
Rising lo hi (stream_job ∷ js) = Rising lo hi js

pub Rising-le : (lo hi : ℕ) (js : List Job) → Rising lo hi js → lo ≤ hi
Rising-le lo hi [] r = omega arith
Rising-le lo hi (open_job m c ∷ js) r = omega (arith, Rising-le (lo + 1) hi js r.1)
Rising-le lo hi (close_job m ∷ js) r = Rising-le lo hi js r
Rising-le lo hi (flush_job ∷ js) r = Rising-le lo hi js r
Rising-le lo hi (set_value ∷ js) r = Rising-le lo hi js r
Rising-le lo hi (stream_job ∷ js) r = Rising-le lo hi js r

pub Rising-append :
    (lo mid hi : ℕ) (js ks : List Job)
    → Rising lo mid js
    → Rising mid hi ks
    → Rising lo hi (js ++ ks)
Rising-append lo mid hi [] ks r q = rw r q
Rising-append lo mid hi (open_job m c ∷ js) ks r q =
    (r.0, Rising-append (lo + 1) mid hi js ks r.1 q)
Rising-append lo mid hi (close_job m ∷ js) ks r q = Rising-append lo mid hi js ks r q
Rising-append lo mid hi (flush_job ∷ js) ks r q = Rising-append lo mid hi js ks r q
Rising-append lo mid hi (set_value ∷ js) ks r q = Rising-append lo mid hi js ks r q
Rising-append lo mid hi (stream_job ∷ js) ks r q = Rising-append lo mid hi js ks r q
