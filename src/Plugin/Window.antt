-- ===== src/Plugin/Window.antt =====
-- exercises/interoplab/plugin.h: how long a sink's target is held.
use going_unmanaged.Prelude.{
  ℕ, zero, suc, ◌≡◌, ◌≢◌, refl, ap, ◌∙◌, sym, subst, List, [], ◌∷◌, ◌++◌, Option, none, some, true,
  ◌==◌, ==_iff, Bool-cases, Option-cases, ◌⊎◌, inl, inr, get_elem?, set, get_elem?-set_ne, All,
}
use going_unmanaged.Plugin.{
  State, PluginImpl, PluginOptions, PluginSink, trampoline, throwing, impl_at, create, destroy,
  set_sink, clear_sink, pump, call_sink, options_size,
}
use going_unmanaged.Plugin.Int32.{ℤ, times, fits, is_positive}

-- The target that a handle would call.
abbrev pub target_of : Option PluginImpl → Option ℕ
target_of none = none
target_of (some p) = elim p.sink [ none ↦ none | some k ↦ some (p.user) ]

abbrev pub IsUnheld : ℕ → State → Type 0
IsUnheld t s = (h : ℕ) → target_of (impl_at s h) ≢ some t

pub data Op : Type 0 where
  creates : PluginOptions → Op
  destroys : ℕ → Op
  sets : ℕ → PluginSink → ℕ → Op
  clears : ℕ → Op
  pumps : ℕ → ℤ → Op

unfoldable pub step : Op → State → Option State
step (creates o) s = some ((create (some o) true s).2)
step (destroys h) s = elim (destroy (some h) s) [ none ↦ none | some (r, s') ↦ some s' ]
step (sets h k u) s = elim (set_sink (some h) (some k) u s) [ none ↦ none | some (r, s') ↦ some s' ]
step (clears h) s = elim (clear_sink (some h) s) [ none ↦ none | some (r, s') ↦ some s' ]
step (pumps h x) s = elim (pump (some h) x s) [ none ↦ none | some (r, s') ↦ some s' ]

unfoldable pub run : List Op → State → Option State
unfolding step
run [] s = some s
run (o ∷ os) s = elim (step o s) [ none ↦ none | some s' ↦ run os s' ]

-- The operation does not give the target to a handle.
abbrev pub Spares : ℕ → Op → Type 0
Spares t (sets h k u) = u ≢ t
Spares t o = Unit {0}

-- What a handle points to after a write.
impl_set :
    (xs : List (Option PluginImpl)) (i j : ℕ) (v : Option PluginImpl)
    → (elim (get_elem? (set xs i v) j) as (λ x. Option PluginImpl) [ none ↦ none | some p ↦ p ]
        ≡ elim (get_elem? xs j) as (λ x. Option PluginImpl) [ none ↦ none | some p ↦ p ])
      ⊎ (elim (get_elem? (set xs i v) j) as (λ x. Option PluginImpl) [ none ↦ none | some p ↦ p ]
          ≡ v)
impl_set [] i j v = inl refl
impl_set (x ∷ xs) zero zero v = inr refl
impl_set (x ∷ xs) zero (suc j) v = inl refl
impl_set (x ∷ xs) (suc i) zero v = inl refl
impl_set (x ∷ xs) (suc i) (suc j) v = impl_set xs i j v

set-IsUnheld :
    (t i : ℕ) (v : Option PluginImpl) (s : State)
    → IsUnheld t s
    → target_of v ≢ some t
    → IsUnheld t (record s { impls = set s.impls i v })
set-IsUnheld t i v s u n h e = elim (impl_set s.impls i h v) [
  | inl same ↦ u h (ap target_of (sym same) ∙ e)
  | inr new ↦ n (ap target_of (sym new) ∙ e)
]

impl_append :
    (xs : List (Option PluginImpl)) (v : Option PluginImpl) (j : ℕ)
    → (elim (get_elem? (xs ++ v ∷ []) j) as (λ x. Option PluginImpl) [ none ↦ none | some p ↦ p ]
        ≡ elim (get_elem? xs j) as (λ x. Option PluginImpl) [ none ↦ none | some p ↦ p ])
      ⊎ (elim (get_elem? (xs ++ v ∷ []) j) as (λ x. Option PluginImpl) [ none ↦ none | some p ↦ p ]
          ≡ v)
impl_append [] v zero = inr refl
impl_append [] v (suc j) = inl refl
impl_append (x ∷ xs) v zero = inl refl
impl_append (x ∷ xs) v (suc j) = impl_append xs v j

-- No handle has the target, and the target is as it was.
record Spared (t : ℕ) (s s' : State) : Type 0 where
  unheld : IsUnheld t s'
  same_target : get_elem? s'.targets t ≡ get_elem? s.targets t

-- What holds of the state that is left, if the run is defined.
abbrev Leaves : (State → Type 0) → Option State → Type 0
Leaves P none = Unit {0}
Leaves P (some s) = P s

create-Spared :
    (t : ℕ) (o : PluginOptions) (s : State) → IsUnheld t s → Spared t s (create (some o) true s).2
unfolding create
create-Spared t o s u = elim (Bool-cases (o.size == options_size)) [
  | inr n ↦ rw n (record { unheld = u; same_target = refl })
  | inl y ↦ elim (Bool-cases (is_positive o.channels)) [
    | inr n ↦ rw (y, n) (record { unheld = u; same_target = refl })
    | inl z ↦
        rw (y, z)
          (record {
            unheld = λ h e. elim (impl_append s.impls _ h) [
              | inl same ↦ u h (ap target_of (sym same) ∙ e)
              | inr new ↦ cc (ap target_of (sym new) ∙ e)
            ];
            same_target = refl;
          })
  ]
]

call_sink-Spared :
    (t user : ℕ) (k : PluginSink) (x : ℤ) (s : State)
    → IsUnheld t s
    → user ≢ t
    → Leaves (Spared t s) (elim (call_sink k x user s) [ none ↦ none | some (r, s') ↦ some s' ])
unfolding call_sink
call_sink-Spared t user throwing x s u n = record { unheld = u; same_target = refl }
call_sink-Spared t user trampoline x s u n = elim (Option-cases (get_elem? s.targets user)) [
  | inl w ↦ rw w tt
  | inr (target, w) ↦
      rw w (record { unheld = u; same_target = get_elem?-set_ne s.targets user t _ n })
]

step-Spared :
    (t : ℕ) (o : Op) (s : State) → Spares t o → IsUnheld t s → Leaves (Spared t s) (step o s)
unfolding step destroy set_sink clear_sink pump
step-Spared t (creates o) s f u = create-Spared t o s u
step-Spared t (destroys h) s f u = elim (Option-cases (impl_at s h)) [
  | inl w ↦ rw (Leaves, step, w) tt
  | inr (p, w) ↦
      rw (Leaves, step, w)
        (record { unheld = set-IsUnheld t h none s u (λ e. cc); same_target = refl })
]
step-Spared t (sets h k user) s f u = elim (Option-cases (impl_at s h)) [
  | inl w ↦ rw (Leaves, step, w) tt
  | inr (p, w) ↦
      rw (Leaves, step, w)
        (record { unheld = set-IsUnheld t h _ s u (λ e. f (cc)); same_target = refl })
]
step-Spared t (clears h) s f u = elim (Option-cases (impl_at s h)) [
  | inl w ↦ rw (Leaves, step, w) tt
  | inr (p, w) ↦
      rw (Leaves, step, w)
        (record { unheld = set-IsUnheld t h _ s u (λ e. cc); same_target = refl })
]
step-Spared t (pumps h x) s f u = elim (Option-cases (impl_at s h)) [
  | inl w ↦ rw (Leaves, step, w) tt
  | inr (p, w) ↦ elim (Option-cases p.sink) [
    | inl v ↦ rw (Leaves, step, w, v) (record { unheld = u; same_target = refl })
    | inr (k, v) ↦
        let held : target_of (impl_at s h) ≡ some (p.user) = rw (w, v) refl in
        let other : p.user ≢ t = λ e. u h (held ∙ ap some e) in
        elim (Bool-cases (fits (times x p.gain))) [
          | inl y ↦
              rw (Leaves, step, w, v, y) (call_sink-Spared t p.user k (times x p.gain) s u other)
          | inr n ↦ rw (Leaves, step, w, v, n) tt
        ]
  ]
]

Leaves-bind :
    (P Q : State → Type 0) (r : Option State) (k : State → Option State)
    → Leaves P r
    → ((s : State) → P s → Leaves Q (k s))
    → Leaves Q (elim r as (λ x. Option State) [ none ↦ none | some s' ↦ k s' ])
Leaves-bind P Q none k l f = tt
Leaves-bind P Q (some s) k l f = f s l

Leaves-mono :
    (P Q : State → Type 0) (r : Option State) → ((s : State) → P s → Q s) → Leaves P r → Leaves Q r
Leaves-mono P Q none f l = tt
Leaves-mono P Q (some s) f l = f s l

run-Spared :
    (t : ℕ) (os : List Op) (s : State)
    → All (Spares t) os
    → IsUnheld t s
    → Leaves (Spared t s) (run os s)
unfolding run
run-Spared t [] s f u = record { unheld = u; same_target = refl }
run-Spared t (o ∷ os) s (f, fs) u =
    Leaves-bind (Spared t s) (Spared t s) (step o s) (run os) (step-Spared t o s f u) λ s₁ l.
      Leaves-mono (Spared t s₁) (Spared t s) (run os s₁)
        (λ s₂ m. record { unheld = m.unheld; same_target = m.same_target ∙ l.same_target })
        (run-Spared t os s₁ fs l.unheld)

impl_set_self :
    (xs : List (Option PluginImpl)) (i : ℕ) (v : Option PluginImpl) (p : PluginImpl)
    → elim (get_elem? xs i) as (λ x. Option PluginImpl) [ none ↦ none | some q ↦ q ] ≡ some p
    → elim (get_elem? (set xs i v) i) as (λ x. Option PluginImpl) [ none ↦ none | some q ↦ q ] ≡ v
impl_set_self [] i v p e = cc
impl_set_self (x ∷ xs) zero v p e = refl
impl_set_self (x ∷ xs) (suc i) v p e = impl_set_self xs i v p e

-- What Plugin_ClearSink leaves of a handle.
abbrev cleared : ℕ → PluginImpl → State → State
cleared h p s = record s { impls = set s.impls h (some (record p { sink = none; user = 0 })) }

cleared-IsUnheld :
    (t h : ℕ) (s : State)
    → ((g : ℕ) → g ≢ h → target_of (impl_at s g) ≢ some t)
    → (p : PluginImpl) → impl_at s h ≡ some p
    → IsUnheld t (cleared h p s)
cleared-IsUnheld t h s others p w g e = elim (Bool-cases (g == h)) [
  | inl y ↦
      let none_here : target_of (impl_at (cleared h p s) h) ≡ none =
        ap target_of (impl_set_self s.impls h (some (record p { sink = none; user = 0 })) p w) in
      let held : target_of (impl_at (cleared h p s) h) ≡ some t =
        subst (λ i. target_of (impl_at (cleared h p s) i) ≡ some t) ((==_iff g h).0 y) e in
      cc
  | inr n ↦ elim (impl_set s.impls h g (some (record p { sink = none; user = 0 }))) [
    | inl same ↦ others g (λ y. cc ((==_iff g h).1 y)) (ap target_of (sym same) ∙ e)
    | inr new ↦ cc (ap target_of (sym new) ∙ e)
  ]
]

-- Where no other handle has the target, behind Plugin_ClearSink of a handle no sequence of calls
-- changes the target, unless a Plugin_SetSink names it again: it is not called.
pub sink_window :
    (t h : ℕ) (s s' : State) (os : List Op) (p : PluginImpl)
    → ((g : ℕ) → g ≢ h → target_of (impl_at s g) ≢ some t)
    → impl_at s h ≡ some p
    → All (Spares t) os
    → run (clears h ∷ os) s ≡ some s'
    → get_elem? s'.targets t ≡ get_elem? s.targets t
unfolding run step clear_sink
sink_window t h s s' os p others w f e =
    let rest : run os (cleared h p s) ≡ some s' = rw (run, step, w) at e in
    let left =
      subst (Leaves (Spared t (cleared h p s))) rest
        (run-Spared t os (cleared h p s) f (cleared-IsUnheld t h s others p w)) in
    left.same_target
