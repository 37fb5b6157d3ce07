-- ===== src/Threaded/Outcome.antt =====
-- solutions/device_threaded_solution.cpp: what is true in every interleaving.
use going_unmanaged.Prelude.{
  ℕ, ◌+◌, ◌-◌, ◌%◌, ◌<◌, ◌≡◌, refl, ap, ◌∙◌, sym, some, Bool-cases, false, ◌==◌, ==_iff, inl, inr,
  arith, get_elem?,
}
use going_unmanaged.Threaded.{
  Sink, State, Step, Reach, set_sink, poller, construct, tell, ask, leave, keep, release, flush,
}
use going_unmanaged.Threaded.Samples.{Follows-nth}
use going_unmanaged.Threaded.Poller.{still_dead}
use going_unmanaged.Threaded.Run.{poller-Moves}
use going_unmanaged.Threaded.Safe.{reach-Inv, new_context}

-- A Sink is written, but not its samples.
rewrites :
    (d : ℕ) (x : Sink) (s : State) (c : ℕ)
    → x.samples ≡ (s.sinks d).samples
    → ((s.sinks d).alive ≡ false → x.alive ≡ false)
    → (s.sinks c).alive ≡ false
    → (((set_sink d x s).sinks c).samples ≡ (s.sinks c).samples)
      × (((set_sink d x s).sinks c).alive ≡ false)
rewrites d x s c e f dead = (
  elim (Bool-cases (d == c)) [
    | inl y ↦ rw y (e ∙ ap (λ z. (s.sinks z).samples) ((==_iff d c).0 y))
    | inr n ↦ rw n refl
  ],
  still_dead d x s.sinks f c dead,
)

-- Sample number k of a Sink, from 0, is 100 + k % 8, whatever the interleaving and whenever its Session
-- was destroyed.
pub samples_in_order :
    (s : State) (c k x : ℕ) → Reach s → get_elem? (s.sinks c).samples k ≡ some x → x ≡ 100 + k % 8
samples_in_order s c k x r e =
    let at = Follows-nth 0 (s.sinks c).samples k x ((reach-Inv r).flow c).right e in
    omega (arith, at)

-- In a reached state no step of a thread adds a sample to a Sink whose flag is down, or sets it again,
-- where a Session has made the Sink.
pub none_late :
    (s t : State) (c : ℕ)
    → Reach s
    → Step s t
    → c < s.contexts
    → (s.sinks c).alive ≡ false
    → ((t.sinks c).samples ≡ (s.sinks c).samples) × ((t.sinks c).alive ≡ false)
unfolding construct tell ask leave keep release flush
none_late s t c r (Step.constructs n m f) l e = rw (new_context c s l) (refl, e)
none_late s t c r (Step.tells n d m f) l e =
    rewrites d (record (s.sinks d) { alive = false }) s c refl (λ z. refl) e
none_late s t c r (Step.asks n d m) l e = (refl, e)
none_late s t c r (Step.leaves d m) l e =
    rewrites d (record (s.sinks d) { owned = false }) s c refl (λ z. z) e
none_late s t c r (Step.keeps n d m f) l e =
    rewrites d (record (s.sinks d) { kept = (s.sinks d).kept + 1 }) s c refl (λ z. z) e
none_late s t c r (Step.releases d m b) l e =
    rewrites d (record (s.sinks d) { kept = (s.sinks d).kept - 1 }) s c refl (λ z. z) e
none_late s t c r (Step.flushes m) l e = (refl, e)
none_late s t c r (Step.wakes m k) l e = (refl, e)
none_late s t c r (Step.streams m) l e = (refl, e)
none_late s t c r (Step.stops m f) l e = (refl, e)
none_late s t c r (Step.polls p) l e =
    let (u, eq, i, f) = poller-Moves s (reach-Inv r) in
    let same_state : u ≡ t = cc in
    let at : t.sinks c ≡ s.sinks c = ap (λ (v : State). v.sinks c) (sym same_state) ∙ f c e in
    (ap (λ (x : Sink). x.samples) at, ap (λ (x : Sink). x.alive) at ∙ e)

-- In every reached state the poller's thread can go on: no assertion of its code fails, while the main
-- thread makes no two Sessions with one name at a time and has none at StopAndJoin.
pub no_assertion_fails : (s : State) → Reach s → (t : State) × (poller s ≡ some t)
no_assertion_fails s r = let (t, e, i, f) = poller-Moves s (reach-Inv r) in (t, e)
