-- ===== src/Bridge/Order.antt =====
-- exercises/bridgelab/main_thread_queue.h: the order of jobs in every interleaving of the threads.
use going_unmanaged.Prelude.{
  ℕ, ◌+◌, ◌≡◌, refl, ap, ◌∙◌, sym, List, [], ◌∷◌, ◌++◌, append_assoc, append-nil, Option, none,
  some, true, false, length, length-append, arith, subst, Bool-cases, inl, inr,
}
use going_unmanaged.Bridge.{
  Host, Job, gives, with_host, calls_post, calls_drain, Completion, State, initial, post,
  drain_begin, take_front, job_done, drain_end, drain_nested, act,
}

-- A step of some thread: a Post, the start of a Drain, the start of the job in front, the next thing that
-- the running job does, the end of the Drain, and a change of the host in any other way.
pub data Step : State → State → Type 0 where
  posts : (s : State) (j : Job) → Step s (post j s)
  begins : (s : State) → s.draining ≡ false → Step s (drain_begin s)
  takes :
      (s : State) (j : Job) (rest : List Job)
      → s.draining ≡ true
      → s.current ≡ none
      → s.batch ≡ j ∷ rest
      → Step s (take_front j rest s)
  acts : (s t : State) (j : Job) → s.current ≡ some j → act j s ≡ some t → Step s t
  ends : (s : State) → s.draining ≡ true → s.current ≡ none → s.batch ≡ [] → Step s (drain_end s)
  changes : (s : State) (h : Host) → Step s (record s { host = h })

pub data Reach (s : State) : State → Type 0 where
  here : Reach s s
  next : {t u : State} → Reach s t → Step t u → Reach s u

-- How many jobs are running: none or one.
abbrev pub running : Option Job → ℕ
running none = 0
running (some j) = 1

pub record Inv (s : State) : Type 0 where
  pub order : s.posted ≡ s.ran ++ (s.batch ++ s.jobs)
  pub answered : length s.answers + running s.current ≡ length s.ran
  pub no_batch : s.draining ≡ false → s.batch ≡ []
  pub no_job : s.draining ≡ false → s.current ≡ none

initial-Inv : (h : Host) → Inv (initial h)
unfolding initial
initial-Inv h = record { order = refl; answered = refl; no_batch = λ e. refl; no_job = λ e. refl }

append_3 {ℓ} : {A : Type ℓ} (a b c d : List A) → (a ++ (b ++ c)) ++ d ≡ a ++ (b ++ (c ++ d))
append_3 a b c d = append_assoc a (b ++ c) d ∙ ap (λ x. a ++ x) (append_assoc b c d)

pub post-Inv : (j : Job) (s : State) → Inv s → Inv (post j s)
unfolding post
post-Inv j s i = record {
  order = ap (λ x. x ++ j ∷ []) i.order ∙ append_3 s.ran s.batch s.jobs (j ∷ []);
  answered = i.answered;
  no_batch = i.no_batch;
  no_job = i.no_job;
}

pub drain_begin-Inv : (s : State) → s.draining ≡ false → Inv s → Inv (drain_begin s)
unfolding drain_begin
drain_begin-Inv s e i =
    let none_left : s.batch ≡ [] = i.no_batch e in
    record {
      order = (rw none_left at i.order) ∙ ap (λ x. s.ran ++ x) (sym (append-nil s.jobs));
      answered = i.answered;
      no_batch = λ h. cc;
      no_job = λ h. i.no_job e;
    }

pub take_front-Inv :
    (j : Job) (rest : List Job) (s : State)
    → s.draining ≡ true
    → s.current ≡ none
    → s.batch ≡ j ∷ rest
    → Inv s
    → Inv (take_front j rest s)
unfolding take_front
take_front-Inv j rest s e c b i =
    let idle : running s.current ≡ 0 = ap running c in
    record {
      order = (rw b at i.order) ∙ sym (append_assoc s.ran (j ∷ []) (rest ++ s.jobs));
      answered = omega (arith, i.answered, idle, length-append s.ran (j ∷ []));
      no_batch = λ h. cc;
      no_job = λ h. cc;
    }

pub job_done-Inv :
    (j : Job) (a : Completion) (s : State) → s.current ≡ some j → Inv s → Inv (job_done a s)
unfolding job_done
job_done-Inv j a s c i =
    let busy : running s.current ≡ 1 = ap running c in
    record {
      order = i.order;
      answered = omega (arith, i.answered, busy, length-append s.answers (a ∷ []));
      no_batch = i.no_batch;
      no_job = λ h. refl;
    }

-- A job goes on, and the queue is as it was.
goes_on-Inv :
    (j rest : Job) (h : Host) (s : State)
    → s.current ≡ some j
    → Inv s
    → Inv (record s { host = h; current = some rest })
goes_on-Inv j rest h s c i =
    let busy : running s.current ≡ 1 = ap running c in
    record {
      order = i.order;
      answered = omega (arith, i.answered, busy);
      no_batch = i.no_batch;
      no_job = λ e. let idle : s.current ≡ none = i.no_job e in cc;
    }

pub nested_in_drain : (s : State) → s.draining ≡ true → drain_nested s ≡ some (0, s)
unfolding drain_nested
nested_in_drain s y = rw y refl

nested_outside : (s : State) → s.draining ≡ false → drain_nested s ≡ none
unfolding drain_nested
nested_outside s n = rw n refl

act-Inv : (j : Job) (s t : State) → s.current ≡ some j → act j s ≡ some t → Inv s → Inv t
unfolding act post
act-Inv (gives a) s t c e i =
    let same : job_done a s ≡ t = cc in subst Inv same (job_done-Inv (gives a) a s c i)
act-Inv (with_host f go) s t c e i =
    let same : record s { host = f s.host; current = some (go s.host) } ≡ t = cc in
    subst Inv same (goes_on-Inv (with_host f go) (go s.host) (f s.host) s c i)
act-Inv (calls_post j go) s t c e i =
    let same : record (post j s) { current = some (go (length s.posted)) } ≡ t = cc in
    subst Inv same
      (goes_on-Inv (calls_post j go) (go (length s.posted)) s.host (post j s) c (post-Inv j s i))
act-Inv (calls_drain go) s t c e i = elim (Bool-cases s.draining) [
  | inl y ↦
      let nested : some (record s { current = some (go 0) }) ≡ some t =
        rw (nested_in_drain s y) at e in
      let same : record s { current = some (go 0) } ≡ t = cc in
      subst Inv same (goes_on-Inv (calls_drain go) (go 0) s.host s c i)
  | inr n ↦ cc (rw (nested_outside s n) at e)
]

-- What the running job does next is defined: a Drain in it finds `draining_` set.
act-defined : (j : Job) (s : State) → s.current ≡ some j → Inv s → (t : State) × (act j s ≡ some t)
unfolding act
act-defined (gives a) s c i = (job_done a s, refl)
act-defined (with_host f go) s c i =
    (record s { host = f s.host; current = some (go s.host) }, refl)
act-defined (calls_post j go) s c i =
    (record (post j s) { current = some (go (length s.posted)) }, refl)
act-defined (calls_drain go) s c i = elim (Bool-cases s.draining) [
  | inl y ↦ (record s { current = some (go 0) }, rw (act, nested_in_drain s y) refl)
  | inr n ↦ let idle : s.current ≡ none = i.no_job n in cc
]

drain_end-Inv : (s : State) → s.current ≡ none → s.batch ≡ [] → Inv s → Inv (drain_end s)
unfolding drain_end
drain_end-Inv s c b i = record {
  order = i.order;
  answered = i.answered;
  no_batch = λ h. b;
  no_job = λ h. c;
}

Step-Inv : {s t : State} → Step s t → Inv s → Inv t
Step-Inv (posts s j) i = post-Inv j s i
Step-Inv (begins s e) i = drain_begin-Inv s e i
Step-Inv (takes s j rest e c b) i = take_front-Inv j rest s e c b i
Step-Inv (acts s t j c e) i = act-Inv j s t c e i
Step-Inv (ends s e c b) i = drain_end-Inv s c b i
Step-Inv (changes s h) i = record {
  order = i.order;
  answered = i.answered;
  no_batch = i.no_batch;
  no_job = i.no_job;
}

-- In every interleaving of posts, of the steps of Drain, of what the jobs do (posts and Drains of their own
-- included) and of changes of the host, the jobs that were begun, then those of the running Drain, then
-- those in the queue are the posted ones in their order, each once, there is a completion for each that was
-- begun but the one that is running, and no job runs and no batch is left outside of a Drain.
pub Reach-Inv : (h : Host) (s : State) → Reach (initial h) s → Inv s
Reach-Inv h s here = initial-Inv h
Reach-Inv h s (next r step) = Step-Inv step (Reach-Inv h _ r)
