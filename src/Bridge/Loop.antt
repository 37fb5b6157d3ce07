-- ===== src/Bridge/Loop.antt =====
-- exercises/bridgelab: the loop of Drain comes to its end, whatever its jobs post.
use going_unmanaged.Prelude.{
  ◌≡◌, refl, ap, ◌∙◌, sym, List, [], ◌∷◌, ◌++◌, append_assoc, append-nil, none, some, true, length,
}
use going_unmanaged.Bridge.{
  Job, gives, with_host, calls_post, calls_drain, Completion, State, post, take_front, job_done,
  drain_nested, call, drain_loop,
}
use going_unmanaged.Bridge.Order.{Inv, post-Inv, take_front-Inv, job_done-Inv, nested_in_drain}

-- What a job of a running Drain leaves: it has put `more` behind the queue.
record Called (s t : State) : Type 0 where
  more : List Job
  inv : Inv t
  same_draining : t.draining ≡ s.draining
  same_current : t.current ≡ s.current
  same_batch : t.batch ≡ s.batch
  same_ran : t.ran ≡ s.ran
  more_jobs : t.jobs ≡ s.jobs ++ more
  more_posted : t.posted ≡ s.posted ++ more

-- A call whose first thing posts `js` is one that posts those and what it posts after that.
more-Called :
    {s r t : State} (js : List Job)
    → r.draining ≡ s.draining
    → r.current ≡ s.current
    → r.batch ≡ s.batch
    → r.ran ≡ s.ran
    → r.jobs ≡ s.jobs ++ js
    → r.posted ≡ s.posted ++ js
    → Called r t
    → Called s t
more-Called {s} {r} {t} js d c b n j p z = record {
  more = js ++ z.more;
  inv = z.inv;
  same_draining = z.same_draining ∙ d;
  same_current = z.same_current ∙ c;
  same_batch = z.same_batch ∙ b;
  same_ran = z.same_ran ∙ n;
  more_jobs = z.more_jobs ∙ ap (λ x. x ++ z.more) j ∙ append_assoc s.jobs js z.more;
  more_posted = z.more_posted ∙ ap (λ x. x ++ z.more) p ∙ append_assoc s.posted js z.more;
}

-- A job of a running Drain comes to its end.
call_lem :
    (j : Job) (s : State)
    → s.draining ≡ true
    → Inv s
    → (c : Completion) × (t : State) × (call drain_nested j s ≡ some (c, t)) × Called s t
unfolding call post
call_lem (gives c) s d i = (
  c,
  s,
  refl,
  record {
    more = [];
    inv = i;
    same_draining = refl;
    same_current = refl;
    same_batch = refl;
    same_ran = refl;
    more_jobs = sym (append-nil s.jobs);
    more_posted = sym (append-nil s.posted);
  },
)
call_lem (with_host f next) s d i =
    let moved : State = record s { host = f s.host } in
    let still : Inv moved = record {
      order = i.order;
      answered = i.answered;
      no_batch = i.no_batch;
      no_job = i.no_job;
    } in
    let (c, t, e, z) = call_lem (next s.host) moved d still in
    (
      c,
      t,
      e,
      more-Called [] refl refl refl refl (sym (append-nil s.jobs)) (sym (append-nil s.posted)) z,
    )
call_lem (calls_post j next) s d i =
    let (c, t, e, z) = call_lem (next (length s.posted)) (post j s) d (post-Inv j s i) in
    (c, t, e, more-Called (j ∷ []) refl refl refl refl refl refl z)
call_lem (calls_drain next) s d i =
    let (c, t, e, z) = call_lem (next 0) s d i in (c, t, rw (call, nested_in_drain s d) e, z)

-- What the loop of Drain leaves.
pub record Drained (batch : List Job) (s t : State) : Type 0 where
  pub more : List Job
  pub inv : Inv t
  pub no_current : t.current ≡ none
  pub empty : t.batch ≡ []
  pub all_ran : t.ran ≡ s.ran ++ batch
  pub more_jobs : t.jobs ≡ s.jobs ++ more
  pub more_posted : t.posted ≡ s.posted ++ more

pub drain_loop_lem :
    (batch : List Job) (s : State)
    → s.draining ≡ true
    → s.current ≡ none
    → s.batch ≡ batch
    → Inv s
    → (t : State) × (drain_loop batch s ≡ some t) × Drained batch s t
unfolding drain_loop take_front job_done
drain_loop_lem [] s d c b i = (
  s,
  refl,
  record {
    more = [];
    inv = i;
    no_current = c;
    empty = b;
    all_ran = sym (append-nil s.ran);
    more_jobs = sym (append-nil s.jobs);
    more_posted = sym (append-nil s.posted);
  },
)
drain_loop_lem (j ∷ rest) s d c b i =
    let (a, u, called, z) = call_lem j (take_front j rest s) d (take_front-Inv j rest s d c b i) in
    let (t, looped, w) =
      drain_loop_lem rest (job_done a u) (z.same_draining ∙ d) refl z.same_batch
        (job_done-Inv j a u z.same_current z.inv) in
    (
      t,
      rw (drain_loop, called) looped,
      record {
        more = z.more ++ w.more;
        inv = w.inv;
        no_current = w.no_current;
        empty = w.empty;
        all_ran = w.all_ran ∙ ap (λ x. x ++ rest) z.same_ran ∙ append_assoc s.ran (j ∷ []) rest;
        more_jobs =
            w.more_jobs ∙ ap (λ x. x ++ w.more) z.more_jobs ∙ append_assoc s.jobs z.more w.more;
        more_posted =
            w.more_posted
            ∙ ap (λ x. x ++ w.more) z.more_posted
            ∙ append_assoc s.posted z.more w.more;
      },
    )
