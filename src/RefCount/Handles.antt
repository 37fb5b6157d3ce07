-- ===== src/RefCount/Handles.antt =====
-- exercises/comlab/ref.h: ThingHandle. A variable of the client is its place in the list of handles;
-- one whose scope has ended holds no reference.
use going_unmanaged.Prelude.{
  ℕ, List, [], ◌∷◌, ◌++◌, Option, none, some, true, get_elem?, set, length, ltb, if◌then◌else◌,
  ◌>>=◌,
}
use going_unmanaged.RefCount.{
  State, ErrCode, no_err, thing_retain, thing_release, thing_acquire, project_peek_active, setup,
  shutdown,
}

-- `ref_` of a variable.
abbrev pub slot : List (Option ℕ) → ℕ → Option ℕ
slot hs i = elim (get_elem? hs i) [ none ↦ none | some h ↦ h ]

abbrev pub handle_at : State → ℕ → Option ℕ
handle_at s i = slot s.handles i

abbrev pub add_handle : State → Option ℕ → State
add_handle s h = record s { handles = s.handles ++ h ∷ [] }

abbrev pub set_handle : State → ℕ → Option ℕ → State
set_handle s i h = record s { handles = set s.handles i h }

-- `if (ref_ != nullptr) Thing_Retain(ref_)`, and the same for Thing_Release.
unfoldable pub keep_ref : Option ℕ → State → Option State
keep_ref none s = some s
keep_ref (some p) s = do r ← thing_retain (some p) s; some (r.1)

unfoldable pub drop_ref : Option ℕ → State → Option State
drop_ref none s = some s
drop_ref (some p) s = do r ← thing_release (some p) s; some (r.1)

-- A new variable for a pointer that was retained on the caller's behalf, or borrowed.
unfoldable pub adopt : Option ℕ → State → Option State
adopt raw s = some (add_handle s raw)

unfoldable pub share : Option ℕ → State → Option State
unfolding keep_ref
share raw s = do s' ← keep_ref raw s; some (add_handle s' raw)

unfoldable pub copy_construct : ℕ → State → Option State
unfolding keep_ref
copy_construct other s = do
  s' ← keep_ref (handle_at s other) s
  some (add_handle s' (handle_at s other))

-- Copy and swap: the temporary takes a reference, then its destructor drops the old one.
unfoldable pub copy_assign : ℕ → ℕ → State → Option State
unfolding keep_ref drop_ref
copy_assign this other s = do
  s' ← keep_ref (handle_at s other) s
  drop_ref (handle_at s this) (set_handle s' this (handle_at s other))

unfoldable pub move_construct : ℕ → State → Option State
move_construct other s = some (add_handle (set_handle s other none) (handle_at s other))

-- `std::swap(ref_, other.ref_)`
unfoldable pub move_assign : ℕ → ℕ → State → Option State
move_assign this other s =
    some (set_handle (set_handle s this (handle_at s other)) other (handle_at s this))

unfoldable pub destroy : ℕ → State → Option State
unfolding drop_ref
destroy this s = drop_ref (handle_at s this) (set_handle s this none)

-- What a plug-in written against ref.h and its host do: each raw pointer goes into a handle at once.
pub data Op : Type 0 where
  acquire : ℕ → Op
  peek : Op
  copies : ℕ → Op
  assigns : ℕ → ℕ → Op
  moves : ℕ → Op
  move_assigns : ℕ → ℕ → Op
  destroys : ℕ → Op
  setups : ℕ → ℕ → Op
  shutdowns : Op

-- `adopt` of what a successful Thing_Acquire wrote.
abbrev pub adopt_acquired : ErrCode × Option ℕ × State → Option State
adopt_acquired (no_err, p, s) = adopt p s
adopt_acquired (e, p, s) = some s

-- A program names variables that it has: a step with another one does nothing.
abbrev pub with_variable : ℕ → State → Option State → Option State
with_variable i s r = if ltb i (length s.handles) then r else some s

unfoldable pub step : Op → State → Option State
step (acquire index) s = do r ← thing_acquire index true s; adopt_acquired r
step peek s = share (project_peek_active s) s
step (copies other) s = copy_construct other s
step (assigns this other) s = with_variable this s (copy_assign this other s)
step (moves other) s = move_construct other s
step (move_assigns this other) s =
    with_variable this s (with_variable other s (move_assign this other s))
step (destroys this) s = destroy this s
step (setups n a) s = setup n a s
step shutdowns s = shutdown s

unfoldable pub run : List Op → State → Option State
unfolding step
run [] s = some s
run (o ∷ os) s = do s' ← step o s; run os s'

unfoldable pub start : State
start = record { things = []; table = none; active = 0; live = 0; handles = [] }
