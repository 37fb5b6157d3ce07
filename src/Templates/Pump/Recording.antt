-- ===== src/Templates/Pump/Recording.antt =====
-- exercises/templatelab/policies.h: RecordingSdk, the double with its scripts.
use going_unmanaged.Prelude.{
  ℕ, zero, suc, ◌+◌, ◌-◌, ◌≤◌, ◌<◌, ◌≡◌, refl, ap, List, [], ◌∷◌, Option, none, some, false, not,
  if◌then◌else◌, ◌==◌, ne→==, Bytes, length, get_elem?, arith,
}
use going_unmanaged.Plugin.Int32.{ℤ}
use going_unmanaged.Templates.Pump.{Policy, View, Laws}

pub record Recording : Type 0 where
  pub scripts : List (List ℤ)
  pub open_count : ℕ
  pub close_count : ℕ

unfoldable pub record_open : Bytes → Recording → Option (ℕ × Recording)
record_open name w = some (w.open_count + 1, record w { open_count = w.open_count + 1 })

unfoldable pub record_close : ℕ → Recording → Recording
record_close h w = if not (h == 0) then record w { close_count = w.close_count + 1 } else w

-- scripts.at throws where there is no script.
unfoldable pub record_poll : ℕ → Recording → Option (List ℤ × Recording)
record_poll h w =
    if h == 0
    then some ([], w)
    else elim (get_elem? w.scripts (h - 1)) as (λ r. Option (List ℤ × Recording)) [
      | none ↦ none
      | some script ↦ some (script, w)
    ]

abbrev pub recording_sdk : Policy
recording_sdk = record {
  World = Recording;
  Handle = ℕ;
  Sample = ℤ;
  no_handle = 0;
  differs = λ a b. not (a == b);
  open_handle = record_open;
  close_handle = record_close;
  poll_handle = record_poll;
}

get_elem?-lt :
    {A : Type 0} (xs : List A) (i : ℕ) → i < length xs → (x : A) × (get_elem? xs i ≡ some x)
get_elem?-lt [] i l = absurd (omega arith)
get_elem?-lt (x ∷ xs) zero l = (x, refl)
get_elem?-lt (x ∷ xs) (suc i) l = get_elem?-lt xs i (omega arith)

abbrev pub Opened : ℕ → Recording → Type 0
Opened h w = (0 < h) × (h ≤ length w.scripts) × (w.close_count < w.open_count)

not_none : (h : ℕ) → 0 < h → (h == 0) ≡ false
not_none h l = ne→== h 0 (λ e. absurd (omega arith))

close_one :
    (h : ℕ) (w : Recording)
    → Opened h w
    → (record_close h w).open_count - (record_close h w).close_count + 1
      ≡ w.open_count - w.close_count
unfolding record_close
close_one h w (l, fits', more) = rw (not_none h l) (omega arith)

poll_one :
    (h : ℕ) (w : Recording) → Opened h w → (script : List ℤ) × (record_poll h w ≡ some (script, w))
unfolding record_poll
poll_one h w (l, fits', more) =
    let (script, e) = get_elem?-lt w.scripts (h - 1) (omega arith) in
    (script, rw (not_none h l, e) refl)

-- There is room for one more session while there is a script for it.
abbrev pub recording_view : View recording_sdk
recording_view = record {
  Room = λ name w. (w.open_count < length w.scripts) × (w.close_count ≤ w.open_count);
  IsOpen = Opened;
  live = λ w. w.open_count - w.close_count;
}

pub recording_sdk-Laws : Laws recording_sdk recording_view
unfolding record_open record_close
recording_sdk-Laws = record {
  opens = λ name w (script, counted). (
    w.open_count + 1,
    record w { open_count = w.open_count + 1 },
    refl,
    ap not (not_none (w.open_count + 1) (omega arith)),
    (omega arith, omega arith, omega arith),
    omega arith,
  );
  closes = close_one;
  closes_none = λ w. refl;
  none_closed = refl;
  polls = λ h w o. let (script, e) = poll_one h w o in (script, w, e, o, refl);
}
