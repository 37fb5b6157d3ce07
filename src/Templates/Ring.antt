-- ===== src/Templates/Ring.antt =====
-- exercises/templatelab/util.h: Ring<T, N>.
pub mod Holds
pub mod Newest
use going_unmanaged.Prelude.{
  ℕ, ◌+◌, ◌-◌, ◌%◌, List, [], ◌∷◌, Option, if◌then◌else◌, ltb, set, get_elem?, replicate,
}

pub record Ring (T : Type 0) : Type 0 where
  pub data_ : List T
  pub head : ℕ
  pub size : ℕ

module _ {T : Type 0} (n : ℕ) where
  -- A new ring; `value` is T{}.
  unfoldable pub empty_ring : T → Ring T
  empty_ring value = record { data_ = replicate n value; head = 0; size = 0 }

  unfoldable pub push : T → Ring T → Ring T
  push value r = record {
    data_ = set r.data_ r.head value;
    head = (r.head + 1) % n;
    size = if ltb r.size n then r.size + 1 else r.size;
  }

  -- `none` for an index out of the array, which is undefined.
  unfoldable pub oldest : Ring T → Option T
  oldest r = get_elem? r.data_ ((r.head + n - r.size) % n)

  -- Pushes, one after the other.
  unfoldable pub push_all : List T → Ring T → Ring T
  unfolding push
  push_all [] r = r
  push_all (value ∷ values) r = push_all values (push value r)
