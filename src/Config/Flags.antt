-- ===== src/Config/Flags.antt =====
-- exercises/cookbook/flags.cpp, recipes 31 and 32: feature flags read once, and a set of flags. The
-- environment is a function from names to values, none where a name is not set.
use going_unmanaged.Prelude.{
  ℕ, Option, none, some, Bool, false, if◌then◌else◌, ◌==◌, Bytes, codes, bytes_eq,
}
use Prim.Native.Nat.{bit_and, bit_or}
use going_unmanaged.Plugin.Int32.{ℤ, pos, times, fits}
use going_unmanaged.Config.Chars.{from_chars}

pub record Features : Type 0 where
  pub audit : Bool
  pub fast_path : Bool
  pub batch_size : ℤ

unfoldable pub default_features : Features
default_features = record { audit = false; fast_path = false; batch_size = pos 64 }

-- Whether the variable is "1", or what it was before where it is not set.
unfoldable pub is_one : Option Bytes → Bool → Bool
unfolding bytes_eq
is_one none before = before
is_one (some v) before = bytes_eq v (codes "1")

unfoldable pub read_size : Option Bytes → ℤ → ℤ
unfolding from_chars
read_size none before = before
read_size (some v) before = elim (from_chars v) [ none ↦ before | some (size, rest) ↦ size ]

unfoldable pub from_environment : (Bytes → Option Bytes) → Features
unfolding default_features is_one read_size
from_environment getenv = record {
  audit = is_one (getenv (codes "MYPLUGIN_AUDIT")) default_features.audit;
  fast_path = is_one (getenv (codes "MYPLUGIN_FAST_PATH")) default_features.fast_path;
  batch_size = read_size (getenv (codes "MYPLUGIN_BATCH_SIZE")) default_features.batch_size;
}

-- A product that an int does not hold is undefined.
unfoldable pub process : Features → ℤ → Option ℤ
unfolding times fits
process features sample =
    if features.fast_path
    then some sample
    else if fits (times sample (pos 2))
    then some (times sample (pos 2))
    else none

-- A set of channels is the value of its std::uint8_t.
pub data Channel : Type 0 where
  none_of left right sub : Channel

unfoldable pub channel_value : Channel → ℕ
channel_value none_of = 0
channel_value left = 1
channel_value right = 2
channel_value sub = 4

unfoldable pub channel_or : ℕ → ℕ → ℕ
channel_or a b = bit_or a b

unfoldable pub channel_and : ℕ → ℕ → ℕ
channel_and a b = bit_and a b

unfoldable pub has : ℕ → ℕ → Bool
unfolding channel_and
has set flag = channel_and set flag == flag
