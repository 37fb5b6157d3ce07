-- ===== src/Tests/Config.antt =====
-- exercises/cookbook/errors.cpp, expected.cpp and flags.cpp: texts of main(), and one that starts with a
-- number.
use going_unmanaged.Prelude.{
  ◌≡◌, refl, Option, none, some, true, false, Bytes, codes, bytes_eq, if◌then◌else◌,
}
use going_unmanaged.Plugin.Int32.{pos, is_positive}
use going_unmanaged.Strings.Parts.{all_digits}
use going_unmanaged.Config.{
  load_config, load_expected, channels_doubled, success, failure, not_a_number,
}
use going_unmanaged.Config.Accepts.{load_configs_agree}
use going_unmanaged.Config.Alternatives.{parse_port, describe_event, temperature}
use going_unmanaged.Config.Flags.{
  from_environment, has, channel_or, channel_value, left, right, sub,
}

load_configs_agree_example :
    (load_config (codes "many")
      ≡ failure (record {
        line = (not_a_number (codes "many") (pos 1)).line;
        what = (not_a_number (codes "many") (pos 1)).what;
      }))
    × (load_expected (codes "many")
        ≡ failure (record { line = pos 1; what = codes "channel count is not a number" }))
unfolding all_digits
load_configs_agree_example = load_configs_agree (codes "many")

sixteen : load_config (codes "16") ≡ success (record { channels = pos 16 })
unfolding load_config is_positive
sixteen = refl

doubled : channels_doubled (codes "8") ≡ success (pos 16)
unfolding channels_doubled is_positive
doubled = refl

abbrev size_only : Bytes → Bytes → Option Bytes
size_only value name = if bytes_eq name (codes "MYPLUGIN_BATCH_SIZE") then some value else none

junk : (from_environment (size_only (codes "abc"))).batch_size ≡ pos 64
unfolding from_environment
junk = refl

-- Junk behind a number does not keep the default.
junk_behind : (from_environment (size_only (codes "12abc"))).batch_size ≡ pos 12
unfolding from_environment
junk_behind = refl

stereo : has (channel_or (channel_value left) (channel_value right)) (channel_value right) ≡ true
unfolding has channel_or channel_value
stereo = refl

no_sub : has (channel_or (channel_value left) (channel_value right)) (channel_value sub) ≡ false
unfolding has channel_or channel_value
no_sub = refl

port : parse_port (codes "8080") ≡ some (pos 8080)
unfolding parse_port
port = refl

no_port : parse_port (codes "70000") ≡ none
unfolding parse_port
no_port = refl

-- A sign is taken in front of a zero.
minus_zero : parse_port (codes "-0") ≡ some (pos 0)
unfolding parse_port
minus_zero = refl

event : describe_event (temperature (pos 2345)) ≡ codes "temperature 2345 centi-degrees"
unfolding describe_event
event = refl
