-- ===== src/Tests/Plugin.antt =====
-- exercises/interoplab: one handle whose sink feeds one target.
use going_unmanaged.Prelude.{
  ℕ, zero, suc, ◌≡◌, ◌≢◌, ◌<◌, ◌≤◌, ◌⊎◌, ◌++◌, refl, [], ◌∷◌, some, none, true, false, length,
  get_elem?,
}
use going_unmanaged.Plugin.{
  State, PluginImpl, PluginOptions, SinkTarget, plugin_ok, plugin_version_mismatch,
  plugin_buffer_too_small, trampoline, throwing, plugin_failed, default_name, impl_at, create,
  get_name, set_sink, clear_sink, pump,
}
use going_unmanaged.Plugin.Int32.{pos, negsuc, times, fits, is_positive}
use going_unmanaged.Plugin.Name.{get_name_protocol}
use going_unmanaged.Plugin.Window.{creates, sets, clears, pumps, run, target_of, sink_window}

abbrev listener : SinkTarget
listener = record { received = []; alive = true; calls_after_death = 0 }

abbrev options : PluginOptions
options = record { size = 12; gain = negsuc 1; channels = pos 2 }

abbrev wired : PluginImpl
wired = record {
  name = default_name;
  gain = negsuc 1;
  channels = pos 2;
  sink = some trampoline;
  user = 0;
}

-- Minus twice the sample 3 was received.
abbrev fed : State
fed = record {
  impls = some wired ∷ [];
  targets = record { received = negsuc 5 ∷ []; alive = true; calls_after_death = 0 } ∷ [];
}

fed-run :
    run
      (creates options ∷ sets 0 trampoline 0 ∷ pumps 0 (pos 3) ∷ [])
      (record { impls = []; targets = listener ∷ [] })
    ≡ some fed
unfolding run create set_sink pump times fits is_positive
fed-run = refl

abbrev silent : State
silent = record fed { impls = some (record wired { sink = none; user = 0 }) ∷ [] }

silent-run : run (clears 0 ∷ pumps 0 (pos 4) ∷ []) fed ≡ some silent
unfolding run clear_sink pump
silent-run = refl

no_other : (g : ℕ) → g ≢ 0 → target_of (impl_at fed g) ≢ some 0
no_other zero n e = absurd (n refl)
no_other (suc g) n e = cc

sink_window_example : get_elem? silent.targets 0 ≡ get_elem? fed.targets 0
sink_window_example =
    sink_window 0 0 fed silent (pumps 0 (pos 4) ∷ []) wired no_other refl (tt, tt) silent-run

get_name_protocol_example :
    (n : ℕ) × (length (wired.name ++ 0 ∷ []) ≡ n)
    × (get_name (some 0) false 0 true fed ≡ some (plugin_ok, some n, none))
    × (((14 < n)
          × (get_name (some 0) true 14 true fed ≡ some (plugin_buffer_too_small, some n, none)))
        ⊎ ((n ≤ 14)
            × (get_name (some 0) true 14 true fed
                ≡ some (plugin_ok, some n, some (wired.name ++ 0 ∷ [])))))
get_name_protocol_example = get_name_protocol 0 14 0 fed wired refl

old_caller :
    create (some (record options { size = 8 })) true fed ≡ (plugin_version_mismatch, some none, fed)
unfolding create
old_caller = refl

sink_throws :
    pump (some 0) (pos 1) (record fed { impls = some (record wired { sink = some throwing }) ∷ [] })
    ≡ some (plugin_failed, record fed { impls = some (record wired { sink = some throwing }) ∷ [] })
unfolding pump times fits
sink_throws = refl
