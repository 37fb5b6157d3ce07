-- ===== src/Plugin.antt =====
-- exercises/interoplab/plugin.cpp and plugin.h, with the sinks of marshal.h. A handle is the place of
-- its PluginImpl among all those created, where a destroyed one is `none`; a call on one is undefined,
-- as is a product that no int32_t holds, and both are `none` here. A `user` is the place of a SinkTarget.
pub mod Int32
pub mod Name
pub mod Window
use going_unmanaged.Prelude.{
  ℕ, suc, ◌+◌, List, [], ◌∷◌, ◌++◌, Option, none, some, Bool, true, false, not, if◌then◌else◌, ltb,
  leb, ◌==◌, Bytes, codes, length, get_elem?, set,
}
use going_unmanaged.Plugin.Int32.{ℤ, times, fits, is_positive}

pub data PluginResult : Type 0 where
  plugin_ok plugin_bad_argument plugin_buffer_too_small plugin_version_mismatch plugin_failed :
      PluginResult

pub record PluginOptions : Type 0 where
  pub size : ℕ
  pub gain : ℤ
  pub channels : ℤ

-- SinkTrampoline and ThrowingSink.
pub data PluginSink : Type 0 where
  trampoline throwing : PluginSink

pub record SinkTarget : Type 0 where
  pub received : List ℤ
  pub alive : Bool
  pub calls_after_death : ℕ

pub record PluginImpl : Type 0 where
  pub name : Bytes
  pub gain : ℤ
  pub channels : ℤ
  pub sink : Option PluginSink
  pub user : ℕ

pub record State : Type 0 where
  pub impls : List (Option PluginImpl)
  pub targets : List SinkTarget

-- `sizeof(PluginOptions)`: three fields of four bytes.
abbrev pub options_size : ℕ
options_size = 12

-- The name that Plugin_Create gives.
abbrev pub default_name : Bytes
default_name =
    codes "Z" ++ (0xc3 ∷ 0xa4 ∷ codes "hler-" ++ (0xc2 ∷ 0xb5 ∷ 0xf0 ∷ 0x9d ∷ 0x84 ∷ 0x9e ∷ []))

-- Plugin_Create, by what `options` points to and whether `out` is not null: the result, what is written
-- to `*out` if anything, and the state.
unfoldable pub create :
    Option PluginOptions → Bool → State → PluginResult × Option (Option ℕ) × State
create none out s = (plugin_bad_argument, none, s)
create (some o) false s = (plugin_bad_argument, none, s)
create (some o) true s =
    if not (o.size == options_size)
    then (plugin_version_mismatch, some none, s)
    else if not (is_positive o.channels)
    then (plugin_bad_argument, some none, s)
    else (
      plugin_ok,
      some (some (length s.impls)),
      record s {
        impls =
            s.impls
            ++ some (record {
              name = default_name;
              gain = o.gain;
              channels = o.channels;
              sink = none;
              user = 0;
            })
              ∷ [];
      },
    )

-- What a handle points to.
abbrev pub impl_at : State → ℕ → Option PluginImpl
impl_at s h = elim (get_elem? s.impls h) [ none ↦ none | some p ↦ p ]

unfoldable pub destroy : Option ℕ → State → Option (PluginResult × State)
destroy none s = some (plugin_ok, s)
destroy (some h) s = elim (impl_at s h) [
  | none ↦ none
  | some p ↦ some (plugin_ok, record s { impls = set s.impls h none })
]

-- Plugin_GetName, by whether `buffer` and `needed` are not null: the result, and what is written to
-- `*needed` and to the buffer.
unfoldable pub get_name :
    Option ℕ → Bool → ℕ → Bool → State → Option (PluginResult × Option ℕ × Option Bytes)
get_name none buffer capacity needed s = some (plugin_bad_argument, none, none)
get_name (some h) buffer capacity false s = some (plugin_bad_argument, none, none)
get_name (some h) buffer capacity true s = elim (impl_at s h) [
  | none ↦ none
  | some p ↦
      let required = length p.name + 1 in
      if not buffer
      then some (plugin_ok, some required, none)
      else if ltb capacity required
      then some (plugin_buffer_too_small, some required, none)
      else some (plugin_ok, some required, some (p.name ++ 0 ∷ []))
]

unfoldable pub set_sink : Option ℕ → Option PluginSink → ℕ → State → Option (PluginResult × State)
set_sink none sink user s = some (plugin_bad_argument, s)
set_sink (some h) none user s = some (plugin_bad_argument, s)
set_sink (some h) (some k) user s = elim (impl_at s h) [
  | none ↦ none
  | some p ↦ some (
    plugin_ok,
    record s { impls = set s.impls h (some (record p { sink = some k; user = user })) },
  )
]

-- The null `user` is place 0, which nothing reads while `sink` is null.
unfoldable pub clear_sink : Option ℕ → State → Option (PluginResult × State)
clear_sink none s = some (plugin_bad_argument, s)
clear_sink (some h) s = elim (impl_at s h) [
  | none ↦ none
  | some p ↦
      some
        (plugin_ok, record s { impls = set s.impls h (some (record p { sink = none; user = 0 })) })
]

unfoldable pub sink_trampoline : ℤ → SinkTarget → SinkTarget
sink_trampoline sample t =
    if not t.alive
    then record t { calls_after_death = t.calls_after_death + 1 }
    else record t { received = t.received ++ sample ∷ [] }

-- The call of a sink, with the result that the guard around it returns.
unfoldable pub call_sink : PluginSink → ℤ → ℕ → State → Option (PluginResult × State)
unfolding sink_trampoline
call_sink throwing sample user s = some (plugin_failed, s)
call_sink trampoline sample user s = elim (get_elem? s.targets user) [
  | none ↦ none
  | some t ↦ some (plugin_ok, record s { targets = set s.targets user (sink_trampoline sample t) })
]

unfoldable pub pump : Option ℕ → ℤ → State → Option (PluginResult × State)
unfolding call_sink
pump none sample s = some (plugin_bad_argument, s)
pump (some h) sample s = elim (impl_at s h) [
  | none ↦ none
  | some p ↦ elim p.sink [
    | none ↦ some (plugin_ok, s)
    | some k ↦
        let product = times sample p.gain in
        if fits product then call_sink k product p.user s else none
  ]
]
