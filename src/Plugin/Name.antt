-- ===== src/Plugin/Name.antt =====
-- exercises/interoplab/plugin.h: the two calls by which a caller gets the name.
use going_unmanaged.Prelude.{
  ℕ, ◌+◌, ◌≤◌, ◌<◌, ◌≡◌, refl, [], ◌∷◌, ◌++◌, none, some, true, false, ltb, ltb→lt, not_ltb→ge,
  Bool-cases, ◌⊎◌, inl, inr, length, length-append,
}
use going_unmanaged.Plugin.{
  State, PluginImpl, plugin_ok, plugin_buffer_too_small, impl_at, get_name,
}

-- For a handle in use, the call with no buffer tells a size, which is that of the name with its
-- terminator. With a smaller buffer nothing is written to it and the result says so; with one of this
-- size or a larger one, the name and its terminator are written. The size is told each time.
pub get_name_protocol :
    (h capacity any : ℕ) (s : State) (p : PluginImpl)
    → impl_at s h ≡ some p
    → (n : ℕ) × (length (p.name ++ 0 ∷ []) ≡ n)
      × (get_name (some h) false any true s ≡ some (plugin_ok, some n, none))
      × (((capacity < n)
            × (get_name (some h) true capacity true s
                ≡ some (plugin_buffer_too_small, some n, none)))
          ⊎ ((n ≤ capacity)
              × (get_name (some h) true capacity true s
                  ≡ some (plugin_ok, some n, some (p.name ++ 0 ∷ [])))))
unfolding get_name
get_name_protocol h capacity any s p w =
    let n = length p.name + 1 in
    (
      n,
      length-append p.name (0 ∷ []),
      rw (get_name, w) refl,
      elim (Bool-cases (ltb capacity n)) [
        | inl y ↦ inl (ltb→lt capacity n y, rw (get_name, w) (rw y refl))
        | inr k ↦ inr (not_ltb→ge capacity n k, rw (get_name, w) (rw k refl))
      ],
    )
