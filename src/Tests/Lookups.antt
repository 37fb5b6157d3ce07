-- ===== src/Tests/Lookups.antt =====
-- exercises/cookbook/lookups.cpp and exercises/abilab/engine_demo.cpp: runs of main().
use going_unmanaged.Prelude.{ℕ, ◌≡◌, ◌==◌, refl, [], ◌∷◌, some, true, false, codes, bytes_eq}
use going_unmanaged.Plugin.Int32.{pos}
use going_unmanaged.Lookups.{
  apply_timeout_setting, index_of_value, contains_word, add_sensor, record_reading, find_sensor,
}
use going_unmanaged.Engine.{engine_ok, engine_score}
use going_unmanaged.Engine.Life.{with_engine}

timeout_found : apply_timeout_setting ((codes "timeout", pos 30) ∷ []) (pos 0) ≡ pos 30
unfolding apply_timeout_setting bytes_eq
timeout_found = refl

third : index_of_value (λ n. n == 42) (7 ∷ 11 ∷ 42 ∷ []) ≡ some 2
unfolding index_of_value
third = refl

offline : contains_word (codes "sensor offline") (codes "offline") ≡ true
unfolding contains_word
offline = refl

online : contains_word (codes "sensor offline") (codes "online") ≡ false
unfolding contains_word
online = refl

last_reading :
    find_sensor {D = ℕ}
      (pos 2)
      (record_reading (pos 2) 9 (add_sensor 0 (pos 2) (add_sensor 0 (pos 1) [])))
    ≡ some (record { id = pos 2; last = 9 })
unfolding find_sensor record_reading add_sensor
last_reading = refl

scored : engine_score (some 0) true (with_engine (pos 21) []) ≡ some (engine_ok, some (pos 42))
unfolding engine_score
scored = refl
