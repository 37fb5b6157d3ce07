-- ===== src/Tests/Templates.antt =====
-- exercises/templatelab: the runs of main().
use going_unmanaged.Prelude.{ℕ, ◌≡◌, refl, List, [], ◌∷◌, ◌++◌, map, some, codes, arith}
use going_unmanaged.Device.{closed_sdk, sensor0, index_of}
use going_unmanaged.Plugin.Int32.{pos}
use going_unmanaged.Strings.Parts.{join}
use going_unmanaged.Templates.Ring.{empty_ring, push_all, oldest}
use going_unmanaged.Templates.Ring.Newest.{push_all_lem}
use going_unmanaged.Templates.Join.{
  Part, character, number, text, describe, join_parts, led_by, joins_agree,
}
use going_unmanaged.Templates.Pump.Lifetime.{life, life_lem}
use going_unmanaged.Templates.Pump.Recording.{
  Recording, recording_sdk, recording_view, recording_sdk-Laws,
}
use going_unmanaged.Templates.Pump.Device.{device_sdk, device_view, device_sdk-Laws}

abbrev five : List ℕ
five = 1 ∷ 2 ∷ 3 ∷ 4 ∷ 5 ∷ []

push_all_lem_example :
    ((push_all 3 five (empty_ring 3 0)).size ≡ 3)
    × (oldest 3 (push_all 3 five (empty_ring 3 0)) ≡ some 3)
push_all_lem_example = push_all_lem 3 0 five (omega arith) (omega arith)

abbrev one_two_three : List Part
one_two_three = number (pos 1) ∷ text (codes "two") ∷ character b'3' ∷ []

joined : join_parts (codes ", ") one_two_three ≡ codes "1, two, 3"
unfolding join_parts
joined = refl

joins_same :
    (join_parts (codes ", ") one_two_three
      ≡ describe (number (pos 1)) ++ led_by (codes ", ") (codes "two" ∷ codes "3" ∷ []))
    × (join (map describe one_two_three) (codes ", ") ≡ join_parts (codes ", ") one_two_three)
unfolding describe
joins_same =
    joins_agree (codes ", ") (number (pos 1)) (text (codes "two") ∷ character b'3' ∷ []) refl

abbrev scripted : Recording
scripted = record {
  scripts = (pos 1 ∷ pos 2 ∷ pos 3 ∷ []) ∷ (pos 40 ∷ []) ∷ [];
  open_count = 0;
  close_count = 0;
}

life_lem_example :
    (m : ℕ) × (w' : Recording) × (life recording_sdk (codes "scripted-a") scripted
      ≡ some (0, m, w'))
    × (recording_view.live w' ≡ recording_view.live scripted)
life_lem_example =
    life_lem recording_sdk recording_view recording_sdk-Laws (codes "scripted-a") scripted
      (omega arith, omega arith)

-- The same over the vendor's device.
device_life :
    (m : ℕ) × (w' : device_sdk.World) × (life device_sdk (codes "sensor0") closed_sdk
      ≡ some (0, m, w'))
    × (device_view.live w' ≡ 0)
unfolding closed_sdk index_of
device_life =
    life_lem device_sdk device_view device_sdk-Laws (codes "sensor0") closed_sdk
      (sensor0, refl, refl)
