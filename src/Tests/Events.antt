-- ===== src/Tests/Events.antt =====
-- exercises/cookbook/events.cpp: the run of main().
use going_unmanaged.Prelude.{◌≡◌, refl, [], ◌∷◌}
use going_unmanaged.Events.{SampleSource, new_source, subscribe, unsubscribe, raise}

abbrev both : SampleSource
both = (subscribe 2 (subscribe 1 new_source).1).1

both_called : raise 1 both ≡ (1, 1) ∷ (2, 1) ∷ []
unfolding raise subscribe new_source
both_called = refl

one_left : raise 2 (unsubscribe 0 both) ≡ (2, 2) ∷ []
unfolding raise subscribe new_source unsubscribe
one_left = refl
