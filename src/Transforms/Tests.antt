-- ===== src/Transforms/Tests.antt =====
-- The theorems on transforms at concrete inputs.
use roslibrust.Base.{
  ℕ, ◌+◌, ◌*◌, ◌<◌, ◌≡◌, refl, false, Option, none, some, List, [], ◌∷◌, codes, ok, panic, ◌>>=◌,
  arith,
}
use roslibrust.Codegen.IntegralTypes.{nanos_per_sec}
use roslibrust.Transforms.{Transform, into_transform, from_transform}
use roslibrust.Transforms.Stamps.{into_transform-from_transform, into_transform-late}
use roslibrust.Transforms.Waiting.{
  Event, adds, subscribes, looks, tests_remaining, called, run, look,
}
use roslibrust.Transforms.Waiting.Wakeups.{waiting-woken}

abbrev camera : Transform ℕ
camera = record {
  translation = record { x = 1; y = 0; z = 0 };
  rotation = record { w = 1; x = 0; y = 0; z = 0 };
  timestamp = 1700000000 * nanos_per_sec + 5;
  parent = codes "base_link";
  child = codes "camera_link";
}

into_transform-from_transform_example :
    (from_transform ℕ camera >>= λ m. into_transform ℕ 0 m false) ≡ ok camera
into_transform-from_transform_example = into_transform-from_transform ℕ 0 camera (omega arith)

abbrev camera_later : Transform ℕ
camera_later = record camera { timestamp = 2200000000 * nanos_per_sec }

into_transform-late_example :
    (from_transform ℕ camera_later >>= λ m. into_transform ℕ 0 m false) ≡ panic
into_transform-late_example = into_transform-late ℕ 0 camera_later (omega arith) (omega arith)

abbrev first : List ℕ → Option ℕ
first [] = none
first (t ∷ ts) = some t

abbrev events : List (Event ℕ)
events = subscribes ∷ looks ∷ adds (7 ∷ []) ∷ tests_remaining false ∷ []

waiting-woken_example :
    2 < (run first events (called [] 2 0)).sent + (run first events (called [] 2 0)).adding
unfolding run look
waiting-woken_example = waiting-woken first events [] 2 0 2 7 (tt, (tt, (tt, (tt, tt)))) refl refl
