-- ===== src/Ros1/Names/Tests.antt =====
-- Names at concrete inputs, the examples of the unit tests among them.
use roslibrust.Base.{◌≡◌, refl, Bool, ◌||◌, Text, codes, starts_with, ok}
use roslibrust.Ros1.Names.{Name, resolve_to_global, node_name}
use roslibrust.Ros1.Names.Resolution.{IsGlobal, name_of, resolve_to_global_total}

private_name :
    resolve_to_global (name_of (codes "~foo/bar")) (name_of (codes "/wg/node3"))
    ≡ ok (name_of (codes "/wg/node3/foo/bar"))
unfolding resolve_to_global
private_name = refl

relative_test :
    resolve_to_global (name_of (codes "foo/bar")) (name_of (codes "/wg/node3"))
    ≡ ok (name_of (codes "/wg/foo/bar"))
unfolding resolve_to_global
relative_test = refl

-- In place of the regular expression.
abbrev test_match : Text → Bool
test_match s = starts_with (codes "/") s || starts_with (codes "bar") s

resolve_to_global_total_example :
    (n : Name) × (resolve_to_global (name_of (codes "bar")) (name_of (codes "/node")) ≡ ok n)
    × IsGlobal n.inner
    × (resolve_to_global n (name_of (codes "other")) ≡ ok n)
unfolding node_name
resolve_to_global_total_example =
    resolve_to_global_total test_match (codes "node") (name_of (codes "bar"))
      (name_of (codes "/node")) (name_of (codes "other")) refl
