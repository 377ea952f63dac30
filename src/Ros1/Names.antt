-- ===== src/Ros1/Names.antt =====
-- roslibrust_ros1/src/names.rs, and the name of a node in roslibrust_ros1/src/node/handle.rs. The
-- regular expression is a parameter.
pub mod Resolution
mod Tests
use roslibrust.Base.{
  ℕ, zero, suc, ◌-◌, Bool, true, false, List, [], ◌∷◌, ◌++◌, Text, String, codes, starts_with,
  split, length, take, drop, if◌then◌else◌, Result, ok, err, panic, diverge, ◌>>=◌,
}

pub record Name : Type 0 where
  pub inner : Text

-- The text that is refused.
pub data InvalidNameError : Type 0 where
  invalid_name : Text → InvalidNameError

module _ (is_match : Text → Bool) where
  unfoldable pub new : Text → Result InvalidNameError Name
  new name = if is_match name then ok (record { inner = name }) else err (invalid_name name)

  -- `NodeHandle::new`, up to the check of its name.
  unfoldable pub node_name : Text → Result InvalidNameError Name
  unfolding new
  node_name name = if starts_with (codes "/") name then new name else new (b'/' ∷ name)

-- The fold over the middle components.
unfoldable pub namespace : List Text → Text
namespace [] = []
namespace (component ∷ rest) = b'/' ∷ (component ++ namespace rest)

abbrev resolve_relative : Text → List Text → Result InvalidNameError Name
resolve_relative name [] = panic
resolve_relative name (c ∷ []) = panic
resolve_relative name (c ∷ d ∷ []) = ok (record { inner = b'/' ∷ name })
resolve_relative name (c ∷ d ∷ e ∷ rest) =
    ok (record { inner = namespace (take (suc (length rest)) (d ∷ (e ∷ rest))) ++ (b'/' ∷ name) })

unfoldable pub resolve_to_global : Name → Name → Result InvalidNameError Name
unfolding split namespace
resolve_to_global self node_name =
    if starts_with (codes "/") self.inner
    then ok self
    else if starts_with (codes "~") self.inner
    then ok (record { inner = node_name.inner ++ (b'/' ∷ drop 1 self.inner) })
    else resolve_relative self.inner (split b'/' node_name.inner)
