-- ===== src/Rosbridge/Ops/Tests.antt =====
-- Operation names at concrete inputs.
use roslibrust.Base.{◌≡◌, refl, codes, err}
use roslibrust.Rosbridge.Ops.{unrecognized_op, from_str}

unknown_op : from_str (codes "status") ≡ err (unrecognized_op (codes "status"))
unfolding from_str
unknown_op = refl
