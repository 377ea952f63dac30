-- ===== src/Rosbridge/Client/Calls.antt =====
-- The life of a service call: `call_service` and `handle_response` of
-- roslibrust_rosbridge/src/client.rs.
use roslibrust.Base.{
  ◌≡◌, refl, true, false, Option, none, some, List, [], ◌∷◌, Text, codes, text_eq, text_eq_iff,
  text_eq_refl, get, member, ok, err, arith,
}
use roslibrust.Rosbridge.Json.{Json, as_str, get_str, get_field}
use roslibrust.Rosbridge.Ops.{connection_reset, call_timed_out, from_str}
use roslibrust.Rosbridge.Client.{
  Client, without, time_out_call, await_call, from_response, spin_failed,
}
use roslibrust.Rosbridge.Client.Dispatch.{
  text, message, handle_message, handle_response, spin_once, handle_value,
}

member-without :
    (k id : Text) (ids : List Text)
    → text_eq id k ≡ false
    → member k (without id ids) ≡ member k ids
member-without k id [] h = refl
member-without k id (i ∷ ids) h = ground (arith, h, member-without k id ids h, text_eq_iff i id)

member-without_same : (id : Text) (ids : List Text) → member id (without id ids) ≡ false
member-without_same id [] = refl
member-without_same id (i ∷ ids) = ground (arith, member-without_same id ids)

-- A message is a response to the call with the id.
pub record IsResponse (from_text : Text → Option Json) (s id : Text) (v values : Json)
    : Type 0 where
  pub parsed : from_text s ≡ some v
  pub op : get_str (codes "op") v ≡ some (codes "service_response")
  pub for_id : get_str (codes "id") v ≡ some id
  pub has_values : get_field (codes "values") v ≡ some values

module _ (from_text : Text → Option Json) (to_string : Json → Option Text) (to_text : Json → Text)
    (panic_text : Text) where
  spin-response :
      (s id : Text) (v values : Json) (c : Client)
      → IsResponse from_text s id v values
      → spin_once from_text to_string to_text panic_text (message (text s)) c
        ≡ (handle_response from_text to_string to_text panic_text v c, ok tt)
  unfolding spin_once handle_message from_str
  spin-response s id v values c r = rw (r.parsed, handle_message) (rw (r.op, handle_value) refl)

  response-tracked :
      (s id : Text) (v values : Json) (c : Client)
      → IsResponse from_text s id v values
      → member id c.service_calls ≡ true
      → (spin_once from_text to_string to_text panic_text (message (text s)) c).0 ≡ record c {
        service_calls = without id c.service_calls;
        answers = (id, values) ∷ c.answers;
      }
  unfolding handle_response
  response-tracked s id v values c r h =
      rw (spin-response s id v values c r)
        (rw (r.for_id, handle_response) (rw h (rw r.has_values refl)))

  response-untracked :
      (s id : Text) (v values : Json) (c : Client)
      → IsResponse from_text s id v values
      → member id c.service_calls ≡ false
      → (spin_once from_text to_string to_text panic_text (message (text s)) c).0 ≡ c
  unfolding handle_response
  response-untracked s id v values c r h =
      rw (spin-response s id v values c r) (rw (r.for_id, handle_response) (rw h refl))

  -- A response to a call that the client waits for ends that call with the response, as a value or, if
  -- it is none, as the server's error; what any other call gets stays the same, and a second response
  -- with the id changes nothing.
  pub response-await_call :
      {A : Type 0} (from_value : Json → Option A) (s id : Text) (v values : Json) (c : Client)
      (k : Text)
      → IsResponse from_text s id v values
      → member id c.service_calls ≡ true
      → text_eq id k ≡ false
      → let c' = (spin_once from_text to_string to_text panic_text (message (text s)) c).0 in
        (await_call from_value id c' ≡ some (from_response (from_value values) (as_str values)))
        × (await_call from_value k c' ≡ await_call from_value k c)
        × ((spin_once from_text to_string to_text panic_text (message (text s)) c').0 ≡ c')
  unfolding get
  response-await_call from_value s id v values c k r h e =
      rw (response-tracked s id v values c r h) (
        ground (arith, text_eq_refl id),
        ground (arith, e, member-without k id c.service_calls e),
        response-untracked s id v values _ r (member-without_same id c.service_calls),
      )

  -- A call without a response is over when it times out and when the connection is lost: it then
  -- ends with an error, by the timeout or because the connection was reset, and a response that comes
  -- later changes nothing.
  pub late_response-ignored :
      {A : Type 0} (from_value : Json → Option A) (s id : Text) (v values : Json) (c : Client)
      → IsResponse from_text s id v values
      → get id c.answers ≡ none
      → ((time_out_call id c).1 ≡ err call_timed_out)
        × ((spin_once from_text to_string to_text panic_text
              (message (text s))
              (time_out_call id c).0).0
            ≡ (time_out_call id c).0)
        × (await_call from_value id (spin_failed c) ≡ some (err connection_reset))
        × ((spin_once from_text to_string to_text panic_text (message (text s)) (spin_failed c)).0
            ≡ spin_failed c)
  unfolding time_out_call
  late_response-ignored from_value s id v values c r h = (
    refl,
    response-untracked s id v values _ r (member-without_same id c.service_calls),
    rw (h, await_call) refl,
    response-untracked s id v values _ r refl,
  )
