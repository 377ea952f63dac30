-- ===== src/Rosbridge/Json.antt =====
-- The values of JSON messages, with `Value::get` and `Value::as_str`. Numbers stand as their text.
use roslibrust.Base.{Bool, Option, none, some, Text, text_eq, if◌then◌else◌}

mutual
  pub data Json : Type 0 where
    null : Json
    boolean : Bool → Json
    number : Text → Json
    string : Text → Json
    array : Items → Json
    object : Members → Json

  pub data Items : Type 0 where
    nil : Items
    item : Json → Items → Items

  pub data Members : Type 0 where
    end : Members
    field : Text → Json → Members → Members

abbrev member_at : Text → Members → Option Json
member_at k end = none
member_at k (field j v rest) = if text_eq j k then some v else member_at k rest

-- `value.get(k)`
abbrev pub get_field : Text → Json → Option Json
get_field k (object members) = member_at k members
get_field k _ = none

-- `value.as_str()`
abbrev pub as_str : Json → Option Text
as_str (string s) = some s
as_str _ = none

-- `value.get(k).and_then(|v| v.as_str())`
abbrev str_of : Option Json → Option Text
str_of none = none
str_of (some v) = as_str v

abbrev pub get_str : Text → Json → Option Text
get_str k v = str_of (get_field k v)
