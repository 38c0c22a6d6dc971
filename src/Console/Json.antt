-- ===== src/Console/Json.antt =====
-- Values that `JSON.parse` gives, for console/src: those whose type the code tests at run time. Of a
-- number its floor is kept, and of an array that it is one.
use agent_runtime_mcp.Base.{Bool, true, false, Option, none, some, Text, text_eq, if◌then◌else◌}
use agent_runtime_mcp.Console.TerminalAttach.{Floored}

mutual
  pub data Json : Type 0 where
    undefined null array : Json
    boolean : Bool → Json
    number : Floored → Json
    string : Text → Json
    object : Members → Json

  pub data Members : Type 0 where
    nil : Members
    member : Text → Json → Members → Members

-- `value[key]` on a record; the keys of a record are different.
unfoldable pub find_member : Text → Members → Json
find_member key nil = undefined
find_member key (member name value rest) =
    let found = find_member key rest in if text_eq name key then value else found

-- `'key' in value`
pub has_member : Text → Members → Bool
has_member key nil = false
has_member key (member name value rest) =
    let found = has_member key rest in if text_eq name key then true else found

-- `isRecord(value) ? value : {}`
unfoldable pub members_of : Json → Members
members_of (object m) = m
members_of undefined = nil
members_of null = nil
members_of array = nil
members_of (boolean b) = nil
members_of (number n) = nil
members_of (string s) = nil

-- `typeof value === 'string' ? value : …`
unfoldable pub as_string : Json → Option Text
as_string (string s) = some s
as_string undefined = none
as_string null = none
as_string array = none
as_string (boolean b) = none
as_string (number n) = none
as_string (object m) = none

-- `value === true`
pub is_true : Json → Bool
is_true (boolean b) = b
is_true undefined = false
is_true null = false
is_true array = false
is_true (string s) = false
is_true (number n) = false
is_true (object m) = false

-- `value.key` as a record or a string, where `value` is a record.
abbrev pub record_at : Text → Members → Members
record_at key m = members_of (find_member key m)

abbrev pub string_at : Text → Members → Option Text
string_at key m = as_string (find_member key m)
