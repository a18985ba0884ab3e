-- ===== src/Value.antt =====
-- The JavaScript values that travel in packets. `undefined` is the `none` of an `Option Value`, and a
-- number is held by its text, `String(n)`.
use socket_io_java.Common.{
  ℕ, suc, Bool, true, false, Option, none, some, [], Text, text_eq, ◌==◌, codes, decimal, not,
  if◌then◌else◌, length,
}

mutual
  pub data Value : Type 0 where
    null : Value
    bool : Bool → Value
    num : Text → Value
    str : Text → Value
    arr : Items → Value
    obj : Fields → Value

  -- The elements of an array.
  pub data Items : Type 0 where
    nil : Items
    cons : Value → Items → Items

  -- The own properties of an object, each name once.
  pub data Fields : Type 0 where
    end : Fields
    field : Text → Value → Fields → Fields

unfoldable pub length_items : Items → ℕ
length_items nil = 0
length_items (cons v vs) = suc (length_items vs)

unfoldable pub get_field : Fields → Text → Option Value
get_field end k = none
get_field (field j v fs) k = if j == k then some v else get_field fs k

-- `v[k]`; a property of null throws, so it is no result at all.
pub data Read : Type 0 where
  throws : Read
  value : Option Value → Read

unfoldable pub read : Value → Text → Read
unfolding length_items get_field decimal
read null k = throws
read (obj fs) k = value (get_field fs k)
read (arr vs) k =
    if k == codes "length" then value (some (num (decimal (length_items vs)))) else value none
read (str s) k = if k == codes "length" then value (some (num (decimal (length s)))) else value none
read _ k = value none

-- A value as a condition. NaN is not the text of a JSON number.
unfoldable pub truthy : Value → Bool
truthy null = false
truthy (bool b) = b
truthy (num t) = not (t == codes "0")
truthy (str s) = not (s == [])
truthy (arr vs) = true
truthy (obj fs) = true

unfoldable pub is_set : Option Value → Bool
unfolding truthy
is_set none = false
is_set (some v) = truthy v
