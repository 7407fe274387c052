-- ===== src/Base/Dicts.antt =====
-- JSON values, and Python's `dict[str, Any]` as the list of its entries in insertion order.
use Prim.Native.Nat.{ℕ}
use mathlib.Core.Bool.{Bool}
use mathlib.Core.Option.{Option, none, some}
use mathlib.Core.List.{List}
use hermes_local_hands.Base.Tests.{if◌then◌else◌}
use hermes_local_hands.Base.Texts.{Text, text_eq}

mutual
  pub data Value : Type 0 where
    str : Text → Value
    int : ℕ → Value
    -- an integer below zero: -(n + 1)
    negative : ℕ → Value
    flag : Bool → Value
    strs : List Text → Value
    null : Value
    dict : Fields → Value

  pub data Fields : Type 0 where
    end : Fields
    field : Text → Value → Fields → Fields

-- `d.get(key)`
unfoldable pub get : Text → Fields → Option Value
unfolding text_eq
get k end = none
get k (field j v d) = let rest = get k d in if text_eq j k then some v else rest

-- `d[key] = value`
unfoldable pub put : Text → Value → Fields → Fields
unfolding text_eq
put k v end = field k v end
put k v (field j w d) = let rest = put k v d in if text_eq j k then field j v d else field j w rest

-- `d.pop(key, None)`
unfoldable pub pop : Text → Fields → Fields
unfolding text_eq
pop k end = end
pop k (field j w d) = let rest = pop k d in if text_eq j k then d else field j w rest
