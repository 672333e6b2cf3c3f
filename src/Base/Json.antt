-- ===== src/Base/Json.antt =====
-- `JSONValue` of model_types.py. A negative number `negative n` is -(n + 1); a float is kept as its text.
use Prim.Native.String.{String}
use Prim.Native.Nat.{ℕ}
use mathlib.Core.Bool.{Bool}
use mathlib.Core.Option.{Option, none, some}
use text.Mathlib.Text.{◌==◌}
use project_risk_system.Base.Tests.{if◌then◌else◌}

mutual
  pub data JsonValue : Type 0 where
    null : JsonValue
    boolean : Bool → JsonValue
    number : ℕ → JsonValue
    negative : ℕ → JsonValue
    real : String → JsonValue
    string : String → JsonValue
    array : JsonArray → JsonValue
    object : JsonObject → JsonValue

  pub data JsonArray : Type 0 where
    empty : JsonArray
    item : JsonValue → JsonArray → JsonArray

  pub data JsonObject : Type 0 where
    end : JsonObject
    field : String → JsonValue → JsonObject → JsonObject

-- `d.get(key)` on an object with distinct keys.
unfoldable pub lookup : String → JsonObject → Option JsonValue
lookup key end = none
lookup key (field k v rest) = if k == key then some v else lookup key rest
