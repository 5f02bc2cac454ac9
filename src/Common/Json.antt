-- ===== src/Common/Json.antt =====
-- The values that `JSON.parse` returns and that a `Record<string, unknown>` holds. A number is its
-- literal text unless it is a non-negative integer.
use prism_spectra.Common.Tests.{if◌then◌else◌}
use prism_spectra.Common.Classes.{◌==◌, string_eq}
use Prim.Native.Nat.{ℕ}
use Prim.Native.String.{String}
use mathlib.Core.Bool.{Bool}
use mathlib.Core.Option.{Option, none, some}

mutual
  pub data Json : Type 0 where
    null : Json
    bool : Bool → Json
    int : ℕ → Json
    number : String → Json
    str : String → Json
    arr : Items → Json
    obj : Fields → Json

  pub data Items : Type 0 where
    nil : Items
    cons : Json → Items → Items

  pub data Fields : Type 0 where
    end : Fields
    field : String → Json → Fields → Fields

-- `value.key` of an object; `none` is `undefined`.
unfoldable pub member : String → Fields → Option Json
member key end = none
member key (field k v fs) = let rest = member key fs in if k == key then some v else rest
