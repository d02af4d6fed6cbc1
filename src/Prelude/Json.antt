-- ===== src/Prelude/Json.antt =====
-- The dynamic values of a decoded JSON text, and of an event's metadata.
use Prim.Native.Nat.{ℕ}
use Prim.Native.String.{String}
use mathlib.Core.Bool.{Bool}
use mathlib.Core.List.{List, [], ◌∷◌}
use mathlib.Core.Option.{Option, none, some}
use sunns_chan.Prelude.Tests.{if◌then◌else◌, str_eq}
use sunns_chan.Prelude.Int.{ℤ, pos, scale}

-- A float is counted in ten-thousandths: every score that the program stores is rounded to four
-- decimals.
mutual
  pub data Json : Type 0 where
    null : Json
    bool : Bool → Json
    int : ℤ → Json
    float : ℤ → Json
    text : String → Json
    arr : Items → Json
    obj : Fields → Json

  pub data Items : Type 0 where
    nil : Items
    cons : Json → Items → Items

  pub data Fields : Type 0 where
    end : Fields
    field : String → Json → Fields → Fields

-- `data.get(key)`, where a missing key is `none`.
unfoldable pub get_field : Fields → String → Option Json
get_field end k = none
get_field (field j v fs) k = if str_eq j k then some v else get_field fs k

-- `data.get(key, default)`
unfoldable pub get_field_or : Fields → String → Json → Json
unfolding get_field
get_field_or fs k d = elim (get_field fs k) [ none ↦ d | some v ↦ v ]

-- A number that is no bool, in ten-thousandths.
abbrev pub as_number : Json → Option ℤ
as_number (int z) = some (scale 10000 z)
as_number (float z) = some z
as_number _ = none

abbrev pub num : ℕ → Json
num n = int (pos n)

-- A list of texts, as a JSON array.
unfoldable pub texts : List String → Items
texts [] = nil
texts (s ∷ ss) = cons (text s) (texts ss)

-- `None` or a text.
abbrev pub text? : Option String → Json
text? none = null
text? (some s) = text s
