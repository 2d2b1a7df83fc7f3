-- ===== src/Base/Attrs.antt =====
-- A Go map from texts to texts as an association list; a missing key has the value "".
use Prim.Native.String.{String}
use mathlib.Core.Path.{◌≡◌, refl}
use mathlib.Core.List.{List, [], ◌∷◌}
use native.Mathlib.Omega.{arith}
use text.Mathlib.Text.{◌==◌}
use text.Mathlib.TextEquality.{eq_iff}
use libfabric_go.Base.Tests.{if◌then◌else◌}

abbrev pub Attrs : Type 0
Attrs = List (String × String)

-- `attrs[key]`
unfoldable pub value_of : String → Attrs → String
value_of key [] = ""
value_of key ((other, value) ∷ attrs) = if other == key then value else value_of key attrs

-- `attrs[key] = value`: the entry takes the place of the old one, or the last place.
unfoldable pub store : String → String → Attrs → Attrs
store key value [] = (key, value) ∷ []
store key value ((other, old) ∷ attrs) =
    if other == key then (key, value) ∷ attrs else (other, old) ∷ store key value attrs

pub value_of-store :
    (key wanted value : String) (attrs : Attrs)
    → value_of wanted (store key value attrs)
      ≡ (if key == wanted then value else value_of wanted attrs)
unfolding value_of store
value_of-store key wanted value [] = refl
value_of-store key wanted value ((other, old) ∷ attrs) = ground (
  arith,
  eq_iff key wanted,
  eq_iff other key,
  eq_iff other wanted,
  value_of-store key wanted value attrs,
)
