-- ===== src/Prelude/Maps.antt =====
-- Go's map[string]V, as the function that looks a key up.
use Prim.Native.String.{String}
use mathlib.Core.Option.{Option, none, some}
use chainplane.Prelude.Tests.{str_eq, if◌then◌else◌}

abbrev pub Map {ℓ} : Type ℓ → Type ℓ
Map V = String → Option V

module _ {ℓ} {V : Type ℓ} where
  abbrev pub empty_map : Map V
  empty_map _ = none

  -- `m[k] = v`
  abbrev pub insert : String → V → Map V → Map V
  insert k v m j = if str_eq j k then some v else m j

  -- `delete(m, k)`
  abbrev pub erase : String → Map V → Map V
  erase k m j = if str_eq j k then none else m j

-- `m[k]` of a map of strings, "" for a missing key.
abbrev pub get : Map String → String → String
get m k = elim (m k) [ none ↦ "" | some v ↦ v ]
