-- ===== src/Registry/Semver.antt =====
-- internal/registry/semver.go: the comparison of image tags by semantic version. The standard
-- library's functions on texts and the package golang.org/x/mod/semver are parameters.
pub mod Newest
use Prim.Native.String.{◌++◌}
use chainplane.Prelude.{
  ℕ, zero, suc, ◌-◌, ◌≡◌, ◌⊎◌, String, Bool, true, false, Option, none, some, List, [], ◌∷◌,
  ◌++◌ as append, ◌&&◌, ◌||◌, not, str_eq, if◌then◌else◌, map, length,
}

-- strings.TrimPrefix, HasPrefix, Split at "." and Join with "."; `cut` is a text before and from
-- its first "-" or "+", behind the first character; strconv.ParseUint and the verb %d.
pub record GoText : Type 0 where
  pub trim_prefix : String → String → String
  pub has_prefix : String → String → Bool
  pub cut : String → String × String
  pub split : String → List String
  pub join : List String → String
  pub parse_uint : String → Option ℕ
  pub show : ℕ → String

-- semver.IsValid, Compare(v, w) > 0, Major and MajorMinor. Compare is an order by precedence.
pub record SemverPackage : Type 0 where
  pub is_valid : String → Bool
  pub is_greater : String → String → Bool
  pub major : String → String
  pub major_minor : String → String
  pub is_greater-irreflexive : (v : String) → is_greater v v ≡ false
  pub is_greater-trans :
      (u v w : String) → is_greater u v ≡ true → is_greater v w ≡ true → is_greater u w ≡ true
  pub is_greater-split :
      (u v w : String) → is_greater u w ≡ true → (is_greater u v ≡ true) ⊎ (is_greater v w ≡ true)

module _ (text : GoText) (semver : SemverPackage) where
  -- The loop over the parts: a number loses its leading zeros.
  abbrev pub normalized_part : String → String
  normalized_part p = elim (text.parse_uint p) [ none ↦ p | some n ↦ text.show n ]

  -- `for len(normalized) < 3`
  abbrev pub zeros : ℕ → List String
  zeros zero = []
  zeros (suc n) = "0" ∷ zeros n

  -- normalizeTag
  unfoldable pub normalize_tag : String → String → String
  normalize_tag tag prefix =
      let s = text.trim_prefix tag prefix in
      let versioned = if text.has_prefix s "v" then s else "v" ++ s in
      let (core, suffix) = text.cut versioned in
      let parts = map normalized_part (text.split (text.trim_prefix core "v")) in
      "v" ++ (text.join (append parts (zeros (3 - length parts))) ++ suffix)

  -- IsNewer
  unfoldable pub is_newer : String → String → String → Bool
  is_newer candidate current prefix =
      let c = normalize_tag candidate prefix in
      let cur = normalize_tag current prefix in
      if not (semver.is_valid c) || not (semver.is_valid cur)
      then false
      else semver.is_greater c cur

  -- IsMajorBump
  unfoldable pub is_major_bump : String → String → String → Bool
  is_major_bump candidate current prefix =
      let c = normalize_tag candidate prefix in
      let cur = normalize_tag current prefix in
      if not (semver.is_valid c) || not (semver.is_valid cur) || not (semver.is_greater c cur)
      then false
      else if str_eq (semver.major cur) "v0"
      then not (str_eq (semver.major_minor c) (semver.major_minor cur))
      else not (str_eq (semver.major c) (semver.major cur))

  -- A round of the loop of Newest.
  abbrev pub better : String → String → String → String
  better prefix best t =
      if not (semver.is_valid (normalize_tag t prefix))
      then best
      else if str_eq best "" || is_newer t best prefix
      then t
      else best

  unfoldable pub newest_from : String → String → List String → String
  newest_from prefix best [] = best
  newest_from prefix best (t ∷ ts) = newest_from prefix (better prefix best t) ts

  -- Newest
  unfoldable pub newest : List String → String → String
  newest tags prefix = newest_from prefix "" tags
