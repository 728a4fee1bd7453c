-- ===== src/Tests/Registry.antt =====
-- Tags in a small notation, where a longer text is a newer version.
use chainplane.Prelude.{◌≡◌, refl, ◌⊎◌, String, true, none, List, [], ◌∷◌, arith, ltb}
use chainplane.Registry.Semver.{GoText, SemverPackage, normalize_tag, newest, newest_from, is_newer}
use chainplane.Tests.Data.{count_marks}

abbrev first_part : List String → String
first_part [] = ""
first_part (p ∷ _) = p

abbrev pub plain_text : GoText
plain_text = record {
  trim_prefix = λ s _. s;
  has_prefix = λ _ _. true;
  cut = λ s. (s, "");
  split = λ s. s ∷ [];
  join = first_part;
  parse_uint = λ _. none;
  show = λ _. "0";
}

abbrev pub by_length : SemverPackage
by_length = record {
  is_valid = λ s. ltb 1 (count_marks s);
  is_greater = λ v w. ltb (count_marks w) (count_marks v);
  major = λ v. v;
  major_minor = λ v. v;
  is_greater-irreflexive = λ v. ground arith;
  is_greater-trans = λ u v w h k. ground arith;
  is_greater-split = λ u v w h. longer u v w h;
}
  where
    longer :
        (u v w : String)
        → ltb (count_marks w) (count_marks u) ≡ true
        → (ltb (count_marks v) (count_marks u) ≡ true)
          ⊎ (ltb (count_marks w) (count_marks v) ≡ true)
    longer u v w h = ground arith

picks_the_newest : newest plain_text by_length ("a" ∷ "abc" ∷ "ab" ∷ []) "" ≡ "abc"
unfolding normalize_tag newest newest_from is_newer
picks_the_newest = refl
