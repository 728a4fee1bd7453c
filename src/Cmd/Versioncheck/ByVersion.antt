-- ===== src/Cmd/Versioncheck/ByVersion.antt =====
-- The versions that are chosen from stand for tags of the list.
use chainplane.Prelude.{
  ◌≡◌, ◌⊎◌, refl, sym, ap, ◌∙◌, subst, inl, inr, String, true, false, List, [], ◌∷◌, Any, arith,
  eq_iff, str_eq, Map, insert, get, Bool-cases,
}
use chainplane.Registry.Formats.{TagEntry}
use chainplane.Registry.Semver.{SemverPackage, newest, newest_from, better}
use chainplane.Cmd.Versioncheck.{
  CheckText, TagRegexp, version_of, is_stable_tag, is_candidate, stable_versions, by_version,
}

module _ (check : CheckText) (semver : SemverPackage) where
  better-listed :
      (prefix best t : String)
      → (better check.text semver prefix best t ≡ best)
        ⊎ (better check.text semver prefix best t ≡ t)
  better-listed prefix best t = ground arith

  -- The newest of a list is in it, or there is none.
  newest_from-listed :
      (prefix best : String) (ts : List String)
      → (newest_from check.text semver prefix best ts ≡ best)
        ⊎ Any (λ (t : String). newest_from check.text semver prefix best ts ≡ t) ts
  unfolding newest_from
  newest_from-listed prefix best [] = inl refl
  newest_from-listed prefix best (t ∷ ts) =
      elim (newest_from-listed prefix (better check.text semver prefix best t) ts) [
        | inl same ↦ elim (better-listed prefix best t) [
          | inl kept ↦ inl (same ∙ kept)
          | inr taken ↦ inr (inl (same ∙ taken))
        ]
        | inr found ↦ inr (inr found)
      ]

  pub newest-listed :
      (prefix : String) (ts : List String)
      → (newest check.text semver ts prefix ≡ "")
        ⊎ Any (λ (t : String). newest check.text semver ts prefix ≡ t) ts
  unfolding newest
  newest-listed prefix ts = newest_from-listed prefix "" ts

  module _ (pattern : TagRegexp) (prefix : String) where
    -- The tag is in the list, and its version is stable and the given one.
    pub record IsTagOf (v tag : String) (t : TagEntry) : Type 0 where
      pub is_tag : t.tag ≡ tag
      pub is_version : version_of check semver pattern tag ≡ v
      pub is_stable : is_stable_tag check semver v prefix ≡ true

    candidate-stable :
        (t : TagEntry)
        → is_candidate check semver pattern prefix t ≡ true
        → is_stable_tag check semver (version_of check semver pattern t.tag) prefix ≡ true
    unfolding is_candidate
    candidate-stable t h = ground arith

    -- The entry of a candidate, in a map that holds its tag for its version.
    own_entry :
        (v tag : String) (t : TagEntry)
        → is_candidate check semver pattern prefix t ≡ true
        → v ≡ version_of check semver pattern t.tag
        → tag ≡ t.tag
        → IsTagOf v tag t
    own_entry v tag t candidate version same = record {
      is_tag = sym same;
      is_version = ap (version_of check semver pattern) same ∙ sym version;
      is_stable = rw version (candidate-stable t candidate);
    }

    unfoldable pub tag_in : String → Map String → List TagEntry → String
    tag_in v m ts = get (by_version check semver pattern prefix m ts) v

    kept_step :
        (v : String) (m : Map String) (t : TagEntry) (ts : List TagEntry)
        → is_candidate check semver pattern prefix t ≡ true
        → tag_in v m (t ∷ ts) ≡ tag_in v (insert (version_of check semver pattern t.tag) t.tag m) ts
    unfolding by_version tag_in
    kept_step v m t ts candidate = rw candidate refl

    passed_step :
        (v : String) (m : Map String) (t : TagEntry) (ts : List TagEntry)
        → is_candidate check semver pattern prefix t ≡ false
        → tag_in v m (t ∷ ts) ≡ tag_in v m ts
    unfolding by_version tag_in
    passed_step v m t ts passed = rw passed refl

    tag_in-empty : (v : String) (m : Map String) → tag_in v m [] ≡ get m v
    unfolding by_version tag_in
    tag_in-empty v m = refl

    insert-own : (v w tag : String) (m : Map String) → v ≡ w → get (insert w tag m) v ≡ tag
    insert-own v w tag m e =
        let same : str_eq v w ≡ true = ground (arith, eq_iff v w) in rw (same, get) refl

    insert-cases :
        (v w tag : String) (m : Map String)
        → ((v ≡ w) × (get (insert w tag m) v ≡ tag)) ⊎ (get (insert w tag m) v ≡ get m v)
    insert-cases v w tag m = elim (Bool-cases (str_eq v w)) [
      | inl same ↦ inl (ground (arith, eq_iff v w), rw (same, get) refl)
      | inr other ↦ inr (rw (other, get) refl)
    ]

    -- The map holds for a version the tag of an entry with it, or what it held before.
    by_version_cases :
        (v : String) (m : Map String) (ts : List TagEntry)
        → Any (IsTagOf v (tag_in v m ts)) ts ⊎ (tag_in v m ts ≡ get m v)
    by_version_cases v m [] = inr (tag_in-empty v m)
    by_version_cases v m (t ∷ ts) = elim (Bool-cases (is_candidate check semver pattern prefix t)) [
      | inr passed ↦
          subst (λ (tag : String). Any (IsTagOf v tag) (t ∷ ts) ⊎ (tag ≡ get m v))
            (sym (passed_step v m t ts passed))
            (elim (by_version_cases v m ts) [ inl found ↦ inl (inr found) | inr same ↦ inr same ])
      | inl candidate ↦
          let w = version_of check semver pattern t.tag in
          subst (λ (tag : String). Any (IsTagOf v tag) (t ∷ ts) ⊎ (tag ≡ get m v))
            (sym (kept_step v m t ts candidate))
            (elim (by_version_cases v (insert w t.tag m) ts) [
              | inl found ↦ inl (inr found)
              | inr same ↦ elim (insert-cases v w t.tag m) [
                | inl (e, own) ↦ inl (inl (own_entry v _ t candidate e (same ∙ own)))
                | inr before ↦ inr (same ∙ before)
              ]
            ])
    ]

    stable_kept :
        (t : TagEntry) (ts : List TagEntry)
        → is_candidate check semver pattern prefix t ≡ true
        → stable_versions check semver pattern prefix (t ∷ ts)
          ≡ version_of check semver pattern t.tag ∷ stable_versions check semver pattern prefix ts
    unfolding stable_versions
    stable_kept t ts candidate = rw candidate refl

    stable_passed :
        (t : TagEntry) (ts : List TagEntry)
        → is_candidate check semver pattern prefix t ≡ false
        → stable_versions check semver pattern prefix (t ∷ ts)
          ≡ stable_versions check semver pattern prefix ts
    unfolding stable_versions
    stable_passed t ts passed = rw passed refl

    unfoldable pub Among : String → List String → Type 0
    Among v = Any (λ (x : String). v ≡ x)

    no_versions : (v : String) → ¬ (Among v (stable_versions check semver pattern prefix []))
    unfolding stable_versions Among
    no_versions v h = h

    Among-cons : (v w : String) (ws : List String) → Among v (w ∷ ws) → (v ≡ w) ⊎ Among v ws
    unfolding Among
    Among-cons v w ws h = h

    -- What the map of versions holds for a version of the list.
    pub by_version_lem :
        (v : String) (m : Map String) (ts : List TagEntry)
        → Among v (stable_versions check semver pattern prefix ts)
        → Any (IsTagOf v (tag_in v m ts)) ts
    by_version_lem v m [] h = absurd (no_versions v h)
    by_version_lem v m (t ∷ ts) h = elim (Bool-cases (is_candidate check semver pattern prefix t)) [
      | inr passed ↦
          subst (λ (tag : String). Any (IsTagOf v tag) (t ∷ ts)) (sym (passed_step v m t ts passed))
            (inr (by_version_lem v m ts (subst (Among v) (stable_passed t ts passed) h)))
      | inl candidate ↦
          let w = version_of check semver pattern t.tag in
          let m' = insert w t.tag m in
          subst (λ (tag : String). Any (IsTagOf v tag) (t ∷ ts))
            (sym (kept_step v m t ts candidate))
            (elim (Among-cons v w _ (subst (Among v) (stable_kept t ts candidate) h)) [
              | inr later ↦ inr (by_version_lem v m' ts later)
              | inl e ↦ elim (by_version_cases v m' ts) [
                | inl found ↦ inr found
                | inr same ↦ inl (own_entry v _ t candidate e (same ∙ insert-own v w t.tag m e))
              ]
            ])
    ]
