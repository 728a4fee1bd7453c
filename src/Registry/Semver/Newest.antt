-- ===== src/Registry/Semver/Newest.antt =====
-- Newest picks a greatest tag.
use chainplane.Prelude.{
  ◌≡◌, ◌≢◌, ◌⊎◌, refl, sym, subst, ◌∙◌, inl, inr, String, true, false, List, [], ◌∷◌, All, Any,
  arith, eq_iff, Bool-cases,
}
use chainplane.Registry.Semver.{
  GoText, SemverPackage, normalize_tag, is_newer, better, newest_from, newest,
}

module _ (text : GoText) (semver : SemverPackage) (prefix : String) where
  -- The tag is a version.
  abbrev pub IsVersion : String → Type 0
  IsVersion t = semver.is_valid (normalize_tag text semver t prefix) ≡ true

  -- The tag is a version, and none of the tags is newer.
  pub record IsNewestOf (ts : List String) (r : String) : Type 0 where
    pub is_version : IsVersion r
    pub unbeaten : All (λ (t : String). is_newer text semver t r prefix ≡ false) ts

  pub is_newer_trans :
      (a b c : String)
      → is_newer text semver a b prefix ≡ true
      → is_newer text semver b c prefix ≡ true
      → is_newer text semver a c prefix ≡ true
  unfolding is_newer
  is_newer_trans a b c h k = ground (
    arith,
    semver.is_greater-trans (normalize_tag text semver a prefix)
        (normalize_tag text semver b prefix) (normalize_tag text semver c prefix),
  )

  is_newer-split :
      (a b c : String)
      → IsVersion b
      → is_newer text semver a c prefix ≡ true
      → (is_newer text semver a b prefix ≡ true) ⊎ (is_newer text semver b c prefix ≡ true)
  unfolding is_newer
  is_newer-split a b c v h = ground (
    arith,
    semver.is_greater-split (normalize_tag text semver a prefix)
        (normalize_tag text semver b prefix) (normalize_tag text semver c prefix),
  )

  invalid_lem :
      (a b : String)
      → semver.is_valid (normalize_tag text semver a prefix) ≡ false
      → is_newer text semver a b prefix ≡ false
  unfolding is_newer
  invalid_lem a b h = ground arith

  pub irreflexive_lem : (a : String) → is_newer text semver a a prefix ≡ false
  unfolding is_newer
  irreflexive_lem a =
      ground (arith, semver.is_greater-irreflexive (normalize_tag text semver a prefix))

  -- What is not newer than a version that is not newer than a third is not newer than that.
  behind :
      (a b c : String)
      → IsVersion b
      → is_newer text semver a b prefix ≡ false
      → is_newer text semver b c prefix ≡ false
      → is_newer text semver a c prefix ≡ false
  behind a b c v h k = elim (Bool-cases (is_newer text semver a c prefix)) [
    | inl x ↦
        absurd (elim (is_newer-split a b c v x) [ inl y ↦ ground arith | inr y ↦ ground arith ])
    | inr x ↦ x
  ]

  ahead :
      (a b c : String)
      → is_newer text semver a b prefix ≡ true
      → is_newer text semver a c prefix ≡ false
      → is_newer text semver b c prefix ≡ false
  ahead a b c h k = elim (Bool-cases (is_newer text semver b c prefix)) [
    | inl x ↦ absurd (ground (arith, is_newer_trans a b c h x))
    | inr x ↦ x
  ]

  -- The answer for a list of tags: nothing, if none is a version, or a newest one of them.
  abbrev pub IsOutcome : List String → String → Type 0
  IsOutcome ts r =
      (All (λ (t : String). semver.is_valid (normalize_tag text semver t prefix) ≡ false) ts
        × (r ≡ ""))
      ⊎ (IsNewestOf ts r × Any (λ (t : String). r ≡ t) ts)

  -- What the loop keeps, once it has a version.
  record Kept (best : String) (ts : List String) (r : String) : Type 0 where
    newest : IsNewestOf ts r
    start : is_newer text semver best r prefix ≡ false
    listed : (r ≡ best) ⊎ Any (λ (t : String). r ≡ t) ts

  better_cases :
      (best t : String)
      → best ≢ ""
      → IsVersion best
      → ((better text semver prefix best t ≡ best) × (is_newer text semver t best prefix ≡ false))
        ⊎ ((better text semver prefix best t ≡ t)
            × (is_newer text semver t best prefix ≡ true)
            × IsVersion t)
  unfolding is_newer
  better_cases best t named v =
      elim (Bool-cases (semver.is_valid (normalize_tag text semver t prefix))) [
        | inl ok_is ↦ elim (Bool-cases (is_newer text semver t best prefix)) [
          | inl more ↦ inr (ground arith, more, ok_is)
          | inr less ↦ inl (ground (arith, eq_iff best ""), less)
        ]
        | inr bad ↦ inl (ground arith, ground arith)
      ]

  module _ (empty_invalid : semver.is_valid (normalize_tag text semver "" prefix) ≡ false) where
    version_named : (t : String) → IsVersion t → t ≢ ""
    version_named t v e = absurd (ground (arith, sym empty_invalid ∙ rw e at v))

    loop-Kept :
        (ts : List String) (best : String)
        → IsVersion best
        → Kept best ts (newest_from text semver prefix best ts)
    unfolding newest_from
    loop-Kept [] best v = record {
      newest = record { is_version = v; unbeaten = tt };
      start = irreflexive_lem best;
      listed = inl refl;
    }
    loop-Kept (t ∷ ts) best v = elim (better_cases best t (version_named best v) v) [
      | inl (e, less) ↦ rw e (
          let k = loop-Kept ts best v in
          record {
            newest = record {
              is_version = k.newest.is_version;
              unbeaten = (behind t best _ v less k.start, k.newest.unbeaten);
            };
            start = k.start;
            listed = elim k.listed [ inl x ↦ inl x | inr x ↦ inr (inr x) ];
          })
      | inr (e, more, vt) ↦ rw e (
          let k = loop-Kept ts t vt in
          record {
            newest = record {
              is_version = k.newest.is_version;
              unbeaten = (k.start, k.newest.unbeaten);
            };
            start = ahead t best _ more k.start;
            listed = elim k.listed [ inl x ↦ inr (inl x) | inr x ↦ inr (inr x) ];
          })
    ]

    round_eq :
        (ts : List String) (t best : String)
        → better text semver prefix "" t ≡ best
        → newest_from text semver prefix "" (t ∷ ts) ≡ newest_from text semver prefix best ts
    unfolding newest_from
    round_eq ts t best e = rw e

    first-IsOutcome : (ts : List String) → IsOutcome ts (newest_from text semver prefix "" ts)
    unfolding newest_from
    first-IsOutcome [] = inl (tt, refl)
    first-IsOutcome (t ∷ ts) =
        elim (Bool-cases (semver.is_valid (normalize_tag text semver t prefix))) [
          | inl good ↦
              let k = loop-Kept ts t good in
              subst (IsOutcome (t ∷ ts)) (sym (round_eq ts t t (ground arith))) (
                inr (
                  record {
                    is_version = k.newest.is_version;
                    unbeaten = (k.start, k.newest.unbeaten);
                  },
                  k.listed,
                ))
          | inr bad ↦
              subst (IsOutcome (t ∷ ts)) (sym (round_eq ts t "" (ground arith)))
                (elim (first-IsOutcome ts) [
                  | inl (none_valid, e) ↦ inl ((bad, none_valid), e)
                  | inr (k, listed) ↦ inr (
                    record {
                      is_version = k.is_version;
                      unbeaten = (invalid_lem t _ bad, k.unbeaten);
                    },
                    inr listed,
                  )
                ])
        ]

  -- Newest, where the empty tag is no version: it answers "" if no tag of the list is a version,
  -- and else a tag of the list that is one, than which none of the list is newer.
  pub newest-IsOutcome :
      semver.is_valid (normalize_tag text semver "" prefix) ≡ false
      → (tags : List String) → IsOutcome tags (newest text semver tags prefix)
  unfolding newest
  newest-IsOutcome empty_invalid tags = first-IsOutcome empty_invalid tags
