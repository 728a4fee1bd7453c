-- ===== src/Cmd/Versioncheck/Updates.antt =====
-- What the updates that are applied without allowing major bumps have in common.
use chainplane.Prelude.{
  ◌≡◌, ◌≢◌, ◌⊎◌, refl, sym, ap, ◌∙◌, subst, inl, inr, String, true, false, none, some, List, [],
  ◌∷◌, Any, arith, eq_iff, str_eq, empty_map, get, Bool-cases, Option-cases,
}
use chainplane.Registry.Formats.{TagEntry}
use chainplane.Registry.Semver.{SemverPackage, newest, is_newer, is_major_bump}
use chainplane.Cmd.Versioncheck.{
  CheckText, TagRegexp, Pick, VersionResult, WorkItem, parse_tag, or_text, version_of,
  stable_versions, by_version, is_same_line, same_line, same_major_of, pick_version, pick_with,
  pick_latest, result_with, check_version, check_versions, update_of, filter_newer,
}
use chainplane.Cmd.Versioncheck.ByVersion.{IsTagOf, tag_in, Among, by_version_lem, newest-listed}

module _ (check : CheckText) (semver : SemverPackage) where
  -- The tag is listed, its version is stable, newer than the current one, and no major bump over it.
  pub record IsMinorUpdate (pattern : TagRegexp) (prefix current : String) (tags : List TagEntry)
      (tag : String) : Type 0 where
    pub version : String
    pub listed : Any (IsTagOf check semver pattern prefix version tag) tags
    pub newer : is_newer check.text semver version current prefix ≡ true
    pub no_bump : is_major_bump check.text semver version current prefix ≡ false

  same_line-Among :
      (pattern : TagRegexp) (prefix current v : String) (vs : List String)
      → Among check semver pattern prefix v (same_line check semver prefix current vs)
      → Among check semver pattern prefix v vs × (is_same_line check semver prefix current v ≡ true)
  unfolding same_line Among
  same_line-Among pattern prefix current v [] h = elim h [ ]
  same_line-Among pattern prefix current v (w ∷ vs) h =
      let rest = same_line-Among pattern prefix current v vs in
      elim (Bool-cases (is_same_line check semver prefix current w)) [
        | inl kept ↦ elim (rw kept at h) [
          | inl e ↦ (inl e, ap (is_same_line check semver prefix current) e ∙ kept)
          | inr later ↦ let (there, line) = rest later in (inr there, line)
        ]
        | inr dropped ↦ let (there, line) = rest (rw dropped at h) in (inr there, line)
      ]

  module _ (pattern : TagRegexp) (prefix current : String) (tags : List TagEntry) where
    entry_of :
        (v : String)
        → Among check semver pattern prefix v (stable_versions check semver pattern prefix tags)
        → Any
            (IsTagOf check semver pattern prefix v
              (get (by_version check semver pattern prefix empty_map tags) v))
            tags
    unfolding tag_in
    entry_of v h = by_version_lem check semver pattern prefix v empty_map tags h

    -- The newest of the versions, where it is no major bump.
    latest_update :
        (version : String)
        → Among check semver pattern prefix version
            (stable_versions check semver pattern prefix tags)
        → (pick_version check semver prefix current
            (by_version check semver pattern prefix empty_map tags)
            (stable_versions check semver pattern prefix tags)
            version).newer
          ≡ true
        → (pick_version check semver prefix current
            (by_version check semver pattern prefix empty_map tags)
            (stable_versions check semver pattern prefix tags)
            version).major
          ≡ false
        → IsMinorUpdate pattern prefix current tags
            (pick_version check semver prefix current
              (by_version check semver pattern prefix empty_map tags)
              (stable_versions check semver pattern prefix tags)
              version).latest
    unfolding pick_version
    latest_update version among newer minor = record {
      version = version;
      listed = entry_of version among;
      newer = newer;
      no_bump = ground arith;
    }

    -- The newest of the versions of the same line, where there is one.
    same_line_update :
        same_major_of check semver prefix current
            (by_version check semver pattern prefix empty_map tags)
            (stable_versions check semver pattern prefix tags)
          ≢ ""
        → IsMinorUpdate pattern prefix current tags (
            same_major_of check semver prefix current
              (by_version check semver pattern prefix empty_map tags)
              (stable_versions check semver pattern prefix tags))
    unfolding same_major_of Among
    same_line_update some_tag =
        let line =
          same_line check semver prefix current
            (stable_versions check semver pattern prefix tags) in
        elim (Bool-cases (str_eq (newest check.text semver line prefix) "")) [
          | inl empty ↦ absurd (some_tag (rw empty refl))
          | inr full ↦ rw full (elim (newest-listed check semver prefix line) [
            | inl same ↦ absurd (ground (arith, eq_iff (newest check.text semver line prefix) ""))
            | inr among ↦
                let v = newest check.text semver line prefix in
                let (there, minor) =
                  same_line-Among pattern prefix current v
                    (stable_versions check semver pattern prefix tags) among in
                record {
                  version = v;
                  listed = entry_of v there;
                  newer = ground arith;
                  no_bump = ground arith;
                }
          ])
        ]

    -- The two tags that a pick offers.
    record Offers (p : Pick) : Type 0 where
      latest_minor :
          p.newer ≡ true → p.major ≡ false → IsMinorUpdate pattern prefix current tags p.latest
      line_minor :
          p.major ≡ true
          → p.same_major ≢ ""
          → IsMinorUpdate pattern prefix current tags p.same_major

    pick_version-Offers :
        (version : String)
        → Among check semver pattern prefix version
            (stable_versions check semver pattern prefix tags)
        → Offers (
            pick_version check semver prefix current
              (by_version check semver pattern prefix empty_map tags)
              (stable_versions check semver pattern prefix tags)
              version)
    unfolding pick_version
    pick_version-Offers version among = record {
      latest_minor = latest_update version among;
      line_minor = λ bump some_tag. rw bump (same_line_update (rw bump at some_tag));
    }

  pick_with-Offers :
      (pattern : TagRegexp) (prefix current_tag : String) (tags : List TagEntry)
      → Offers pattern prefix
          (or_text (version_of check semver pattern current_tag) current_tag)
          tags
          (pick_with check semver pattern prefix current_tag tags)
  unfolding pick_with Among
  pick_with-Offers pattern prefix current_tag tags =
      let version =
        newest check.text semver (stable_versions check semver pattern prefix tags) prefix in
      elim (Bool-cases (str_eq version "")) [
        | inl empty ↦ rw empty (record {
          latest_minor = λ newer _. absurd (ground arith);
          line_minor = λ bump _. absurd (ground arith);
        })
        | inr full ↦
            rw full
              (elim (newest-listed check semver prefix
                (stable_versions check semver pattern prefix tags)) [
                  | inl same ↦ absurd (ground (arith, eq_iff version ""))
                  | inr among ↦ pick_version-Offers pattern prefix _ tags version among
                ])
      ]

-- The update that filterNewer makes of a result, without allowing major bumps.
update_cases :
    (r u : VersionResult)
    → update_of false r ≡ some u
    → ((r.is_newer ≡ true) × (r.is_major ≡ false) × (u.latest_tag ≡ r.latest_tag))
      ⊎ ((r.is_major ≡ true) × (r.same_major_tag ≢ "") × (u.latest_tag ≡ r.same_major_tag))
unfolding update_of
update_cases r u h = elim (Bool-cases r.is_newer) [
  | inr old ↦ absurd (ground arith)
  | inl newer ↦ elim (Bool-cases r.is_major) [
    | inr minor ↦ inl (newer, minor, ground arith)
    | inl bump ↦ elim (Bool-cases (str_eq r.same_major_tag "")) [
      | inl empty ↦ absurd (ground arith)
      | inr full ↦ inr (bump, λ e. ground (arith, eq_iff r.same_major_tag ""), ground arith)
    ]
  ]
]

held_step :
    (r : VersionResult) (rs : List VersionResult)
    → update_of false r ≡ none
    → filter_newer false (r ∷ rs) ≡ filter_newer false rs
unfolding filter_newer
held_step r rs e = rw (e, filter_newer) refl

applied_step :
    (r u : VersionResult) (rs : List VersionResult)
    → update_of false r ≡ some u
    → filter_newer false (r ∷ rs) ≡ u ∷ filter_newer false rs
unfolding filter_newer
applied_step r u rs e = rw (e, filter_newer) refl

no_update : (u : VersionResult) → ¬ (Any (λ (x : VersionResult). u ≡ x) (filter_newer false []))
unfolding filter_newer
no_update u h = h

module _ (check : CheckText) (semver : SemverPackage) where
  -- The update is made of this item: its policy compiles, the registry answered, and the tag is one
  -- that the registry listed, of a stable version that is newer than the current one and no major bump.
  pub record IsUpdateOf (tag : String) (i : WorkItem) : Type 0 where
    pub pattern : TagRegexp
    pub compiled : check.compile i.policy.tag_pattern ≡ some pattern
    pub tags : List TagEntry
    pub answered : i.answer ≡ some tags
    pub minor :
        IsMinorUpdate check semver pattern i.policy.tag_prefix
          (or_text
            (version_of check semver pattern (parse_tag i.current_ref))
            (parse_tag i.current_ref))
          tags
          tag

  nothing_new :
      {A : Type 0} (chain client ref : String) (u : VersionResult)
      → update_of false (result_with check semver chain client ref none) ≡ some u
      → A
  unfolding result_with
  nothing_new chain client ref u h = elim (update_cases _ u h) [
    | inl (newer, _, _) ↦ absurd (ground arith)
    | inr (bump, _, _) ↦ absurd (ground arith)
  ]

  checked-IsUpdateOf :
      (i : WorkItem) (u : VersionResult)
      → update_of false
          (check_version check semver i.chain i.client i.current_ref i.policy i.answer)
        ≡ some u
      → IsUpdateOf u.latest_tag i
  unfolding check_version result_with pick_latest
  checked-IsUpdateOf i u h = elim (Option-cases i.answer) [
    | inl none_is ↦ nothing_new i.chain i.client i.current_ref u (rw none_is at h)
    | inr (tags, answered) ↦ elim (Option-cases (check.compile i.policy.tag_pattern)) [
      | inl bad ↦ nothing_new i.chain i.client i.current_ref u (rw (answered, bad) at h)
      | inr (pattern, compiled) ↦
          let offers =
            pick_with-Offers check semver pattern i.policy.tag_prefix (parse_tag i.current_ref)
              tags in
          elim (update_cases _ u (rw (answered, compiled) at h)) [
            | inl (newer, minor, same) ↦ record {
              pattern = pattern;
              compiled = compiled;
              tags = tags;
              answered = answered;
              minor = rw same (offers.latest_minor newer minor);
            }
            | inr (bump, some_tag, same) ↦ record {
              pattern = pattern;
              compiled = compiled;
              tags = tags;
              answered = answered;
              minor = rw same (offers.line_minor bump some_tag);
            }
          ]
    ]
  ]

  -- Every update that filterNewer keeps of the results of checkVersions, without allowing major bumps, is
  -- made of an item whose pattern compiles and for which the registry answered, and its tag is a listed one,
  -- of a stable version that is newer than the current one and no major bump over it.
  pub filter_newer-IsUpdateOf :
      (items : List WorkItem) (u : VersionResult)
      → Any (λ (x : VersionResult). u ≡ x) (filter_newer false (check_versions check semver items))
      → Any (IsUpdateOf u.latest_tag) items
  unfolding check_versions
  filter_newer-IsUpdateOf [] u h = absurd (no_update u h)
  filter_newer-IsUpdateOf (i ∷ items) u h =
      let checked = check_version check semver i.chain i.client i.current_ref i.policy i.answer in
      let others = check_versions check semver items in
      let rest = filter_newer-IsUpdateOf items u in
      let Kept : List VersionResult → Type 0 = Any (λ (x : VersionResult). u ≡ x) in
      elim (Option-cases (update_of false checked)) [
        | inl held ↦ inr (rest (subst Kept (held_step checked others held) h))
        | inr (x, applied) ↦ elim (subst Kept (applied_step checked x others applied) h) [
          | inl same ↦ inl (checked-IsUpdateOf i u (applied ∙ ap some (sym same)))
          | inr later ↦ inr (rest later)
        ]
      ]
