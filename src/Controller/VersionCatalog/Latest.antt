-- ===== src/Controller/VersionCatalog/Latest.antt =====
-- The tag that findLatestTag picks.
use chainplane.Prelude.{
  ◌≡◌, ◌⊎◌, refl, inl, inr, String, Bool, false, List, [], ◌∷◌, All, Any, arith, Bool-cases,
}
use chainplane.Registry.Formats.{ChainVersionPolicy, TagEntry}
use chainplane.Registry.Semver.{GoText, SemverPackage, is_newer}
use chainplane.Registry.Semver.Newest.{is_newer_trans, irreflexive_lem}
use chainplane.Controller.VersionCatalog.{latest_from, find_latest_tag}

module _ (text : GoText) (semver : SemverPackage) (prefix : String) where
  abbrev is_newer_tag : TagEntry → TagEntry → Bool
  is_newer_tag a b = is_newer text semver a.tag b.tag prefix

  -- An entry of the list, than which no entry is newer.
  pub record IsLatest (es : List TagEntry) (r : TagEntry) : Type 0 where
    pub listed : Any (λ (e : TagEntry). r ≡ e) es
    pub unbeaten : All (λ (e : TagEntry). is_newer text semver e.tag r.tag prefix ≡ false) es

  -- What the loop makes of the best entry so far.
  record Improves (best r : TagEntry) (es : List TagEntry) : Type 0 where
    kept : (x : TagEntry) → is_newer_tag x best ≡ false → is_newer_tag x r ≡ false
    unbeaten : All (λ (e : TagEntry). is_newer_tag e r ≡ false) es
    from : (r ≡ best) ⊎ Any (λ (e : TagEntry). r ≡ e) es

  latest_from-Improves :
      (best : TagEntry) (es : List TagEntry)
      → Improves best (latest_from text semver prefix best es) es
  unfolding latest_from
  latest_from-Improves best [] = record { kept = λ x h. h; unbeaten = tt; from = inl refl }
  latest_from-Improves best (e ∷ es) = elim (Bool-cases (is_newer_tag e best)) [
    | inl newer ↦
        let rest = latest_from-Improves e es in
        rw newer (record {
          kept = λ x h. rest.kept x (elim (Bool-cases (is_newer_tag x e)) [
            | inr ok ↦ ok
            | inl beats ↦
                absurd (
                  ground
                    (arith, is_newer_trans text semver prefix x.tag e.tag best.tag beats newer))
          ]);
          unbeaten = (rest.kept e (irreflexive_lem text semver prefix e.tag), rest.unbeaten);
          from = inr rest.from;
        })
    | inr older ↦
        let rest = latest_from-Improves best es in
        rw older (record {
          kept = rest.kept;
          unbeaten = (rest.kept e older, rest.unbeaten);
          from = elim rest.from [ inl same ↦ inl same | inr later ↦ inr (inr later) ];
        })
  ]

pub find_latest_tag-IsLatest :
    (text : GoText) (semver : SemverPackage) (e : TagEntry) (es : List TagEntry)
    (policy : ChainVersionPolicy)
    → IsLatest text semver policy.tag_prefix (e ∷ es) (find_latest_tag text semver (e ∷ es) policy)
unfolding find_latest_tag
find_latest_tag-IsLatest text semver e es policy =
    let loop = latest_from-Improves text semver policy.tag_prefix e es in
    record {
      listed = loop.from;
      unbeaten = (loop.kept e (irreflexive_lem text semver policy.tag_prefix e.tag), loop.unbeaten);
    }
