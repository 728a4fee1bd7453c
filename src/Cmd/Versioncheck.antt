-- ===== src/Cmd/Versioncheck.antt =====
-- cmd/versioncheck/main.go: the choice of the updates of image tags, for each chain and client. Regular
-- expressions and texts of the standard library are parameters; the order of the goroutines, the layout
-- of the report and the file versions_gen.go are left out.
pub mod ByVersion
pub mod Updates
pub mod ImageRef
pub mod Report
pub mod TagCache
use Prim.Native.String.{◌++◌}
use chainplane.Prelude.{
  ℕ, suc, String, Bool, true, false, Option, none, some, List, [], ◌∷◌, ◌&&◌, ◌||◌, not, str_eq,
  Map, empty_map, insert, get, if◌then◌else◌,
}
use chainplane.Api.{Chain}
use chainplane.Registry.Formats.{ChainVersionPolicy, TagEntry}
use chainplane.Registry.Semver.{GoText, SemverPackage, newest, is_newer, is_major_bump}

-- A compiled pattern: whether it has the group "version", and the text of that group in a match.
pub record TagRegexp : Type 0 where
  pub has_version : Bool
  pub version_group : String → Option String

-- regexp.Compile and strings.ToLower, and stableTagRe.MatchString.
pub record CheckText : Type 0 where
  pub text : GoText
  pub compile : String → Option TagRegexp
  pub to_lower : String → String
  pub is_clean_version : String → Bool

-- pick
pub record Pick : Type 0 where
  pub latest : String
  pub newer : Bool
  pub major : Bool
  pub same_major : String

-- versionResult; an error is told apart from none only.
pub record VersionResult : Type 0 where
  pub chain : Chain
  pub client : String
  pub current_ref : String
  pub current_tag : String
  pub latest_tag : String
  pub is_newer : Bool
  pub is_major : Bool
  pub same_major_tag : String
  pub no_match : Bool
  pub failed : Bool

unfoldable pub known_version_prefixes : List String
known_version_prefixes =
    "mainnet-" ∷ "testnet-" ∷ "greatvoyage-" ∷ "scroll-" ∷ "plume-" ∷ "arrowhead-" ∷ []

-- The last ":" of a reference: the text up to it, with it, and the text behind it.
unfoldable pub last_colon : String → Option (String × String)
last_colon String.[] = none
last_colon (String.◌∷◌ c s) =
    let rest = last_colon s in
    elim rest [
      | some (head, tag) ↦ some (String.◌∷◌ c head, tag)
      | none ↦ if str_eq (String.◌∷◌ c "") ":" then some (":", s) else none
    ]

-- parseTag
unfoldable pub parse_tag : String → String
parse_tag ref = elim (last_colon ref) [ none ↦ ref | some (_, tag) ↦ tag ]

-- replaceTag
unfoldable pub replace_tag : String → String → String
replace_tag ref new_tag = elim (last_colon ref) [
  | none ↦ ref ++ (":" ++ new_tag)
  | some (head, _) ↦ head ++ new_tag
]

-- cmp.Or on texts
abbrev pub or_text : String → String → String
or_text a b = if str_eq a "" then b else a

module _ (check : CheckText) (semver : SemverPackage) where
  -- The loop of isStableTag: a single known prefix is taken away.
  unfoldable pub strip_known : List String → String → String
  strip_known [] lower = lower
  strip_known (p ∷ ps) lower =
      let rest = strip_known ps lower in
      if check.text.has_prefix lower p then check.text.trim_prefix lower p else rest

  -- isStableTag
  unfoldable pub is_stable_tag : String → String → Bool
  is_stable_tag tag prefix =
      check.is_clean_version
        (strip_known known_version_prefixes (check.to_lower (check.text.trim_prefix tag prefix)))

  -- versionOf
  unfoldable pub version_of : TagRegexp → String → String
  version_of pattern tag =
      if not pattern.has_version
      then tag
      else (elim (pattern.version_group tag) [ none ↦ "" | some v ↦ v ])

  -- The test of the loop of pickLatest.
  unfoldable pub is_candidate : TagRegexp → String → TagEntry → Bool
  is_candidate pattern prefix t =
      let v = version_of pattern t.tag in not (str_eq v "" || not (is_stable_tag v prefix))

  -- `stable` behind the loop of pickLatest
  unfoldable pub stable_versions : TagRegexp → String → List TagEntry → List String
  stable_versions pattern prefix [] = []
  stable_versions pattern prefix (t ∷ ts) =
      let rest = stable_versions pattern prefix ts in
      if is_candidate pattern prefix t then version_of pattern t.tag ∷ rest else rest

  -- `byVersion` behind the loop of pickLatest
  unfoldable pub by_version : TagRegexp → String → Map String → List TagEntry → Map String
  by_version pattern prefix m [] = m
  by_version pattern prefix m (t ∷ ts) =
      by_version pattern prefix
        (if is_candidate pattern prefix t then insert (version_of pattern t.tag) t.tag m else m) ts

  -- An update that is no major bump.
  abbrev pub is_same_line : String → String → String → Bool
  is_same_line prefix current v = not (
      not (is_newer check.text semver v current prefix)
      || is_major_bump check.text semver v current prefix)

  -- `sameLine`
  unfoldable pub same_line : String → String → List String → List String
  same_line prefix current [] = []
  same_line prefix current (v ∷ vs) =
      let rest = same_line prefix current vs in
      if is_same_line prefix current v then v ∷ rest else rest

  -- `p.sameMajor`, for a major bump
  unfoldable pub same_major_of : String → String → Map String → List String → String
  same_major_of prefix current tags stable =
      let v = newest check.text semver (same_line prefix current stable) prefix in
      if not (str_eq v "") then get tags v else ""

  -- The part of pickLatest that follows the newest version.
  unfoldable pub pick_version : String → String → Map String → List String → String → Pick
  pick_version prefix current tags stable version =
      let newer = is_newer check.text semver version current prefix in
      let major = newer && is_major_bump check.text semver version current prefix in
      record {
        latest = get tags version;
        newer = newer;
        major = major;
        same_major = if major then same_major_of prefix current tags stable else "";
      }

  abbrev pub no_pick : Pick
  no_pick = record { latest = ""; newer = false; major = false; same_major = "" }

  -- The part of pickLatest that follows the compilation.
  unfoldable pub pick_with : TagRegexp → String → String → List TagEntry → Pick
  pick_with pattern prefix current_tag tags =
      let stable = stable_versions pattern prefix tags in
      let version = newest check.text semver stable prefix in
      let current = or_text (version_of pattern current_tag) current_tag in
      if str_eq version ""
      then no_pick
      else pick_version prefix current (by_version pattern prefix empty_map tags) stable version

  -- pickLatest
  unfoldable pub pick_latest : ChainVersionPolicy → String → List TagEntry → Option Pick
  pick_latest policy current_tag tags = elim (check.compile policy.tag_pattern) [
    | none ↦ none
    | some pattern ↦ some (pick_with pattern policy.tag_prefix current_tag tags)
  ]

  -- The result of a goroutine of checkVersions, from a pick or an error.
  unfoldable pub result_with : Chain → String → String → Option Pick → VersionResult
  result_with chain client ref picked =
      let p = elim picked as (λ _. Pick) [ none ↦ no_pick | some p ↦ p ] in
      let failed = elim picked as (λ _. Bool) [ none ↦ true | some _ ↦ false ] in
      record {
        chain = chain;
        client = client;
        current_ref = ref;
        current_tag = parse_tag ref;
        latest_tag = p.latest;
        is_newer = p.newer;
        is_major = p.major;
        same_major_tag = p.same_major;
        no_match = not failed && str_eq p.latest "";
        failed = failed;
      }

  -- A goroutine of checkVersions, for the answer of the registry: none for an error.
  unfoldable pub check_version :
      Chain → String → String → ChainVersionPolicy → Option (List TagEntry) → VersionResult
  check_version chain client ref policy answer = elim answer [
    | none ↦ result_with chain client ref none
    | some tags ↦ result_with chain client ref (pick_latest policy (parse_tag ref) tags)
  ]

-- workItem, with the image and the answer of the registry that its goroutine finds
pub record WorkItem : Type 0 where
  pub chain : Chain
  pub client : String
  pub current_ref : String
  pub policy : ChainVersionPolicy
  pub answer : Option (List TagEntry)

-- checkVersions, before the results are sorted
unfoldable pub check_versions : CheckText → SemverPackage → List WorkItem → List VersionResult
check_versions check semver [] = []
check_versions check semver (i ∷ items) =
    check_version check semver i.chain i.client i.current_ref i.policy i.answer
    ∷ check_versions check semver items

-- A round of the loop of filterNewer: the update to apply, if there is one.
unfoldable pub update_of : Bool → VersionResult → Option VersionResult
update_of allow_major r =
    if not r.is_newer
    then none
    else if not r.is_major || allow_major
    then some r
    else if not (str_eq r.same_major_tag "")
    then some (record r { latest_tag = r.same_major_tag })
    else none

-- filterNewer
unfoldable pub filter_newer : Bool → List VersionResult → List VersionResult
filter_newer allow_major [] = []
filter_newer allow_major (r ∷ rs) =
    let rest = filter_newer allow_major rs in
    elim (update_of allow_major r) [ none ↦ rest | some u ↦ u ∷ rest ]

-- countFailures
unfoldable pub count_failures : List VersionResult → ℕ
count_failures [] = 0
count_failures (r ∷ rs) =
    let rest = count_failures rs in if r.failed || r.no_match then suc rest else rest
