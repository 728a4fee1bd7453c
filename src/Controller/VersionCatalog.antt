-- ===== src/Controller/VersionCatalog.antt =====
-- internal/controller/chainversioncatalog_controller.go: the controller that polls the registry of a chain for
-- the newest tag of its image. Logging is left out, and so is the deadline of the listing.
pub mod Latest
pub mod Polled
use Prim.Native.String.{◌++◌}
use chainplane.Prelude.{
  ℕ, ◌*◌, ◌<◌, ◌≡◌, String, Bool, true, false, Option, none, some, List, [], ◌∷◌, ◌||◌, ◌==◌,
  str_eq, ltb, map, take, Any, if◌then◌else◌,
}
use chainplane.Time.{second, minute}
use chainplane.Api.{Chain, Condition, ConditionStatus, status_true, status_false}
use chainplane.Registry.Formats.{Formats, Urls, ChainVersionPolicy, TagEntry}
use chainplane.Registry.Semver.{GoText, SemverPackage, is_newer}
use chainplane.Registry.Http.{Web, Session, Outcome, got, failed}
use chainplane.Registry.DockerHub.{DockerHubAuth}
use chainplane.Registry.Client.{Client, new_client, latest_tags}
use chainplane.Controller.Conditions.{find_condition}

abbrev pub condition_registry_reachable : String
condition_registry_reachable = "RegistryReachable"

-- defaultCheckInterval
abbrev pub default_check_interval : ℕ
default_check_interval = 360 * minute

abbrev pub max_recent_tags : ℕ
max_recent_tags = 10

abbrev pub hour : ℕ
hour = 60 * minute

pub record TagInfo : Type 0 where
  pub tag : String
  pub published_at : Option ℕ

-- ChainVersionCatalogStatus
pub record CatalogStatus : Type 0 where
  pub latest_tag : String
  pub latest_digest : String
  pub published_at : Option ℕ
  pub checked_at : Option ℕ
  pub recent_tags : List TagInfo
  pub conditions : List Condition

-- ChainVersionCatalog, with the fields that are used
pub record Catalog : Type 0 where
  pub chain : Chain
  pub check_interval : String
  pub generation : ℕ
  pub status : CatalogStatus

-- What Get of the adapters finds for a chain.
pub data AdapterFound : Type 0 where
  no_adapter : AdapterFound
  no_version_provider : AdapterFound
  version_provider : ChainVersionPolicy → AdapterFound

-- The server: its copy of the catalog, and whether reads and updates fail.
pub record CatalogServer : Type 0 where
  pub stored : Option Catalog
  pub read_fails : Bool
  pub update_fails : Bool

-- What Reconcile returns: an error, or no error with a time after which it is run again.
pub data CatalogResult : Type 0 where
  reconcile_failed : CatalogResult
  reconciled : (requeue_after : Option ℕ) → CatalogResult

-- The standard library and apimachinery: time.Parse with RFC 3339, time.ParseDuration (0 for one that is not
-- positive), sort.Slice, which keeps the elements, and meta.SetStatusCondition, which sets the
-- condition of the kind.
pub record CatalogTools : Type 0 where
  pub parse_time : String → Option ℕ
  pub parse_duration : String → Option ℕ
  pub sort : (TagEntry → TagEntry → Bool) → List TagEntry → List TagEntry
  pub sort_keeps :
      (less : TagEntry → TagEntry → Bool) (es : List TagEntry) (e : TagEntry)
      → Any (λ (x : TagEntry). e ≡ x) (sort less es)
      → Any (λ (x : TagEntry). e ≡ x) es
  pub set_status_condition : List Condition → Condition → List Condition
  pub set_status_condition_lem :
      (cs : List Condition) (new : Condition)
      → (c : Condition) × (find_condition (set_status_condition cs new) new.kind ≡ some c)
        × (c.status ≡ new.status)
        × (c.reason ≡ new.reason)

-- Everything that the controller takes from outside.
pub record CatalogEnvironment (U : Type 0) : Type 0 where
  pub tools : CatalogTools
  pub text : GoText
  pub semver : SemverPackage
  pub adapters : Chain → AdapterFound
  pub web : Web
  pub formats : Formats
  pub urls : Urls U
  pub default_auth : Option DockerHubAuth
  pub now : ℕ

-- parseCheckInterval
unfoldable pub parse_check_interval : CatalogTools → String → ℕ
parse_check_interval tools s =
    if str_eq s "" then default_check_interval else (elim (tools.parse_duration s) [
      | none ↦ default_check_interval
      | some d ↦ if d == 0 then default_check_interval else d
    ])

-- The loop of findLatestTag.
unfoldable pub latest_from : GoText → SemverPackage → String → TagEntry → List TagEntry → TagEntry
latest_from text semver prefix best [] = best
latest_from text semver prefix best (e ∷ es) =
    latest_from text semver prefix (if is_newer text semver e.tag best.tag prefix then e else best)
      es

-- findLatestTag
unfoldable pub find_latest_tag :
    GoText → SemverPackage → List TagEntry → ChainVersionPolicy → TagEntry
find_latest_tag text semver [] policy = record { tag = ""; published_at = ""; digest = "" }
find_latest_tag text semver (e ∷ es) policy = latest_from text semver policy.tag_prefix e es

module _ (tools : CatalogTools) where
  -- setReachableCondition
  unfoldable pub set_reachable_condition : ConditionStatus → String → String → Catalog → Catalog
  set_reachable_condition status reason message catalog = record catalog {
    status = record catalog.status {
      conditions = tools.set_status_condition catalog.status.conditions (record {
        kind = condition_registry_reachable;
        status = status;
        reason = reason;
        message = message;
        last_transition_time = 0;
        observed_generation = catalog.generation;
      });
    };
  }

  -- The time of publication of an entry, if it has one that can be read.
  unfoldable pub published_of : TagEntry → Option ℕ
  published_of e = if str_eq e.published_at "" then none else tools.parse_time e.published_at

  -- The tags of the status.
  abbrev pub tag_info : TagEntry → TagInfo
  tag_info e = record { tag = e.tag; published_at = published_of e }

-- r.Status().Update, and the result
unfoldable pub update_status : ℕ → Catalog → CatalogServer → CatalogResult × CatalogServer
update_status requeue catalog server =
    if server.update_fails
    then (reconcile_failed, server)
    else (reconciled (some requeue), record server { stored = some catalog })

module _ {U : Type 0} (env : CatalogEnvironment U) where
  -- A status that says that the registry cannot be polled.
  unfoldable pub report_unreachable :
      ℕ → String → String → Catalog → CatalogServer → CatalogResult × CatalogServer
  report_unreachable requeue reason message catalog =
      update_status requeue (set_reachable_condition env.tools status_false reason message catalog)

  -- The entries, sorted by version.
  unfoldable pub sorted_entries : ChainVersionPolicy → List TagEntry → List TagEntry
  sorted_entries policy entries =
      env.tools.sort (λ a b. is_newer env.text env.semver a.tag b.tag policy.tag_prefix) entries

  -- The tags and times that follow from entries.
  unfoldable pub with_tags : ChainVersionPolicy → List TagEntry → Catalog → Catalog
  with_tags policy entries catalog =
      let best = find_latest_tag env.text env.semver entries policy in
      let published = published_of env.tools best in
      record catalog {
        status = record catalog.status {
          latest_tag = best.tag;
          latest_digest = best.digest;
          checked_at = some env.now;
          published_at = elim published [ none ↦ catalog.status.published_at | some t ↦ some t ];
          recent_tags =
              map (tag_info env.tools) (take max_recent_tags (sorted_entries policy entries));
        };
      }

  -- The catalog with the status that follows from entries.
  unfoldable pub polled_catalog : ChainVersionPolicy → List TagEntry → Catalog → Catalog
  polled_catalog policy entries catalog =
      set_reachable_condition env.tools status_true "RegistryPolled"
        "successfully fetched tags from registry" (with_tags policy entries catalog)

  -- The part of Reconcile that follows the listing.
  unfoldable pub with_entries :
      ChainVersionPolicy → List TagEntry → Catalog → CatalogServer → CatalogResult × CatalogServer
  with_entries policy [] catalog =
      report_unreachable hour "NoMatchingTags"
        "registry returned no tags matching the policy pattern" catalog
  with_entries policy (e ∷ es) catalog =
      update_status (parse_check_interval env.tools catalog.check_interval)
        (polled_catalog policy (e ∷ es) catalog)

  -- The texts of errors of the registry are left out.
  abbrev pub registry_error : Catalog → CatalogServer → CatalogResult × CatalogServer
  registry_error = report_unreachable (15 * minute) "RegistryError" ""

  unfoldable pub with_listing :
      ChainVersionPolicy
      → Outcome (List TagEntry)
      → Catalog
      → CatalogServer
      → CatalogResult × CatalogServer
  with_listing policy (failed _) catalog = registry_error catalog
  with_listing policy (got entries) catalog = with_entries policy entries catalog

  -- `regClient.LatestTags(fetchCtx, policy, 25)` of the client that the policy asks for
  unfoldable pub listing_of : ChainVersionPolicy → Session → Outcome (List TagEntry)
  listing_of policy session = elim (new_client env.default_auth policy.registry) [
    | failed e ↦ failed e
    | got client ↦ (latest_tags env.web env.formats env.urls client policy 25 session).0
  ]

  -- The part of Reconcile that follows the fetch of the catalog.
  unfoldable pub with_catalog :
      Session → AdapterFound → Catalog → CatalogServer → CatalogResult × CatalogServer
  with_catalog session no_adapter catalog =
      report_unreachable hour "AdapterNotFound"
        ("no adapter registered for chain " ++ catalog.chain) catalog
  with_catalog session no_version_provider catalog =
      report_unreachable hour "VersionProviderNotImplemented"
        ("adapter for chain " ++ catalog.chain ++ " does not implement VersionProvider") catalog
  with_catalog session (version_provider policy) catalog =
      with_listing policy (listing_of policy session) catalog

  -- Reconcile
  unfoldable pub reconcile_catalog : Session → CatalogServer → CatalogResult × CatalogServer
  reconcile_catalog session server =
      if server.read_fails then (reconcile_failed, server) else (elim server.stored [
        | none ↦ (reconciled none, server)
        | some catalog ↦ with_catalog session (env.adapters catalog.chain) catalog server
      ])
