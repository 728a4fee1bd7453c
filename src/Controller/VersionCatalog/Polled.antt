-- ===== src/Controller/VersionCatalog/Polled.antt =====
-- What a poll leaves in the status of the catalog.
use chainplane.Prelude.{
  ◌≡◌, ◌≤◌, ◌⊎◌, refl, ap, inl, inr, ℕ, zero, suc, String, Option, some, List, [], ◌∷◌, All, Any,
  map, take, length, arith, Bool-cases,
}
use chainplane.Api.{ConditionStatus, status_true, status_false}
use chainplane.Registry.Formats.{ChainVersionPolicy, TagEntry}
use chainplane.Registry.Http.{Session, Outcome, got, failed}
use chainplane.Controller.Conditions.{find_condition}
use chainplane.Controller.VersionCatalog.{
  condition_registry_reachable, max_recent_tags, TagInfo, Catalog, AdapterFound, no_adapter,
  no_version_provider, version_provider, CatalogServer, reconciled, CatalogEnvironment,
  set_reachable_condition, tag_info, update_status, report_unreachable, sorted_entries, with_tags,
  polled_catalog, with_entries, with_listing, listing_of, with_catalog, reconcile_catalog,
  find_latest_tag,
}
use chainplane.Controller.VersionCatalog.Latest.{IsLatest, find_latest_tag-IsLatest}

-- The condition RegistryReachable is there, with the status.
abbrev pub Reachable : ConditionStatus → Catalog → Type 0
Reachable status catalog =
    (c : chainplane.Api.Condition) × (find_condition catalog.status.conditions
        condition_registry_reachable
      ≡ some c)
    × (c.status ≡ status)

take-length : {A : Type 0} (n : ℕ) (xs : List A) → length (take n xs) ≤ n
take-length zero xs = omega arith
take-length (suc n) [] = omega arith
take-length (suc n) (x ∷ xs) = omega (arith, take-length n xs)

map-length : {A B : Type 0} (f : A → B) (xs : List A) → length (map f xs) ≡ length xs
map-length f [] = refl
map-length f (x ∷ xs) = ap suc (map-length f xs)

-- What holds of the elements of a list holds of those that are taken and mapped.
taken-All :
    {A B : Type 0} (P : B → Type 0) (f : A → B) (n : ℕ) (xs : List A)
    → ((x : A) → Any (λ (y : A). x ≡ y) xs → P (f x))
    → All P (map f (take n xs))
taken-All P f zero xs h = tt
taken-All P f (suc n) [] h = tt
taken-All P f (suc n) (x ∷ xs) h = (h x (inl refl), taken-All P f n xs (λ y any. h y (inr any)))

mapped-Any :
    {A : Type 0} (f : A → String) (x : A) (xs : List A)
    → Any (λ (y : A). x ≡ y) xs
    → Any (λ (y : A). f x ≡ f y) xs
mapped-Any f x [] h = absurd h
mapped-Any f x (y ∷ xs) (inl e) = inl (ap f e)
mapped-Any f x (y ∷ xs) (inr h) = inr (mapped-Any f x xs h)

module _ {U : Type 0} (env : CatalogEnvironment U) where
  -- The registry was polled: the tag of the status is that of a listed entry than which none is newer, the recent
  -- tags are at most ten listed ones, and the registry is marked as reachable.
  pub record IsPolled (session : Session) (before after : Catalog) : Type 0 where
    pub policy : ChainVersionPolicy
    pub provided : env.adapters before.chain ≡ version_provider policy
    pub entries : List TagEntry
    pub listed : listing_of env policy session ≡ got entries
    pub latest : TagEntry
    pub is_latest : IsLatest env.text env.semver policy.tag_prefix entries latest
    pub latest_tag : after.status.latest_tag ≡ latest.tag
    pub recent :
        All
          (λ (t : TagInfo). Any (λ (e : TagEntry). t.tag ≡ e.tag) entries)
          after.status.recent_tags
    pub few : length after.status.recent_tags ≤ max_recent_tags
    pub reachable : Reachable status_true after

  -- The registry could not be polled: the tags stay as they were, and it is marked as not reachable.
  pub record IsUnpolled (before after : Catalog) : Type 0 where
    pub latest_tag : after.status.latest_tag ≡ before.status.latest_tag
    pub recent_tags : after.status.recent_tags ≡ before.status.recent_tags
    pub unreachable : Reachable status_false after

  set_reachable_condition-Reachable :
      (status : ConditionStatus) (reason message : String) (catalog : Catalog)
      → Reachable status (set_reachable_condition env.tools status reason message catalog)
  unfolding set_reachable_condition
  set_reachable_condition-Reachable status reason message catalog =
      let (c, found, is, _) = env.tools.set_status_condition_lem catalog.status.conditions (record {
        kind = condition_registry_reachable;
        status = status;
        reason = reason;
        message = message;
        last_transition_time = 0;
        observed_generation = catalog.generation;
      }) in
      (c, found, is)

  updated :
      (requeue : ℕ) (catalog : Catalog) (server server' : CatalogServer) (after : Option ℕ)
      → update_status requeue catalog server ≡ (reconciled after, server')
      → server'.stored ≡ some catalog
  unfolding update_status
  updated requeue catalog server server' after h = elim (Bool-cases server.update_fails) [
    | inl fails ↦ absurd (ground arith)
    | inr works ↦ ground arith
  ]

  -- What the server has behind an update of the status.
  abbrev Leaves : (Catalog → Type 0) → CatalogServer → Type 0
  Leaves P server = (after : Catalog) × (server.stored ≡ some after) × P after

  unreachable-Leaves :
      (requeue : ℕ) (reason message : String) (catalog : Catalog) (server server' : CatalogServer)
      (after : Option ℕ)
      → report_unreachable env requeue reason message catalog server ≡ (reconciled after, server')
      → Leaves (IsUnpolled catalog) server'
  unfolding report_unreachable set_reachable_condition
  unreachable-Leaves requeue reason message catalog server server' after h = (
    _,
    updated requeue _ server server' after h,
    record {
      latest_tag = refl;
      recent_tags = refl;
      unreachable = set_reachable_condition-Reachable status_false reason message catalog;
    },
  )

  recent_listed :
      (policy : ChainVersionPolicy) (entries : List TagEntry)
      → All
          (λ (t : TagInfo). Any (λ (e : TagEntry). t.tag ≡ e.tag) entries)
          (map (tag_info env.tools) (take max_recent_tags (sorted_entries env policy entries)))
  unfolding sorted_entries
  recent_listed policy entries =
      taken-All (λ (t : TagInfo). Any (λ (e : TagEntry). t.tag ≡ e.tag) entries)
        (tag_info env.tools) max_recent_tags _
        λ x any.
          mapped-Any (λ (e : TagEntry). e.tag) x entries (env.tools.sort_keeps _ entries x any)

  entries-IsPolled :
      (session : Session) (policy : ChainVersionPolicy) (e : TagEntry) (es : List TagEntry)
      (catalog : Catalog)
      → env.adapters catalog.chain ≡ version_provider policy
      → listing_of env policy session ≡ got (e ∷ es)
      → IsPolled session catalog (polled_catalog env policy (e ∷ es) catalog)
  unfolding polled_catalog with_tags set_reachable_condition
  entries-IsPolled session policy e es catalog provided listed = record {
    policy = policy;
    provided = provided;
    entries = e ∷ es;
    listed = listed;
    latest = find_latest_tag env.text env.semver (e ∷ es) policy;
    is_latest = find_latest_tag-IsLatest env.text env.semver e es policy;
    latest_tag = refl;
    recent = recent_listed policy (e ∷ es);
    few = rw map-length (take-length max_recent_tags (sorted_entries env policy (e ∷ es)));
    reachable =
        set_reachable_condition-Reachable status_true "RegistryPolled"
          "successfully fetched tags from registry" (with_tags env policy (e ∷ es) catalog);
  }

  -- What a run leaves: a polled catalog or one that could not be polled.
  abbrev pub IsOutcome : Session → Catalog → CatalogServer → Type 0
  IsOutcome session catalog server =
      (after : Catalog) × (server.stored ≡ some after)
      × (IsPolled session catalog after ⊎ IsUnpolled catalog after)

  unpolled :
      (session : Session) (catalog : Catalog) (server : CatalogServer)
      → Leaves (IsUnpolled catalog) server
      → IsOutcome session catalog server
  unpolled session catalog server (after, stored, u) = (after, stored, inr u)

  listing-IsOutcome :
      (session : Session) (policy : ChainVersionPolicy) (listing : Outcome (List TagEntry))
      (catalog : Catalog) (server server' : CatalogServer) (after : Option ℕ)
      → env.adapters catalog.chain ≡ version_provider policy
      → listing_of env policy session ≡ listing
      → with_listing env policy listing catalog server ≡ (reconciled after, server')
      → IsOutcome session catalog server'
  unfolding with_listing with_entries
  listing-IsOutcome session policy (failed x) catalog server server' after provided listed h =
      unpolled session catalog server' (unreachable-Leaves _ _ _ catalog server server' after h)
  listing-IsOutcome session policy (got []) catalog server server' after provided listed h =
      unpolled session catalog server' (unreachable-Leaves _ _ _ catalog server server' after h)
  listing-IsOutcome session policy (got (e ∷ es)) catalog server server' after provided listed h = (
    _,
    updated _ _ server server' after h,
    inl (entries-IsPolled session policy e es catalog provided listed),
  )

  catalog-IsOutcome :
      (session : Session) (found : AdapterFound) (catalog : Catalog)
      (server server' : CatalogServer) (after : Option ℕ)
      → env.adapters catalog.chain ≡ found
      → with_catalog env session found catalog server ≡ (reconciled after, server')
      → IsOutcome session catalog server'
  unfolding with_catalog
  catalog-IsOutcome session no_adapter catalog server server' after provided h =
      unpolled session catalog server' (unreachable-Leaves _ _ _ catalog server server' after h)
  catalog-IsOutcome session no_version_provider catalog server server' after provided h =
      unpolled session catalog server' (unreachable-Leaves _ _ _ catalog server server' after h)
  catalog-IsOutcome session (version_provider policy) catalog server server' after provided h =
      listing-IsOutcome session policy _ catalog server server' after provided refl h

  -- If Reconcile returns no error for a catalog that is on the server, then either the catalog was polled: the
  -- client's listing succeeded, the latest tag is that of a listed entry than which no listed one is newer, the
  -- recent tags are at most ten listed ones, and the registry is marked as reachable; or both are as they were,
  -- and it is marked as not reachable.
  pub reconcile_catalog-IsOutcome :
      (session : Session) (catalog : Catalog) (server server' : CatalogServer) (after : Option ℕ)
      → server.stored ≡ some catalog
      → reconcile_catalog env session server ≡ (reconciled after, server')
      → IsOutcome session catalog server'
  unfolding reconcile_catalog
  reconcile_catalog-IsOutcome session catalog server server' after stored h =
      elim (Bool-cases server.read_fails) [
        | inl fails ↦ absurd (ground arith)
        | inr reads ↦
            catalog-IsOutcome session _ catalog server server' after refl (rw (reads, stored) at h)
      ]
