-- ===== src/Registry/Client/Found.antt =====
-- The tags that a listing returns match the pattern of the policy.
use Prim.Native.String.{◌++◌}
use chainplane.Prelude.{
  ℕ, str_eq, if◌then◌else◌, ◌≡◌, refl, subst, String, Bool, true, Option, none, some, List, [], All,
}
use chainplane.Registry.Http.{Web, Session, Outcome, got, failed, Fetch, proceed, ◌>>=◌}
use chainplane.Registry.Formats.{Formats, Urls, TagEntry, ChainVersionPolicy}
use chainplane.Registry.TagsList.{with_pattern, select_with, matching_tags, fetch_tags_list}
use chainplane.Registry.TagsList.Pages.{select_tags-Matching}
use chainplane.Registry.DockerHub.{DockerHubAuth, walk_pages, max_pages, target_of}
use chainplane.Registry.DockerHub.Walk.{Kept, walk_pages-Walked}
use chainplane.Registry.Client.{
  Client, docker_hub_client, ghcr_client, oci_client, split_repository, gar_host, first_page,
  fetch_gar_tags, fetch_standard_tags, get_ghcr_token, latest_oci_tags, latest_ghcr_tags,
  latest_docker_hub_tags, latest_tags,
}

-- The pattern compiles, and every entry matches it.
abbrev pub Fits : Formats → String → List TagEntry → Type 0
Fits formats pattern entries =
    (matches : String → Bool) × (formats.compile pattern ≡ some matches)
    × All (λ e. matches e.tag ≡ true) entries

abbrev FitsOutcome : Formats → String → Outcome (List TagEntry) → Type 0
FitsOutcome formats pattern (got entries) = Fits formats pattern entries
FitsOutcome formats pattern (failed _) = Unit {0}

module _ (formats : Formats) (pattern : String) where
  matching_tags-Fits :
      (tags : List String) (s : Session)
      → FitsOutcome formats pattern (matching_tags formats tags pattern s).0
  unfolding matching_tags
  matching_tags-Fits tags s = go (formats.compile pattern) refl
    where
      go :
          (compiled : Option (String → Bool))
          → formats.compile pattern ≡ compiled
          → FitsOutcome formats pattern (select_with compiled tags s).0
      go none h = tt
      go (some matches) h = (matches, h, select_tags-Matching matches tags)

  bind-Fits :
      {A : Type 0} (m : Fetch A) (f : A → Fetch (List TagEntry)) (s : Session)
      → ((a : A) (v : Session) → FitsOutcome formats pattern (f a v).0)
      → FitsOutcome formats pattern ((m >>= f) s).0
  bind-Fits {A = A} m f s h = go (m s)
    where
      go : (x : Outcome A × Session) → FitsOutcome formats pattern (proceed f x).0
      go (got a, v) = h a v
      go (failed e, v) = tt

module _ (web : Web) (formats : Formats) {U : Type 0} (urls : Urls U) where
  docker_hub-Fits :
      (auth : Option DockerHubAuth) (policy : ChainVersionPolicy) (max_results : ℕ) (s : Session)
      → FitsOutcome formats policy.tag_pattern
          (latest_docker_hub_tags web formats urls auth policy max_results s).0
  unfolding latest_docker_hub_tags
  docker_hub-Fits auth policy max_results s = go (formats.compile policy.tag_pattern) refl
    where
      walked : (String → Bool) → Fetch (List TagEntry)
      walked matches =
          walk_pages web formats urls auth matches (target_of max_results) (max_pages auth)
            (first_page web formats urls (split_repository formats policy.repository).0
              (split_repository formats policy.repository).1)
            []

      fits :
          (matches : String → Bool)
          → formats.compile policy.tag_pattern ≡ some matches
          → (x : Outcome (List TagEntry)) → Kept matches x
          → FitsOutcome formats policy.tag_pattern x
      fits matches h (got entries) k = (matches, h, k)
      fits matches h (failed _) k = tt

      go :
          (compiled : Option (String → Bool))
          → formats.compile policy.tag_pattern ≡ compiled
          → FitsOutcome formats policy.tag_pattern (with_pattern compiled walked s).0
      go none h = tt
      go (some matches) h = fits matches h _ (
          (walk_pages-Walked web formats urls auth matches (target_of max_results) (max_pages auth)
            _ [] s tt).matched)

  latest_tags-FitsOutcome :
      (client : Client) (policy : ChainVersionPolicy) (max_results : ℕ) (s : Session)
      → FitsOutcome formats policy.tag_pattern
          (latest_tags web formats urls client policy max_results s).0
  unfolding latest_tags latest_ghcr_tags latest_oci_tags
  latest_tags-FitsOutcome (docker_hub_client auth) policy max_results s =
      docker_hub-Fits auth policy max_results s
  latest_tags-FitsOutcome ghcr_client policy max_results s =
      bind-Fits formats policy.tag_pattern (get_ghcr_token web formats _ _) _ s λ token v.
        bind-Fits formats policy.tag_pattern (fetch_tags_list web formats urls _ token) _ v
          λ tags u. matching_tags-Fits formats policy.tag_pattern tags u
  latest_tags-FitsOutcome (oci_client host) policy max_results s =
      let repo = formats.trim_prefix policy.repository (host ++ "/") in
      bind-Fits formats policy.tag_pattern
        (if str_eq host gar_host
          then fetch_gar_tags web formats host repo
          else fetch_standard_tags web formats urls host repo)
        (λ tags. matching_tags formats tags policy.tag_pattern) s
        λ tags v. matching_tags-Fits formats policy.tag_pattern tags v

  -- If LatestTags of whichever client succeeds, the policy's pattern compiles, and the tag of every entry
  -- matches it.
  pub latest_tags-Fits :
      (client : Client) (policy : ChainVersionPolicy) (max_results : ℕ) (s : Session)
      (entries : List TagEntry)
      → (latest_tags web formats urls client policy max_results s).0 ≡ got entries
      → Fits formats policy.tag_pattern entries
  latest_tags-Fits client policy max_results s entries h =
      subst (FitsOutcome formats policy.tag_pattern) h
        (latest_tags-FitsOutcome client policy max_results s)
