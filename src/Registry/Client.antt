-- ===== src/Registry/Client.antt =====
-- internal/registry/client.go, ghcr.go and oci.go: the choice of the client of a registry, and the
-- clients of GHCR and of the other OCI registries. LatestTags of the interface Client is latest_tags.
pub mod Requests
pub mod Found
use Prim.Native.String.{◌++◌}
use chainplane.Prelude.{
  ℕ, String, Bool, true, false, Option, none, some, List, [], ◌∷◌, ◌++◌ as append, ◌||◌, not,
  str_eq, if◌then◌else◌,
}
use chainplane.Registry.Http.{
  Web, Request, Outcome, got, failed, Fetch, pure, fail, ◌>>=◌, request_json, unsupported_registry,
  bad_pattern,
}
use chainplane.Registry.Formats.{Formats, Urls, TagEntry, ChainVersionPolicy, OciTokenResponse}
use chainplane.Registry.TagsList.{with_pattern, fetch_tags_list, matching_tags}
use chainplane.Registry.DockerHub.{
  DockerHubAuth, docker_hub_api_base, max_pages, target_of, walk_pages,
}

pub data Client : Type 0 where
  docker_hub_client : (auth : Option DockerHubAuth) → Client
  ghcr_client : Client
  oci_client : (host : String) → Client

-- NewClient, with defaultDockerHubAuth as an argument
unfoldable pub new_client : Option DockerHubAuth → String → Outcome Client
new_client default_auth reg =
    if str_eq reg "docker.io" || str_eq reg ""
    then got (docker_hub_client default_auth)
    else if str_eq reg "ghcr.io"
    then got ghcr_client
    else if str_eq reg "us-docker.pkg.dev" || str_eq reg "public.ecr.aws"
    then got (oci_client reg)
    else failed (unsupported_registry reg)

-- splitRepository
unfoldable pub split_repository : Formats → String → String × String
split_repository formats repository = elim (formats.cut_slash repository) [
  | some parts ↦ parts
  | none ↦ ("library", repository)
]

abbrev pub gar_host : String
gar_host = "us-docker.pkg.dev"

abbrev get_request : String → Request
get_request url = record { method = "GET"; url = url; headers = []; body = "" }

module _ (web : Web) (formats : Formats) where
  -- getToken of ghcrClient
  unfoldable pub get_ghcr_token : String → String → Fetch String
  get_ghcr_token owner repo = request_json web formats.ghcr_token (
      get_request (
        "https://ghcr.io/token?service=ghcr.io&scope=repository:" ++ owner ++ "/" ++ repo
        ++ ":pull"))

  -- The loop of fetchGARTags over the manifest, whose order Go leaves open.
  unfoldable pub flatten : List (List String) → List String
  flatten [] = []
  flatten (tags ∷ manifest) = append tags (flatten manifest)

  -- fetchGARTags
  unfoldable pub fetch_gar_tags : String → String → Fetch (List String)
  fetch_gar_tags host repo = do
    manifest ← request_json web formats.gar_tags (record {
      method = "GET";
      url = "https://" ++ host ++ "/v2/" ++ repo ++ "/tags/list";
      headers = ("Accept", "application/json") ∷ [];
      body = "";
    })
    pure (flatten manifest)

  -- The choice of the token of the answer.
  abbrev pub oci_token_of : OciTokenResponse → Fetch String
  oci_token_of t = pure (if not (str_eq t.token "") then t.token else t.access_token)

  module _ {U : Type 0} (urls : Urls U) where
    -- getToken of ociClient
    unfoldable pub get_oci_token : String → String → Fetch String
    get_oci_token host repo = do
      t ← request_json web formats.oci_token (
          get_request (
            "https://"
            ++ host
            ++ "/token?scope=repository:"
            ++ urls.query_escape repo
            ++ ":pull&service="
            ++ host))
      oci_token_of t

    -- fetchStandardTags
    unfoldable pub fetch_standard_tags : String → String → Fetch (List String)
    fetch_standard_tags host repo = do
      token ← get_oci_token host repo
      fetch_tags_list web formats urls ("https://" ++ host ++ "/v2/" ++ repo ++ "/tags/list") token

    -- LatestTags of ociClient
    unfoldable pub latest_oci_tags : String → ChainVersionPolicy → Fetch (List TagEntry)
    latest_oci_tags host policy = do
      let repo = formats.trim_prefix policy.repository (host ++ "/")
      tags ←
          if str_eq host gar_host then fetch_gar_tags host repo else fetch_standard_tags host repo
      matching_tags formats tags policy.tag_pattern

    -- LatestTags of ghcrClient
    unfoldable pub latest_ghcr_tags : ChainVersionPolicy → Fetch (List TagEntry)
    latest_ghcr_tags policy = do
      let (owner, repo) = split_repository formats policy.repository
      token ← get_ghcr_token owner repo
      tags ←
          fetch_tags_list web formats urls
            ("https://ghcr.io/v2/" ++ owner ++ "/" ++ repo ++ "/tags/list") token
      matching_tags formats tags policy.tag_pattern

    -- The URL of the first page.
    unfoldable pub first_page : String → String → String
    first_page owner repo =
        docker_hub_api_base ++ "/" ++ owner ++ "/" ++ repo
        ++ "/tags?page_size=100&ordering=last_updated"

    -- LatestTags of dockerHubClient
    unfoldable pub latest_docker_hub_tags :
        Option DockerHubAuth → ChainVersionPolicy → ℕ → Fetch (List TagEntry)
    latest_docker_hub_tags auth policy max_results =
        let (owner, repo) = split_repository formats policy.repository in
        with_pattern (formats.compile policy.tag_pattern) λ matches.
          walk_pages web formats urls auth matches (target_of max_results) (max_pages auth)
            (first_page owner repo) []

    -- LatestTags
    unfoldable pub latest_tags : Client → ChainVersionPolicy → ℕ → Fetch (List TagEntry)
    latest_tags (docker_hub_client auth) policy max_results =
        latest_docker_hub_tags auth policy max_results
    latest_tags ghcr_client policy max_results = latest_ghcr_tags policy
    latest_tags (oci_client host) policy max_results = latest_oci_tags host policy
