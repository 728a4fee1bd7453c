-- ===== src/Registry/Client/Requests.antt =====
-- How many requests a listing of tags sends, and how long it waits.
use Prim.Native.String.{◌++◌}
use chainplane.Prelude.{
  ℕ, ◌+◌, ◌*◌, ◌≤◌, String, Option, inl, inr, Option-cases, List, [], arith, str_eq, if◌then◌else◌,
}
use chainplane.Registry.Http.{Web, Session, Fetch, pure, ◌>>=◌, request_json}
use chainplane.Registry.Http.Spending.{
  Spends, stays-Spends, widen-Spends, if-Spends, bind-Spends, request_json-Spends,
}
use chainplane.Registry.Formats.{Formats, Urls, ChainVersionPolicy}
use chainplane.Registry.TagsList.{fetch_tags_list, matching_tags, tags_list_max_pages}
use chainplane.Registry.TagsList.Pages.{fetch_tags_list-Spends}
use chainplane.Registry.DockerHub.{
  DockerHubAuth, docker_hub_max_attempts, docker_hub_max_wait, max_pages, target_of,
}
use chainplane.Registry.DockerHub.Waits.{Uses}
use chainplane.Registry.DockerHub.Walk.{stays-Uses, walk_pages-Walked}
use chainplane.Registry.Client.{
  Client, docker_hub_client, ghcr_client, oci_client, gar_host, get_ghcr_token, fetch_gar_tags,
  flatten, oci_token_of, get_oci_token, fetch_standard_tags, latest_oci_tags, latest_ghcr_tags,
  latest_docker_hub_tags, latest_tags,
}

-- The most requests that a client sends: up to four for each page of Docker Hub, and one for a token.
abbrev pub request_limit : Client → ℕ
request_limit (docker_hub_client auth) = max_pages auth * docker_hub_max_attempts + 1
request_limit ghcr_client = tags_list_max_pages + 1
request_limit (oci_client host) = tags_list_max_pages + 1

-- The longest that a client waits: ahead of each further attempt for a page of Docker Hub.
abbrev pub wait_limit : Client → ℕ
wait_limit (docker_hub_client auth) = max_pages auth * (3 * docker_hub_max_wait)
wait_limit ghcr_client = 0
wait_limit (oci_client host) = 0

module _ (web : Web) (formats : Formats) {U : Type 0} (urls : Urls U) where
  matching_tags-Spends :
      (tags : List String) (pattern : String) (s : Session)
      → Spends 0 0 s (matching_tags formats tags pattern s).1
  unfolding matching_tags
  matching_tags-Spends tags pattern s = record {
    sent = ground arith;
    slept = ground arith;
    kept = ground arith;
  }

  -- A listing that is filtered at the end.
  filtered-Spends :
      (m : Fetch (List String)) (pattern : String) (n : ℕ) (s : Session)
      → Spends n 0 s (m s).1
      → Spends n 0 s ((m >>= λ tags. matching_tags formats tags pattern) s).1
  filtered-Spends m pattern n s h = widen-Spends (omega arith) (omega arith) (
      bind-Spends m (λ tags. matching_tags formats tags pattern) n 0 0 0 s h
        λ tags v. matching_tags-Spends tags pattern v)

  gar-Spends :
      (host repo : String) (s : Session) → Spends 1 0 s (fetch_gar_tags web formats host repo s).1
  unfolding fetch_gar_tags
  gar-Spends host repo s =
      bind-Spends (request_json web formats.gar_tags _)
        (λ manifest. pure (flatten web formats manifest)) 1 0 0 0 s
        (request_json-Spends web formats.gar_tags _ s) λ manifest v. stays-Spends v

  oci_token-Spends :
      (host repo : String) (s : Session)
      → Spends 1 0 s (get_oci_token web formats urls host repo s).1
  unfolding get_oci_token
  oci_token-Spends host repo s =
      bind-Spends (request_json web formats.oci_token _) (oci_token_of web formats) 1 0 0 0 s
        (request_json-Spends web formats.oci_token _ s) λ t v. stays-Spends v

  standard-Spends :
      (host repo : String) (s : Session)
      → Spends 21 0 s (fetch_standard_tags web formats urls host repo s).1
  unfolding fetch_standard_tags
  standard-Spends host repo s =
      bind-Spends (get_oci_token web formats urls host repo) (fetch_tags_list web formats urls _) 1
        20 0 0 s (oci_token-Spends host repo s)
        λ token v. fetch_tags_list-Spends web formats urls _ token v

  oci-Spends :
      (host : String) (policy : ChainVersionPolicy) (s : Session)
      → Spends 21 0 s (latest_oci_tags web formats urls host policy s).1
  unfolding latest_oci_tags
  oci-Spends host policy s =
      let repo = formats.trim_prefix policy.repository (host ++ "/") in
      let gar = fetch_gar_tags web formats host repo in
      let standard = fetch_standard_tags web formats urls host repo in
      filtered-Spends (if str_eq host gar_host then gar else standard) policy.tag_pattern 21 s (
        if-Spends (str_eq host gar_host) gar standard s
          (widen-Spends (omega arith) (omega arith) (gar-Spends host repo s))
          (standard-Spends host repo s))

  ghcr-Spends :
      (policy : ChainVersionPolicy) (s : Session)
      → Spends 21 0 s (latest_ghcr_tags web formats urls policy s).1
  unfolding latest_ghcr_tags get_ghcr_token
  ghcr-Spends policy s =
      bind-Spends (request_json web formats.ghcr_token _) _ 1 20 0 0 s
        (request_json-Spends web formats.ghcr_token _ s)
        λ token v.
          filtered-Spends (fetch_tags_list web formats urls _ token) policy.tag_pattern 20 v
            (fetch_tags_list-Spends web formats urls _ token v)

  docker_hub_bounds :
      (auth : Option DockerHubAuth) (policy : ChainVersionPolicy) (max_results : ℕ) (s : Session)
      → Uses
          (max_pages auth * 4)
          (max_pages auth * (3 * docker_hub_max_wait))
          s
          (latest_docker_hub_tags web formats urls auth policy max_results s).1
  unfolding latest_docker_hub_tags
  docker_hub_bounds auth policy max_results s =
      elim (Option-cases (formats.compile policy.tag_pattern)) [
        | inl bad ↦ rw bad (stays-Uses s)
        | inr (matches, good) ↦ rw good (
            (walk_pages-Walked web formats urls auth matches (target_of max_results)
              (max_pages auth) _ [] s tt).uses)
      ]

  -- Whatever the registry answers, a listing of tags ends after at most the client's number of requests
  -- and its waits: with Docker Hub up to four requests for each of 20 pages, or 10 without a login, and 65
  -- seconds ahead of each further attempt, and with the other registries 20 pages and no wait; one more
  -- request is for a token.
  pub latest_tags_bounds :
      (client : Client) (policy : ChainVersionPolicy) (max_results : ℕ) (s : Session)
      → let s' = (latest_tags web formats urls client policy max_results s).1 in
        (s'.requests ≤ s.requests + request_limit client)
        × (s'.waited ≤ s.waited + wait_limit client)
  unfolding latest_tags
  latest_tags_bounds (docker_hub_client auth) policy max_results s =
      let h = docker_hub_bounds auth policy max_results s in ground arith
  latest_tags_bounds ghcr_client policy max_results s = let h = ghcr-Spends policy s in ground arith
  latest_tags_bounds (oci_client host) policy max_results s =
      let h = oci-Spends host policy s in ground arith
