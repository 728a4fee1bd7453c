-- ===== src/Tests/Clients.antt =====
-- The registry clients with a small registry.
use chainplane.Prelude.{
  ◌+◌, ◌≡◌, ◌≤◌, refl, String, true, false, none, some, List, [], ◌∷◌, str_eq, if◌then◌else◌,
}
use chainplane.Registry.Http.{Web, Session, got, do_request, request_json}
use chainplane.Registry.Formats.{Formats, Urls, TagEntry, ChainVersionPolicy, plus}
use chainplane.Registry.TagsList.{
  with_page_size, next_among, resolve_next_link, do_tags_list_request, fetch_tags_page, tags_from,
  fetch_tags_list, select_tags, matching_tags,
}
use chainplane.Registry.DockerHub.{
  is_docker_hub_throttled, asked_wait, docker_hub_retry_wait, seconds_of, authorization, judge_page,
  ask_page, fetch_page_once, fetch_page_from, fetch_page, select_page, target_of, walk_pages,
  max_pages,
}
use chainplane.Registry.Client.{
  docker_hub_client, ghcr_client, split_repository, get_ghcr_token, latest_ghcr_tags,
  latest_docker_hub_tags, first_page, latest_tags,
}
use chainplane.Registry.Client.Requests.{request_limit, wait_limit, latest_tags_bounds}
use chainplane.Registry.Client.Found.{Fits, latest_tags-Fits}

abbrev pub small_registry : Web
small_registry = record {
  builds = λ url. true;
  answer = λ n r. some (record { status_code = 200; header = λ name. ""; body = "" });
  is_done = λ n. false;
  is_done_waiting = λ n. false;
  now = λ n. 0;
}

-- Docker Hub throttles every request, and asks for a wait of 7 seconds.
abbrev throttling : Web
throttling = record small_registry {
  answer = λ n r. some (record { status_code = 429; header = λ name. "7"; body = "" });
}

abbrev pub plain_formats : Formats
plain_formats = record {
  access_token = λ body. some "token";
  docker_hub_tags = λ body. some (record { next = ""; results = [] });
  ghcr_token = λ body. some "token";
  oci_token = λ body. none;
  oci_tags = λ body. some ("v1" ∷ "latest" ∷ []);
  gar_tags = λ body. none;
  credentials = λ user secret. "";
  parse_int = λ text. if str_eq text "7" then some (plus 7) else none;
  split_commas = λ header. [];
  cut_semicolon = λ part. none;
  contains_next = λ params. false;
  trim_space = λ text. text;
  trim_angles = λ text. text;
  trim_prefix = λ text prefix. text;
  cut_slash = λ repository. some ("owner", "repo");
  compile = λ pattern. some (λ tag. str_eq tag "v1");
}

abbrev pub text_urls : Urls String
text_urls = record {
  parse = λ text. some text;
  is_abs = λ url. true;
  show = λ url. url;
  resolve_reference = λ base ref. ref;
  query = λ url name. "";
  set_query = λ url name value. url;
  query_escape = λ text. text;
}

abbrev pub policy : ChainVersionPolicy
policy = record {
  registry = "ghcr.io";
  repository = "owner/repo";
  tag_pattern = "^v";
  tag_prefix = "";
}

abbrev pub fresh : Session
fresh = record { requests = 0; waited = 0; token = "" }

abbrev pub found : List TagEntry
found = record { tag = "v1"; published_at = ""; digest = "" } ∷ []

tags_found :
    (latest_tags small_registry plain_formats text_urls ghcr_client policy 5 fresh).0 ≡ got found
unfolding do_request request_json with_page_size next_among resolve_next_link do_tags_list_request
    fetch_tags_page tags_from fetch_tags_list select_tags matching_tags split_repository
    get_ghcr_token latest_ghcr_tags latest_tags
tags_found = refl

latest_tags-Fits_example : Fits plain_formats "^v" found
latest_tags-Fits_example =
    latest_tags-Fits small_registry plain_formats text_urls ghcr_client policy 5 fresh found
      tags_found

-- The page is asked for four times, with three waits of 7 seconds.
waits_three_times :
    ((latest_tags throttling plain_formats text_urls (docker_hub_client none) policy 5 fresh).1
    ).waited
    ≡ 21000000000
unfolding do_request is_docker_hub_throttled asked_wait docker_hub_retry_wait seconds_of
    authorization judge_page ask_page fetch_page_once fetch_page_from fetch_page select_page
    target_of walk_pages max_pages split_repository first_page latest_docker_hub_tags latest_tags
waits_three_times = refl

latest_tags_bounds_example :
    let s' =
      (latest_tags throttling plain_formats text_urls (docker_hub_client none) policy 5 fresh).1 in
    (s'.requests ≤ 0 + request_limit (docker_hub_client none))
    × (s'.waited ≤ 0 + wait_limit (docker_hub_client none))
latest_tags_bounds_example =
    latest_tags_bounds throttling plain_formats text_urls (docker_hub_client none) policy 5 fresh
