-- ===== src/Registry/DockerHub.antt =====
-- internal/registry/dockerhub.go: the client of Docker Hub, with its waits for the rate limit. The
-- mutex around the token is left out; `owner/repo` is part of the URL only.
pub mod Waits
pub mod Walk
use Prim.Native.String.{◌++◌}
use chainplane.Prelude.{
  ℕ, zero, suc, ◌+◌, ◌-◌, ◌*◌, ◌/◌, ◌%◌, ◌^◌, min, max, String, Bool, true, false, Option, none,
  some, List, [], ◌∷◌, ◌++◌ as append, ◌&&◌, ◌||◌, not, ◌==◌, ltb, leb, str_eq, if◌then◌else◌,
  length,
}
use chainplane.Time.{second, positive_duration}
use chainplane.Registry.Http.{
  Web, Request, HttpResponse, Session, Outcome, got, failed, Fetch, pure, fail, ◌>>=◌, do_request,
  request_json, not_built, undecodable, no_token, bad_status, context_done, bad_pattern,
  RegistryError,
}
use chainplane.Registry.Formats.{
  Formats, Urls, TagEntry, DockerHubTag, DockerHubTagsResponse, Signed, plus, minus_suc,
  ChainVersionPolicy,
}

abbrev pub docker_hub_api_base : String
docker_hub_api_base = "https://hub.docker.com/v2/repositories"

abbrev pub docker_hub_auth_url : String
docker_hub_auth_url = "https://hub.docker.com/v2/auth/token"

abbrev pub docker_hub_max_attempts : ℕ
docker_hub_max_attempts = 4

abbrev pub docker_hub_default_wait : ℕ
docker_hub_default_wait = 10 * second

abbrev pub docker_hub_max_wait : ℕ
docker_hub_max_wait = 65 * second

abbrev pub docker_hub_page_size : ℕ
docker_hub_page_size = 100

abbrev pub docker_hub_max_pages : ℕ
docker_hub_max_pages = 20

abbrev pub docker_hub_anonymous_max_pages : ℕ
docker_hub_anonymous_max_pages = 1000 / docker_hub_page_size

-- dockerHubAuth; its token is in the session.
pub record DockerHubAuth : Type 0 where
  pub username : String
  pub secret : String

-- `time.Duration(secs) * time.Second`, a negative one as 0
unfoldable pub seconds_of : Signed → ℕ
seconds_of (plus n) = positive_duration (n * second)
seconds_of (minus_suc n) = positive_duration (2 ^ 64 - suc n * second % 2 ^ 64)

-- `time.Unix(reset, 0).Sub(now)`, a negative one as 0
unfoldable pub until_reset : Signed → ℕ → ℕ
until_reset (plus n) now = n * second - now
until_reset (minus_suc n) now = 0

-- isDockerHubThrottled
unfoldable pub is_docker_hub_throttled : HttpResponse → Bool
is_docker_hub_throttled p =
    (p.status_code == 429)
    || ((p.status_code == 403) && str_eq (p.header "X-RateLimit-Remaining") "0")

-- The wait that the headers ask for.
unfoldable pub asked_wait : Formats → HttpResponse → ℕ → ℕ
asked_wait formats p now = elim (formats.parse_int (p.header "Retry-After")) [
  | some secs ↦ seconds_of secs
  | none ↦ elim (formats.parse_int (p.header "X-RateLimit-Reset")) [
    | some reset ↦ until_reset reset now
    | none ↦ docker_hub_default_wait
  ]
]

-- dockerHubRetryWait
unfoldable pub docker_hub_retry_wait : Formats → HttpResponse → ℕ → ℕ
docker_hub_retry_wait formats p now =
    min (max (asked_wait formats p now) second) docker_hub_max_wait

module _ (web : Web) (formats : Formats) where
  -- `a.token = result.AccessToken`
  abbrev pub keep_token : String → Fetch String
  keep_token token s = (got token, record s { token = token })

  -- The part of bearer that follows the decoding.
  abbrev pub accept_token : String → Fetch String
  accept_token token s = if str_eq token "" then (failed no_token, s) else keep_token token s

  abbrev pub auth_request : DockerHubAuth → Request
  auth_request a = record {
    method = "POST";
    url = docker_hub_auth_url;
    headers = ("Content-Type", "application/json") ∷ [];
    body = formats.credentials a.username a.secret;
  }

  -- The part of bearer that follows the look at the cached token.
  unfoldable pub exchange : DockerHubAuth → Fetch String
  exchange a = do token ← request_json web formats.access_token (auth_request a); accept_token token

  -- bearer
  unfoldable pub bearer : DockerHubAuth → Fetch String
  bearer a s = if not (str_eq s.token "") then (got s.token, s) else exchange a s

  -- The Authorization header, if there are credentials.
  unfoldable pub authorization : Option DockerHubAuth → Fetch (List (String × String))
  authorization none = pure []
  authorization (some a) = do token ← bearer a; pure (("Authorization", "Bearer " ++ token) ∷ [])

  -- A page, or an error, and in both cases the wait after which to try again, 0 for none.
  abbrev pub Attempt : Type 0
  Attempt = Outcome DockerHubTagsResponse × ℕ

  -- The result of fetchPageOnce for an answer.
  unfoldable pub judge_page : HttpResponse → ℕ → Attempt
  judge_page p now =
      if not (p.status_code == 200)
      then (
        failed (bad_status p.status_code),
        if is_docker_hub_throttled p then docker_hub_retry_wait formats p now else 0,
      )
      else elim (formats.docker_hub_tags p.body) [
        | none ↦ (failed undecodable, 0)
        | some page ↦ (got page, 0)
      ]

  -- The part of fetchPageOnce that follows the answer, at the time after it.
  abbrev pub judged : HttpResponse → Fetch Attempt
  judged p s = (got (judge_page p (web.now s.requests)), s)

  abbrev pub page_request : String → List (String × String) → Request
  page_request page_url headers = record {
    method = "GET";
    url = page_url;
    headers = ("Accept", "application/json") ∷ headers;
    body = "";
  }

  -- The request for a page, and the look at the answer.
  unfoldable pub ask_page : String → List (String × String) → Fetch Attempt
  ask_page page_url headers = do p ← do_request web (page_request page_url headers); judged p

  -- An error that ends the attempts.
  abbrev pub as_attempt : Outcome Attempt × Session → Attempt × Session
  as_attempt (got a, s) = (a, s)
  as_attempt (failed e, s) = ((failed e, 0), s)

  -- fetchPageOnce
  unfoldable pub fetch_page_once : Option DockerHubAuth → String → Session → Attempt × Session
  fetch_page_once auth page_url s =
      if not (web.builds page_url)
      then ((failed not_built, 0), s)
      else as_attempt ((authorization auth >>= ask_page page_url) s)

  -- `case <-timer.C`
  abbrev pub slept : ℕ → Session → Session
  slept wait s = record s { waited = s.waited + wait }

  -- The loop of fetchPage, with the number of attempts that are left behind this one.
  unfoldable pub fetch_page_from : ℕ → Option DockerHubAuth → String → Fetch DockerHubTagsResponse
  fetch_page_from zero auth page_url s =
      let ((result, wait), s') = fetch_page_once auth page_url s in (result, s')
  fetch_page_from (suc left) auth page_url s =
      let ((result, wait), s') = fetch_page_once auth page_url s in
      let rest = fetch_page_from left auth page_url (slept wait s') in
      if wait == 0
      then (result, s')
      else if web.is_done_waiting s'.requests
      then (failed context_done, s')
      else rest

  -- fetchPage
  unfoldable pub fetch_page : Option DockerHubAuth → String → Fetch DockerHubTagsResponse
  fetch_page = fetch_page_from (docker_hub_max_attempts - 1)

-- resolveDockerHubNext
unfoldable pub resolve_docker_hub_next : {U : Type 0} → Urls U → String → String → String
resolve_docker_hub_next urls current next = if str_eq next "" then "" else (elim (urls.parse next) [
  | none ↦ ""
  | some next_url ↦
      if urls.is_abs next_url then urls.show next_url else (elim (urls.parse current) [
        | none ↦ ""
        | some base ↦ urls.show (urls.resolve_reference base next_url)
      ])
])

-- The loop of LatestTags over the tags of a page.
unfoldable pub select_page : (String → Bool) → List DockerHubTag → List TagEntry
select_page matches [] = []
select_page matches (t ∷ ts) =
    let rest = select_page matches ts in
    if not (matches t.name)
    then rest
    else record { tag = t.name; published_at = t.tag_last_pushed; digest = "" } ∷ rest

-- The surplus to collect: `maxResults * 4` on 64 bits with a sign, unless that is less.
unfoldable pub target_of : ℕ → ℕ
target_of max_results =
    let surplus = max_results * 4 % 2 ^ 64 in
    if ltb surplus (2 ^ 63) && leb max_results surplus then surplus else max_results

module _ (web : Web) (formats : Formats) {U : Type 0} (urls : Urls U) (auth : Option DockerHubAuth)
    (matches : String → Bool) (target : ℕ) where
  -- `ctx.Err()`
  abbrev check_context : Fetch (Unit {0})
  check_context s = if web.is_done s.requests then (failed context_done, s) else (got tt, s)

  -- The loop of LatestTags over the pages, with the number of pages that are left.
  unfoldable pub walk_pages : ℕ → String → List TagEntry → Fetch (List TagEntry)
  walk_pages zero next entries = pure entries
  walk_pages (suc left) next entries =
      let rest = walk_pages left in
      if str_eq next "" then pure entries else do
        _ ← check_context
        page ← fetch_page web formats auth next
        let collected = append entries (select_page matches page.results)
        if ltb 0 target && leb target (length collected)
            then pure collected
            else rest (resolve_docker_hub_next urls next page.next) collected

-- `maxPages`
unfoldable pub max_pages : Option DockerHubAuth → ℕ
max_pages none = docker_hub_anonymous_max_pages
max_pages (some _) = docker_hub_max_pages
