-- ===== src/Registry/DockerHub/Waits.antt =====
-- How many requests the client of Docker Hub sends, and how long it waits for the rate limit. The
-- request for a token counts beforehand, while there is no token.
use Prim.Native.String.{◌++◌}
use chainplane.Prelude.{
  ℕ, zero, suc, ◌+◌, ◌*◌, ◌≡◌, ◌≤◌, ◌⊎◌, refl, inl, inr, String, Option, none, some, List, [], ◌∷◌,
  arith, eq_iff, ◌==◌, str_eq, if◌then◌else◌, Bool-cases,
}
use chainplane.Time.{second}
use chainplane.Registry.Http.{
  Web, Session, HttpResponse, RegistryError, no_token, context_done, proceed, Outcome, got, failed,
  pure, ◌>>=◌, do_request, request_json,
}
use chainplane.Registry.Http.Spending.{Spends, do_request-Spends, request_json-Spends}
use chainplane.Registry.Formats.{Formats}
use chainplane.Registry.DockerHub.{
  DockerHubAuth, docker_hub_retry_wait, Attempt, as_attempt, judged, slept, accept_token,
  auth_request, exchange, bearer, authorization, judge_page, ask_page, fetch_page_once,
  fetch_page_from, fetch_page, docker_hub_max_wait,
}

-- 1 while a token is still to be asked for.
abbrev pub pending : String → ℕ
pending token = if str_eq token "" then 1 else 0

-- At most so many requests are sent, beside the one for the token, and at most so long is waited.
pub record Uses (requests waited : ℕ) (s s' : Session) : Type 0 where
  pub sent : s'.requests + pending s'.token ≤ s.requests + pending s.token + requests
  pub slept : s'.waited ≤ s.waited + waited

pub retry_wait_bounds :
    (formats : Formats) (p : HttpResponse) (now : ℕ)
    → (second ≤ docker_hub_retry_wait formats p now)
      × (docker_hub_retry_wait formats p now ≤ docker_hub_max_wait)
unfolding docker_hub_retry_wait
retry_wait_bounds formats p now = (omega arith, omega arith)

module _ (web : Web) (formats : Formats) where
  -- A token that is asked for uses the request that was counted for it, unless that fails.
  exchange-Uses :
      (a : DockerHubAuth) (s : Session)
      → s.token ≡ ""
      → ((t : String) × ((exchange web formats a s).0 ≡ got t)
          × Uses 0 0 s (exchange web formats a s).1)
        ⊎ ((e : RegistryError) × ((exchange web formats a s).0 ≡ failed e)
            × Uses 1 0 s (exchange web formats a s).1)
  unfolding exchange
  exchange-Uses a s none_yet =
      go (request_json web formats.access_token (auth_request web formats a) s)
        (request_json-Spends web formats.access_token _ s)
    where
      go :
          (x : Outcome String × Session)
          → Spends 1 0 s x.1
          → ((t : String) × ((proceed (accept_token web formats) x).0 ≡ got t)
              × Uses 0 0 s (proceed (accept_token web formats) x).1)
            ⊎ ((e : RegistryError) × ((proceed (accept_token web formats) x).0 ≡ failed e)
                × Uses 1 0 s (proceed (accept_token web formats) x).1)
      go (got t, v) h =
          let one : pending s.token ≡ 1 = ground (arith, eq_iff s.token "") in
          elim (Bool-cases (str_eq t "")) [
            | inl empty ↦
                inr (no_token, ground arith, record { sent = ground arith; slept = ground arith })
            | inr full ↦ inl (t, ground arith, record { sent = ground arith; slept = ground arith })
          ]
      go (failed e, v) h = inr (e, refl, record { sent = ground arith; slept = ground arith })

  -- The run of bearer either has a token, or fails after one more request.
  bearer-Uses :
      (a : DockerHubAuth) (s : Session)
      → ((t : String) × ((bearer web formats a s).0 ≡ got t)
          × Uses 0 0 s (bearer web formats a s).1)
        ⊎ ((e : RegistryError) × ((bearer web formats a s).0 ≡ failed e)
            × Uses 1 0 s (bearer web formats a s).1)
  unfolding bearer
  bearer-Uses a s = elim (Bool-cases (str_eq s.token "")) [
    | inl empty ↦
        let asked = exchange-Uses a s (ground (arith, eq_iff s.token "")) in rw empty asked
    | inr full ↦ rw full (inl (s.token, refl, record { sent = omega arith; slept = omega arith }))
  ]

  -- The sessions and the wait after an attempt.
  abbrev Tried : Session → Attempt web formats × Session → Type 0
  Tried s x = Uses 1 0 s x.1 × (x.0.1 ≤ docker_hub_max_wait)

  judge_page-wait :
      (p : HttpResponse) (now : ℕ) → (judge_page web formats p now).1 ≤ docker_hub_max_wait
  unfolding judge_page
  judge_page-wait p now = ground (arith, retry_wait_bounds formats p now)

  ask_page-Tried :
      (url : String) (headers : List (String × String)) (s s' : Session)
      → Uses 0 0 s s'
      → Tried s (as_attempt web formats (ask_page web formats url headers s'))
  unfolding ask_page
  ask_page-Tried url headers s s' before = go (do_request web _ s') (do_request-Spends web _ s')
    where
      go :
          (x : Outcome HttpResponse × Session)
          → Spends 1 0 s' x.1
          → Tried s (as_attempt web formats (proceed (judged web formats) x))
      go (got p, v) h = (record { sent = ground arith; slept = ground arith }, judge_page-wait p _)
      go (failed e, v) h = (record { sent = ground arith; slept = ground arith }, omega arith)

  -- The part of fetchPageOnce that follows the look at the URL.
  built-Tried :
      (auth : Option DockerHubAuth) (url : String) (s : Session)
      → Tried s
          (as_attempt web formats ((authorization web formats auth >>= ask_page web formats url) s))
  unfolding authorization
  built-Tried none url s =
      ask_page-Tried url [] s s (record { sent = omega arith; slept = omega arith })
  built-Tried (some a) url s = go (bearer web formats a s) (bearer-Uses a s)
    where
      go :
          (x : Outcome String × Session)
          → ((t : String) × (x.0 ≡ got t) × Uses 0 0 s x.1)
            ⊎ ((e : RegistryError) × (x.0 ≡ failed e) × Uses 1 0 s x.1)
          → Tried s (
              as_attempt web formats (
                proceed
                  (ask_page web formats url)
                  (proceed (λ token. pure (("Authorization", "Bearer " ++ token) ∷ [])) x)))
      go (got t, v) (inl (_, _, h)) = ask_page-Tried url _ s v h
      go (got t, v) (inr (e, h, _)) = ground arith
      go (failed e, v) (inl (t, h, _)) = ground arith
      go (failed e, v) (inr (_, _, h)) = (h, omega arith)

  fetch_page_once-Tried :
      (auth : Option DockerHubAuth) (url : String) (s : Session)
      → Tried s (fetch_page_once web formats auth url s)
  unfolding fetch_page_once
  fetch_page_once-Tried auth url s = elim (Bool-cases (web.builds url)) [
    | inl builds ↦ rw builds (built-Tried auth url s)
    | inr no_url ↦ rw no_url (record { sent = omega arith; slept = omega arith }, omega arith)
  ]

  fetch_page_from-Uses :
      (left : ℕ) (auth : Option DockerHubAuth) (url : String) (s : Session)
      → Uses
          (suc left)
          (left * docker_hub_max_wait)
          s
          (fetch_page_from web formats left auth url s).1
  unfolding fetch_page_from
  fetch_page_from-Uses zero auth url s =
      let (h, _) = fetch_page_once-Tried auth url s in
      record { sent = ground arith; slept = ground arith }
  fetch_page_from-Uses (suc left) auth url s =
      go (fetch_page_once web formats auth url s) (fetch_page_once-Tried auth url s)
        λ s'. fetch_page_from-Uses left auth url s'
    where
      go :
          (x : Attempt web formats × Session)
          → Tried s x
          → ((s' : Session)
              → Uses
                  (suc left)
                  (left * docker_hub_max_wait)
                  s'
                  (fetch_page_from web formats left auth url s').1)
          → Uses
              (suc (suc left))
              (suc left * docker_hub_max_wait)
              s
              (if x.0.1 == 0
                then (x.0.0, x.1)
                else if web.is_done_waiting x.1.requests
                then (failed context_done, x.1)
                else fetch_page_from web formats left auth url (slept web formats x.0.1 x.1)).1
      go ((r, wait), v) (h, short) later =
          let next = later (slept web formats wait v) in
          record { sent = ground arith; slept = ground arith }

  pub fetch_page-Uses :
      (auth : Option DockerHubAuth) (url : String) (s : Session)
      → Uses 4 (3 * docker_hub_max_wait) s (fetch_page web formats auth url s).1
  unfolding fetch_page
  fetch_page-Uses auth url s = fetch_page_from-Uses 3 auth url s
