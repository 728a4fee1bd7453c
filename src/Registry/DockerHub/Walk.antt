-- ===== src/Registry/DockerHub/Walk.antt =====
-- The walk over the pages of Docker Hub: its requests and waits, and the tags it collects.
use chainplane.Prelude.{
  ℕ, zero, suc, ◌*◌, inl, inr, String, Bool, true, false, Option, List, [], ◌∷◌, ◌++◌, arith, ltb,
  leb, str_eq, if◌then◌else◌, ◌&&◌, length, Bool-cases,
}
use chainplane.Registry.Http.{Web, Session, Fetch, Outcome, got, failed, pure, proceed}
use chainplane.Registry.Formats.{Formats, Urls, TagEntry, DockerHubTag, DockerHubTagsResponse}
use chainplane.Registry.TagsList.Pages.{Matching}
use chainplane.Registry.DockerHub.{
  DockerHubAuth, docker_hub_max_wait, fetch_page, select_page, walk_pages, resolve_docker_hub_next,
}
use chainplane.Registry.DockerHub.Waits.{Uses, fetch_page-Uses}

pub stays-Uses : {n t : ℕ} (s : Session) → Uses n t s s
stays-Uses s = record { sent = omega arith; slept = omega arith }

append-Matching :
    (matches : String → Bool) (xs ys : List TagEntry)
    → Matching matches xs
    → Matching matches ys
    → Matching matches (xs ++ ys)
append-Matching matches [] ys h k = k
append-Matching matches (x ∷ xs) ys (h, hs) k = (h, append-Matching matches xs ys hs k)

select_page-Matching :
    (matches : String → Bool) (ts : List DockerHubTag) → Matching matches (select_page matches ts)
unfolding select_page
select_page-Matching matches [] = tt
select_page-Matching matches (t ∷ ts) =
    let rest = select_page-Matching matches ts in
    elim (Bool-cases (matches t.name)) [
      | inl kept ↦ rw kept (kept, rest)
      | inr dropped ↦ rw dropped rest
    ]

-- The entries of a listing that succeeds match.
abbrev pub Kept : (String → Bool) → Outcome (List TagEntry) → Type 0
Kept matches (got entries) = Matching matches entries
Kept matches (failed _) = Unit {0}

module _ (web : Web) (formats : Formats) {U : Type 0} (urls : Urls U) (auth : Option DockerHubAuth)
    (matches : String → Bool) (target : ℕ) where
  -- What a walk over so many pages leaves behind.
  pub record Walked (pages : ℕ) (s : Session) (x : Outcome (List TagEntry) × Session) : Type 0 where
    pub uses : Uses (pages * 4) (pages * (3 * docker_hub_max_wait)) s x.1
    pub matched : Kept matches x.0

  if-Walked :
      {pages : ℕ} {s : Session} (b : Bool) (x y : Outcome (List TagEntry) × Session)
      → Walked pages s x
      → Walked pages s y
      → Walked pages s (if b then x else y)
  if-Walked true x y h k = h
  if-Walked false x y h k = k

  -- The rest of the walk behind a page.
  abbrev go_on : ℕ → String → List TagEntry → DockerHubTagsResponse → Fetch (List TagEntry)
  go_on left next entries page =
      let collected = entries ++ select_page matches page.results in
      if ltb 0 target && leb target (length collected)
      then pure collected
      else walk_pages web formats urls auth matches target left
          (resolve_docker_hub_next urls next page.next) collected

  later-Walked :
      (left : ℕ) (s v : Session) (x : Outcome (List TagEntry) × Session)
      → Uses 4 (3 * docker_hub_max_wait) s v
      → Walked left v x
      → Walked (suc left) s x
  later-Walked left s v x h k =
      let rest = k.uses in
      record { uses = record { sent = ground arith; slept = ground arith }; matched = k.matched }

  page-Walked :
      (left : ℕ) (next : String) (entries : List TagEntry) (s : Session)
      → Matching matches entries
      → ((n : String) (es : List TagEntry) (v : Session)
          → Matching matches es
          → Walked left v (walk_pages web formats urls auth matches target left n es v))
      → (x : Outcome DockerHubTagsResponse × Session) → Uses 4 (3 * docker_hub_max_wait) s x.1
      → Walked (suc left) s (proceed (go_on left next entries) x)
  page-Walked left next entries s h later (got page, v) used =
      let all_match =
        append-Matching matches entries _ h (select_page-Matching matches page.results) in
      elim (Bool-cases
        (ltb 0 target && leb target (length (entries ++ select_page matches page.results)))) [
          | inl enough ↦
              rw enough
                (later-Walked left s v _ used (record { uses = stays-Uses v; matched = all_match }))
          | inr more ↦ rw more (later-Walked left s v _ used (later _ _ v all_match))
        ]
  page-Walked left next entries s h later (failed e, v) used =
      later-Walked left s v _ used (record { uses = stays-Uses v; matched = tt })

  pub walk_pages-Walked :
      (pages : ℕ) (next : String) (entries : List TagEntry) (s : Session)
      → Matching matches entries
      → Walked pages s (walk_pages web formats urls auth matches target pages next entries s)
  unfolding walk_pages
  walk_pages-Walked zero next entries s h = record { uses = stays-Uses s; matched = h }
  walk_pages-Walked (suc left) next entries s h = elim (Bool-cases (str_eq next "")) [
    | inl last ↦ rw last (record { uses = stays-Uses s; matched = h })
    | inr more ↦ rw more (elim (Bool-cases (web.is_done s.requests)) [
      | inl over ↦ rw over (record { uses = stays-Uses s; matched = tt })
      | inr goes_on ↦ rw goes_on (
          page-Walked left next entries s h (λ n es v k. walk_pages-Walked left n es v k)
            (fetch_page web formats auth next s) (fetch_page-Uses web formats auth next s))
    ])
  ]
