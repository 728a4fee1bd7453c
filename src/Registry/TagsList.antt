-- ===== src/Registry/TagsList.antt =====
-- internal/registry/tagslist.go: the listing of tags by pages that link to the next one.
pub mod Pages
use chainplane.Prelude.{
  ℕ, zero, suc, String, Bool, true, false, Option, none, some, List, [], ◌∷◌, ◌++◌, ◌||◌, not, ◌==◌,
  str_eq, if◌then◌else◌,
}
use Prim.Native.String.{◌++◌ as text_append}
use chainplane.Registry.Http.{
  Web, Request, HttpResponse, Fetch, pure, fail, ◌>>=◌, undecodable, no_response, bad_status,
  not_built, bad_pattern, do_request,
}
use chainplane.Registry.Formats.{Formats, Urls, TagEntry}

abbrev pub tags_list_max_pages : ℕ
tags_list_max_pages = 20

module _ {U : Type 0} (urls : Urls U) where
  -- withPageSize
  unfoldable pub with_page_size : String → String
  with_page_size raw = elim (urls.parse raw) [
    | none ↦ raw
    | some u ↦
        let n = urls.query u "n" in
        if str_eq n "" || str_eq n "0" then urls.show (urls.set_query u "n" "1000") else urls.show u
  ]

  -- The reference of a link, resolved against the URL of the page.
  unfoldable pub resolve_target : String → String → String
  resolve_target current target = elim (urls.parse current) [
    | none ↦ ""
    | some base ↦ elim (urls.parse target) [
      | none ↦ ""
      | some ref ↦ with_page_size (urls.show (urls.resolve_reference base ref))
    ]
  ]

  -- The loop of resolveNextLink over the parts of the header.
  unfoldable pub next_among : Formats → String → List String → String
  next_among formats current [] = ""
  next_among formats current (part ∷ parts) =
      let rest = next_among formats current parts in
      elim (formats.cut_semicolon (formats.trim_space part)) [
        | none ↦ rest
        | some (target, params) ↦
            if not (formats.contains_next params)
            then rest
            else resolve_target current (formats.trim_angles (formats.trim_space target))
      ]

  -- resolveNextLink
  unfoldable pub resolve_next_link : Formats → String → String → String
  resolve_next_link formats current header =
      next_among formats current (formats.split_commas header)

-- The headers of a request for tags: an empty token sends no Authorization.
abbrev pub tags_headers : String → List (String × String)
tags_headers token =
    ("Accept", "application/json")
    ∷ (if str_eq token "" then [] else ("Authorization", text_append "Bearer " token) ∷ [])

module _ (web : Web) (formats : Formats) where
  -- The part of doTagsListRequest that follows the answer.
  abbrev pub read_tags : HttpResponse → Fetch (List String × String)
  read_tags p =
      if not (p.status_code == 200)
      then fail (bad_status p.status_code)
      else (elim (formats.oci_tags p.body) [
        | none ↦ fail undecodable
        | some tags ↦ pure (tags, p.header "Link")
      ])

  -- doTagsListRequest
  unfoldable pub do_tags_list_request : Request → Fetch (List String × String)
  do_tags_list_request r = do p ← do_request web r; read_tags p

  -- The request for one page.
  unfoldable pub fetch_tags_page : String → String → Fetch (List String × String)
  fetch_tags_page token url =
      if not (web.builds url)
      then fail not_built
      else do_tags_list_request
          (record { method = "GET"; url = url; headers = tags_headers token; body = "" })

  module _ {U : Type 0} (urls : Urls U) where
    -- The loop of fetchTagsList, with the number of pages that are left.
    unfoldable pub tags_from : ℕ → String → String → List String → Fetch (List String)
    tags_from zero token next tags = pure tags
    tags_from (suc left) token next tags =
        let rest = tags_from left token in
        if str_eq next "" then pure tags else do
          page ← fetch_tags_page token next
          rest (resolve_next_link urls formats next page.1) (tags ++ page.0)

    -- fetchTagsList
    unfoldable pub fetch_tags_list : String → String → Fetch (List String)
    fetch_tags_list first_url token =
        tags_from tags_list_max_pages token (with_page_size urls first_url) []

-- The loop of matchingTags.
unfoldable pub select_tags : (String → Bool) → List String → List TagEntry
select_tags matches [] = []
select_tags matches (tag ∷ tags) =
    let rest = select_tags matches tags in
    if matches tag then record { tag = tag; published_at = ""; digest = "" } ∷ rest else rest

-- The compilation of a pattern, with what is done with it.
abbrev pub with_pattern :
    {A : Type 0} → Option (String → Bool) → ((String → Bool) → Fetch A) → Fetch A
with_pattern none use_pattern = fail bad_pattern
with_pattern (some matches) use_pattern = use_pattern matches

-- The part of matchingTags that follows the compilation.
abbrev pub select_with : Option (String → Bool) → List String → Fetch (List TagEntry)
select_with compiled tags = with_pattern compiled λ matches. pure (select_tags matches tags)

-- matchingTags
unfoldable pub matching_tags : Formats → List String → String → Fetch (List TagEntry)
matching_tags formats tags tag_pattern = select_with (formats.compile tag_pattern) tags
