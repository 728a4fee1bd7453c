-- ===== src/Registry/TagsList/Pages.antt =====
-- The requests of a listing, and the tags that are kept of it.
use chainplane.Prelude.{
  ℕ, zero, suc, ◌≡◌, refl, inl, inr, not, str_eq, String, Bool, true, List, [], ◌∷◌, All, arith,
  Bool-cases,
}
use chainplane.Registry.Http.{Web, Session, HttpResponse, pure, fail, not_built, do_request}
use chainplane.Registry.Http.Spending.{
  Spends, stays-Spends, widen-Spends, if-Spends, bind-Spends, do_request-Spends,
}
use chainplane.Registry.Formats.{Formats, Urls, TagEntry}
use chainplane.Registry.TagsList.{
  read_tags, do_tags_list_request, fetch_tags_page, tags_from, fetch_tags_list, resolve_next_link,
  select_tags, tags_list_max_pages,
}

module _ (web : Web) (formats : Formats) where
  read_tags-Spends : (p : HttpResponse) (s : Session) → Spends 0 0 s (read_tags web formats p s).1
  read_tags-Spends p s = record { sent = ground arith; slept = ground arith; kept = ground arith }

  fetch_tags_page-Spends :
      (token url : String) (s : Session) → Spends 1 0 s (fetch_tags_page web formats token url s).1
  unfolding fetch_tags_page do_tags_list_request
  fetch_tags_page-Spends token url s =
      if-Spends (not (web.builds url)) (fail not_built) (do_tags_list_request web formats _) s
        (stays-Spends s)
        (bind-Spends (do_request web _) (read_tags web formats) 1 0 0 0 s
          (do_request-Spends web _ s) λ p v. read_tags-Spends p v)

  module _ {U : Type 0} (urls : Urls U) where
    tags_from-Spends :
        (left : ℕ) (token next : String) (tags : List String) (s : Session)
        → Spends left 0 s (tags_from web formats urls left token next tags s).1
    unfolding tags_from
    tags_from-Spends zero token next tags s = record {
      sent = omega arith;
      slept = omega arith;
      kept = refl;
    }
    tags_from-Spends (suc left) token next tags s =
        if-Spends (str_eq next "") (pure tags) _ s (stays-Spends s) (
          widen-Spends (omega arith) (omega arith) (
            bind-Spends (fetch_tags_page web formats token next) _ 1 left 0 0 s
              (fetch_tags_page-Spends token next s)
              λ page v.
                tags_from-Spends left token (resolve_next_link urls formats next page.1) _ v))

    pub fetch_tags_list-Spends :
        (first token : String) (s : Session)
        → Spends tags_list_max_pages 0 s (fetch_tags_list web formats urls first token s).1
    unfolding fetch_tags_list
    fetch_tags_list-Spends first token s = tags_from-Spends tags_list_max_pages token _ _ s

-- Every entry matches.
abbrev pub Matching : (String → Bool) → List TagEntry → Type 0
Matching matches = All (λ e. matches e.tag ≡ true)

pub select_tags-Matching :
    (matches : String → Bool) (tags : List String) → Matching matches (select_tags matches tags)
unfolding select_tags
select_tags-Matching matches [] = tt
select_tags-Matching matches (tag ∷ tags) =
    let rest = select_tags-Matching matches tags in
    elim (Bool-cases (matches tag)) [
      | inl kept ↦ rw kept (kept, rest)
      | inr dropped ↦ rw dropped rest
    ]
