-- ===== src/Tests/Versioncheck.antt =====
-- An image with a newer tag of the same major version, found by the check of versions.
use chainplane.Prelude.{
  ℕ, ◌≡◌, refl, inl, subst, sym, String, true, false, none, some, List, [], ◌∷◌, Any,
}
use chainplane.Registry.Formats.{ChainVersionPolicy, TagEntry}
use chainplane.Registry.Semver.{
  SemverPackage, normalize_tag, newest, newest_from, is_newer, is_major_bump,
}
use chainplane.Cmd.Versioncheck.{
  CheckText, VersionResult, WorkItem, last_colon, parse_tag, replace_tag, version_of, strip_known,
  is_stable_tag, is_candidate, stable_versions, by_version, pick_version, pick_with, pick_latest,
  result_with, check_version, check_versions, update_of, filter_newer,
}
use chainplane.Cmd.Versioncheck.ImageRef.{parse_tag-replace_tag}
use chainplane.Cmd.Versioncheck.Updates.{IsUpdateOf, filter_newer-IsUpdateOf}
use chainplane.Cmd.Versioncheck.TagCache.{
  Fetched, TagCache, cached_tags, cache_behind, find_entry, is_policy, cached_tags_again,
}
use chainplane.Tests.Data.{marks}
use chainplane.Tests.Registry.{plain_text, by_length}

no_colon : last_colon "v2" ≡ none
unfolding last_colon
no_colon = refl

-- The host of the reference has a port, and the reference a tag.
parse_tag-replace_tag_example : parse_tag (replace_tag "host:80/node:v1" "v2") ≡ "v2"
parse_tag-replace_tag_example = parse_tag-replace_tag "host:80/node:v1" "v2" no_colon

abbrev every_tag : CheckText
every_tag = record {
  text = plain_text;
  compile = λ _. some (record { has_version = false; version_group = λ _. none });
  to_lower = λ s. s;
  is_clean_version = λ _. true;
}

abbrev one_major : SemverPackage
one_major = record by_length { major = λ _. "v1" }

abbrev entry : String → TagEntry
entry tag = record { tag = tag; published_at = ""; digest = "" }

abbrev pinned : WorkItem
pinned = record {
  chain = "ethereum";
  client = "";
  current_ref = "node:a";
  policy = record { registry = ""; repository = "node"; tag_pattern = ".*"; tag_prefix = "" };
  answer = some (entry "ab" ∷ entry "abc" ∷ []);
}

abbrev update : VersionResult
update = record {
  chain = "ethereum";
  client = "";
  current_ref = "node:a";
  current_tag = "a";
  latest_tag = "abc";
  is_newer = true;
  is_major = false;
  same_major_tag = "";
  no_match = false;
  failed = false;
}

found : filter_newer false (check_versions every_tag one_major (pinned ∷ [])) ≡ update ∷ []
unfolding filter_newer update_of check_versions check_version result_with pick_latest pick_with
    pick_version by_version stable_versions is_candidate is_stable_tag strip_known version_of
    parse_tag last_colon newest newest_from is_newer is_major_bump normalize_tag
found = refl

filter_newer-IsUpdateOf_example : Any (IsUpdateOf every_tag one_major "abc") (pinned ∷ [])
filter_newer-IsUpdateOf_example = filter_newer-IsUpdateOf every_tag one_major (pinned ∷ []) update (
    subst (λ (us : List VersionResult). Any (λ (x : VersionResult). update ≡ x) us) (sym found)
      (inl refl))

-- Each fetch has another answer.
abbrev fetch_next : ℕ → ChainVersionPolicy → Fetched
fetch_next n _ = some (entry (marks n) ∷ [])

abbrev policy_of : String → ChainVersionPolicy
policy_of repository = record {
  registry = "docker.io";
  repository = repository;
  tag_pattern = ".*";
  tag_prefix = "";
}

abbrev empty_cache : TagCache
empty_cache = record { entries = []; fetches = 0 }

cached_tags_again_example :
    let (fetched, first) = cached_tags fetch_next (policy_of "reth") empty_cache in
    let behind =
      cache_behind fetch_next
        (policy_of "node" ∷ policy_of "reth" ∷ policy_of "op-node" ∷ [])
        first in
    cached_tags fetch_next (policy_of "reth") behind ≡ (fetched, behind)
cached_tags_again_example =
    cached_tags_again fetch_next (policy_of "reth")
      (policy_of "node" ∷ policy_of "reth" ∷ policy_of "op-node" ∷ []) empty_cache

fetched_twice :
    (cache_behind fetch_next
      (policy_of "reth" ∷ policy_of "node" ∷ policy_of "reth" ∷ [])
      empty_cache).fetches
    ≡ 2
unfolding cache_behind cached_tags find_entry is_policy
fetched_twice = refl
