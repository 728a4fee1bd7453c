-- ===== src/Tests/Catalog.antt =====
-- The catalog of versions with a small registry.
use chainplane.Prelude.{◌*◌, ◌∙◌, ◌≡◌, refl, ap, String, false, Option, none, some, List, []}
use chainplane.Time.{minute}
use chainplane.Api.{Condition}
use chainplane.Registry.Http.{do_request, request_json}
use chainplane.Registry.TagsList.{
  with_page_size, next_among, resolve_next_link, do_tags_list_request, fetch_tags_page, tags_from,
  fetch_tags_list, select_tags, matching_tags,
}
use chainplane.Registry.Client.{
  new_client, split_repository, get_ghcr_token, latest_ghcr_tags, latest_tags,
}
use chainplane.Controller.Conditions.{upsert, find_condition}
use chainplane.Controller.Conditions.Laws.{upserted, find_condition-upsert}
use chainplane.Controller.VersionCatalog.{
  CatalogTools, CatalogEnvironment, Catalog, CatalogServer, version_provider, reconciled,
  parse_check_interval, update_status, with_entries, with_listing, listing_of, with_catalog,
  reconcile_catalog,
}
use chainplane.Controller.VersionCatalog.Polled.{IsOutcome, reconcile_catalog-IsOutcome}
use chainplane.Tests.Clients.{small_registry, plain_formats, text_urls, policy, fresh}
use chainplane.Tests.Registry.{plain_text, by_length}

-- The condition in place of the old one of its kind, or behind the others.
abbrev put_condition : List Condition → Condition → List Condition
put_condition cs new = upsert new.kind (λ c. new) new cs

upserted_new : (new : Condition) (before : Option Condition) → upserted (λ c. new) new before ≡ new
upserted_new new none = refl
upserted_new new (some c) = refl

put_lem :
    (cs : List Condition) (new : Condition)
    → (c : Condition) × (find_condition (put_condition cs new) new.kind ≡ some c)
      × (c.status ≡ new.status)
      × (c.reason ≡ new.reason)
put_lem cs new = (
  new,
  find_condition-upsert new.kind (λ c. new) new refl (λ c e. refl) cs
      ∙ ap some (upserted_new new (find_condition cs new.kind)),
  refl,
  refl,
)

abbrev catalog_tools : CatalogTools
catalog_tools = record {
  parse_time = λ s. none;
  parse_duration = λ s. some (30 * minute);
  sort = λ less es. es;
  sort_keeps = λ less es e h. h;
  set_status_condition = put_condition;
  set_status_condition_lem = put_lem;
}

abbrev small_environment : CatalogEnvironment String
small_environment = record {
  tools = catalog_tools;
  text = plain_text;
  semver = by_length;
  adapters = λ chain. version_provider policy;
  web = small_registry;
  formats = plain_formats;
  urls = text_urls;
  default_auth = none;
  now = 5;
}

abbrev catalog : Catalog
catalog = record {
  chain = "ethereum";
  check_interval = "30m";
  generation = 1;
  status = record {
    latest_tag = "";
    latest_digest = "";
    published_at = none;
    checked_at = none;
    recent_tags = [];
    conditions = [];
  };
}

abbrev server : CatalogServer
server = record { stored = some catalog; read_fails = false; update_fails = false }

polls : (reconcile_catalog small_environment fresh server).0 ≡ reconciled (some (30 * minute))
unfolding do_request request_json with_page_size next_among resolve_next_link do_tags_list_request
    fetch_tags_page tags_from fetch_tags_list select_tags matching_tags split_repository
    get_ghcr_token latest_ghcr_tags latest_tags new_client parse_check_interval update_status
    with_entries with_listing listing_of with_catalog reconcile_catalog
polls = refl

reconcile_catalog-IsOutcome_example :
    IsOutcome small_environment fresh catalog (reconcile_catalog small_environment fresh server).1
reconcile_catalog-IsOutcome_example =
    reconcile_catalog-IsOutcome small_environment fresh catalog server
      (reconcile_catalog small_environment fresh server).1 (some (30 * minute)) refl
      (ap (λ r. (r, (reconcile_catalog small_environment fresh server).1)) polls)
