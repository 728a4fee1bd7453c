-- ===== src/Cmd/Versioncheck/TagCache.antt =====
-- cmd/versioncheck/main.go, tagCache: the tags of a policy are fetched once in a run. The fetches are a
-- function of the number of the request and the policy.
use chainplane.Prelude.{
  ◌≡◌, inl, inr, refl, ℕ, suc, Bool, true, Option, none, some, List, [], ◌∷◌, arith, eq_iff, str_eq,
  ◌&&◌, Bool-cases, Option-cases, if◌then◌else◌,
}
use chainplane.Registry.Formats.{ChainVersionPolicy, TagEntry}

-- The fields of tagFetch: the tags, none for an error.
abbrev pub Fetched : Type 0
Fetched = Option (List TagEntry)

-- tagCache, with the number of the fetches that were made.
pub record TagCache : Type 0 where
  pub entries : List (ChainVersionPolicy × Fetched)
  pub fetches : ℕ

unfoldable pub is_policy : ChainVersionPolicy → ChainVersionPolicy → Bool
is_policy p q =
    str_eq p.registry q.registry
    && str_eq p.repository q.repository
    && str_eq p.tag_pattern q.tag_pattern
    && str_eq p.tag_prefix q.tag_prefix

unfoldable pub find_entry :
    ChainVersionPolicy → List (ChainVersionPolicy × Fetched) → Option Fetched
find_entry p [] = none
find_entry p ((q, fetched) ∷ rest) =
    let later = find_entry p rest in if is_policy p q then some fetched else later

-- latestTags of tagCache
unfoldable pub cached_tags :
    (ℕ → ChainVersionPolicy → Fetched) → ChainVersionPolicy → TagCache → Fetched × TagCache
cached_tags fetch p cache = elim (find_entry p cache.entries) [
  | some fetched ↦ (fetched, cache)
  | none ↦
      let fetched = fetch cache.fetches p in
      (fetched, record { entries = (p, fetched) ∷ cache.entries; fetches = suc cache.fetches })
]

-- The calls of the goroutines, one after the other.
unfoldable pub cache_behind :
    (ℕ → ChainVersionPolicy → Fetched) → List ChainVersionPolicy → TagCache → TagCache
cache_behind fetch [] cache = cache
cache_behind fetch (p ∷ ps) cache = cache_behind fetch ps (cached_tags fetch p cache).1

is_policy_same : (p : ChainVersionPolicy) → is_policy p p ≡ true
unfolding is_policy
is_policy_same p = ground (
  arith,
  eq_iff p.registry p.registry,
  eq_iff p.repository p.repository,
  eq_iff p.tag_pattern p.tag_pattern,
  eq_iff p.tag_prefix p.tag_prefix,
)

is_policy_equal : (p q : ChainVersionPolicy) → is_policy p q ≡ true → p ≡ q
unfolding is_policy
is_policy_equal p q h = ground (
  arith,
  eq_iff p.registry q.registry,
  eq_iff p.repository q.repository,
  eq_iff p.tag_pattern q.tag_pattern,
  eq_iff p.tag_prefix q.tag_prefix,
)

module _ (fetch : ℕ → ChainVersionPolicy → Fetched) where
  cached_tags_hit :
      (p : ChainVersionPolicy) (cache : TagCache) (fetched : Fetched)
      → find_entry p cache.entries ≡ some fetched
      → cached_tags fetch p cache ≡ (fetched, cache)
  unfolding cached_tags
  cached_tags_hit p cache fetched h = rw (h, cached_tags) refl

  cached_tags_miss :
      (p : ChainVersionPolicy) (cache : TagCache)
      → find_entry p cache.entries ≡ none
      → cached_tags fetch p cache ≡ (
        fetch cache.fetches p,
        record {
          entries = (p, fetch cache.fetches p) ∷ cache.entries;
          fetches = suc cache.fetches;
        },
      )
  unfolding cached_tags
  cached_tags_miss p cache h = rw (h, cached_tags) refl

  -- A call enters its answer.
  find_entry-cached_tags :
      (p : ChainVersionPolicy) (cache : TagCache)
      → find_entry p (cached_tags fetch p cache).1.entries ≡ some (cached_tags fetch p cache).0
  unfolding find_entry
  find_entry-cached_tags p cache = elim (Option-cases (find_entry p cache.entries)) [
    | inl miss ↦ rw (cached_tags_miss p cache miss) (rw (is_policy_same p) refl)
    | inr (fetched, hit) ↦ rw (cached_tags_hit p cache fetched hit) hit
  ]

  -- A call takes away no entry.
  find_entry_kept :
      (p q : ChainVersionPolicy) (cache : TagCache) (fetched : Fetched)
      → find_entry p cache.entries ≡ some fetched
      → find_entry p (cached_tags fetch q cache).1.entries ≡ some fetched
  unfolding find_entry
  find_entry_kept p q cache fetched h = elim (Option-cases (find_entry q cache.entries)) [
    | inr (other, hit) ↦ rw (cached_tags_hit q cache other hit) h
    | inl miss ↦ rw (cached_tags_miss q cache miss) (elim (Bool-cases (is_policy p q)) [
      | inl same ↦ let equal = is_policy_equal p q same in absurd (ground arith)
      | inr apart ↦ rw apart h
    ])
  ]

  find_entry-cache_behind :
      (p : ChainVersionPolicy) (ps : List ChainVersionPolicy) (cache : TagCache) (fetched : Fetched)
      → find_entry p cache.entries ≡ some fetched
      → find_entry p (cache_behind fetch ps cache).entries ≡ some fetched
  unfolding cache_behind
  find_entry-cache_behind p [] cache fetched h = h
  find_entry-cache_behind p (q ∷ ps) cache fetched h =
      find_entry-cache_behind p ps (cached_tags fetch q cache).1 fetched
        (find_entry_kept p q cache fetched h)

  -- Whatever is asked for in between, the tags of a policy are fetched no second time: a later call has
  -- the answer of the first one and leaves the cache as it is.
  pub cached_tags_again :
      (p : ChainVersionPolicy) (ps : List ChainVersionPolicy) (cache : TagCache)
      → let (fetched, first) = cached_tags fetch p cache in
        cached_tags fetch p (cache_behind fetch ps first) ≡ (fetched, cache_behind fetch ps first)
  cached_tags_again p ps cache =
      cached_tags_hit p _ _ (find_entry-cache_behind p ps _ _ (find_entry-cached_tags p cache))
