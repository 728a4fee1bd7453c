-- ===== src/Registry/Formats.antt =====
-- What internal/registry takes from the packages for URLs, JSON, texts and regular expressions, and
-- the types that its clients share.
use chainplane.Prelude.{ℕ, String, Bool, Option, List}

-- internal/adapters/interface.go: ChainVersionPolicy
pub record ChainVersionPolicy : Type 0 where
  pub registry : String
  pub repository : String
  pub tag_pattern : String
  pub tag_prefix : String

pub record TagEntry : Type 0 where
  pub tag : String
  pub published_at : String
  pub digest : String

-- dockerHubTag
pub record DockerHubTag : Type 0 where
  pub name : String
  pub tag_last_pushed : String

-- dockerHubTagsResponse
pub record DockerHubTagsResponse : Type 0 where
  pub next : String
  pub results : List DockerHubTag

-- ociTokenResponse
pub record OciTokenResponse : Type 0 where
  pub token : String
  pub access_token : String

-- An integer with a sign: the second kind stands for -(n + 1).
pub data Signed : Type 0 where
  plus minus_suc : ℕ → Signed

-- net/url, with the parsed URLs as U.
pub record Urls (U : Type 0) : Type 0 where
  pub parse : String → Option U
  pub is_abs : U → Bool
  pub show : U → String
  pub resolve_reference : U → U → U
  -- the first value of a parameter of the query, and the URL with the parameter set
  pub query : U → String → String
  pub set_query : U → String → String → U
  pub query_escape : String → String

-- The JSON decoders, strconv, strings and regexp.
pub record Formats : Type 0 where
  pub access_token : String → Option String
  pub docker_hub_tags : String → Option DockerHubTagsResponse
  pub ghcr_token : String → Option String
  pub oci_token : String → Option OciTokenResponse
  pub oci_tags : String → Option (List String)
  pub gar_tags : String → Option (List (List String))
  pub credentials : String → String → String
  pub parse_int : String → Option Signed
  pub split_commas : String → List String
  pub cut_semicolon : String → Option (String × String)
  pub contains_next : String → Bool
  pub trim_space : String → String
  pub trim_angles : String → String
  pub trim_prefix : String → String → String
  -- strings.SplitN(s, "/", 2), where it has two parts
  pub cut_slash : String → Option (String × String)
  pub compile : String → Option (String → Bool)
