-- ===== src/Provider/Registry.antt =====
-- avs-core/src/model/registry.rs: the name-keyed table of provider factories. The wire formats of
-- the three providers and the test of `HeaderValue::from_str` are parameters.
pub mod Laws
use agentverse.Base.{
  String, Bool, true, false, ◌==◌, string_eq, if◌then◌else◌, Option, none, some, [], ◌∷◌, Result,
  ok, err, ◌>>=◌, ◌>>◌,
}
use agentverse.Base.Map.{Map, get, insert}
use agentverse.Core.Json.{Json}
use agentverse.Core.Error.{ModelError, unknown_provider, missing_setting, invalid_api_key}
use agentverse.Core.Model.{GenerateRequest, GenerateResponse}

-- the trait `ModelProvider`, less the headers
pub record ModelProvider : Type 0 where
  pub name : String
  pub build_request : String → GenerateRequest → Result Json ModelError
  pub parse_response : String → Result GenerateResponse ModelError
  pub endpoint_path : String → String

pub record ResolvedProvider : Type 0 where
  pub provider : ModelProvider
  pub api_base : String
  pub api_key : String
  pub model_name : String

abbrev pub Settings : Type 0
Settings = Map String String

abbrev pub ProviderFactory : Type 0
ProviderFactory = Settings → Result ResolvedProvider ModelError

pub record ProviderRegistry : Type 0 where
  pub factories : Map String ProviderFactory

abbrev pub new : ProviderRegistry
new = record { factories = [] }

abbrev pub register : String → ProviderFactory → ProviderRegistry → ProviderRegistry
register name factory r = record { factories = insert name factory r.factories }

unfoldable pub build : ProviderRegistry → String → Settings → Result ResolvedProvider ModelError
unfolding get
build r name settings = elim (get name r.factories) [
  | none ↦ err (unknown_provider name)
  | some factory ↦ factory settings
]

-- what the built-in providers are, and which texts may stand in a header
pub record Builtins : Type 0 where
  pub anthropic : ModelProvider
  pub openai : ModelProvider
  pub gemini : ModelProvider
  pub header_ok : String → Bool

non_empty : Option String → Option String
non_empty none = none
non_empty (some v) = if v == "" then none else some v

unfoldable pub require_setting : Settings → String → String → Result String ModelError
unfolding non_empty get
require_setting settings key provider = elim (non_empty (get key settings)) [
  | some v ↦ ok v
  | none ↦ err (missing_setting key provider)
]

or_default : Option String → String → String
or_default none d = d
or_default (some v) d = v

module _ (b : Builtins) where
  unfoldable pub validate_header_value : String → Result (Unit {0}) ModelError
  validate_header_value api_key =
      if b.header_ok api_key
      then ok tt
      else err (
          invalid_api_key
            "API key contains characters that are invalid in an HTTP header (control characters or non-visible ASCII)")

  -- the body that `anthropic_factory` and `gemini_factory` share but for names
  keyed_factory : String → ModelProvider → String → ProviderFactory
  unfolding require_setting validate_header_value
  keyed_factory label provider api_base settings = do
    model_name ← require_setting settings "model_name" label
    api_key ← require_setting settings "api_key" label
    validate_header_value api_key
    ok (record {
      provider = provider;
      api_base = api_base;
      api_key = api_key;
      model_name = model_name;
    })

  unfoldable pub anthropic_factory : ProviderFactory
  unfolding keyed_factory
  anthropic_factory = keyed_factory "anthropic" b.anthropic "https://api.anthropic.com"

  unfoldable pub gemini_factory : ProviderFactory
  unfolding keyed_factory
  gemini_factory = keyed_factory "gemini" b.gemini "https://generativelanguage.googleapis.com"

  openai_key_ok : String → Option String → Result (Unit {0}) ModelError
  unfolding validate_header_value
  openai_key_ok api_key base_url =
      if api_key == ""
      then elim base_url [ none ↦ err (missing_setting "api_key" "openai") | some url ↦ ok tt ]
      else validate_header_value api_key

  unfoldable pub openai_factory : ProviderFactory
  unfolding require_setting non_empty or_default openai_key_ok get
  openai_factory settings = do
    model_name ← require_setting settings "model_name" "openai"
    let base_url = non_empty (get "base_url" settings)
    let api_key = or_default (get "api_key" settings) ""
    openai_key_ok api_key base_url
    ok (record {
      provider = b.openai;
      api_base = or_default base_url "https://api.openai.com/v1";
      api_key = api_key;
      model_name = model_name;
    })

  unfoldable pub with_builtins : ProviderRegistry
  unfolding insert
  with_builtins =
      register "gemini" gemini_factory
        (register "openai" openai_factory (register "anthropic" anthropic_factory new))
