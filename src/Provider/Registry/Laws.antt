-- ===== src/Provider/Registry/Laws.antt =====
-- What a registry with the built-in providers builds.
use agentverse.Base.{String, true, ◌≡◌, ◌⊎◌, string_eq, some, ok, arith}
use agentverse.Base.Map.{get, insert}
use agentverse.Provider.Registry.{
  Builtins, ResolvedProvider, Settings, build, with_builtins, anthropic_factory, gemini_factory,
  openai_factory,
}

module _ (b : Builtins) (settings : Settings) where
  -- Whatever the name and the settings, what the built-in registry builds has a key that may stand
  -- in a header, or else no key at all, and then the settings name another endpoint.
  pub build-key_ok :
      (name : String) (r : ResolvedProvider)
      → build (with_builtins b) name settings ≡ ok r
      → (b.header_ok r.api_key ≡ true)
        ⊎ ((r.api_key ≡ "") × (get "base_url" settings ≡ some r.api_base))
  unfolding build with_builtins insert anthropic_factory gemini_factory openai_factory
  build-key_ok name r h = ground arith
