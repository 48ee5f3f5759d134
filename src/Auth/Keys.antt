-- ===== src/Auth/Keys.antt =====
-- An authorized request carries a key of the configuration.
use cocopilot.Prelude.{◌≡◌, String, List}
use cocopilot.Auth.{AuthIdentity, AuthConfig, legacy_identity}
use mathlib.Core.List.{Memᴰ}

-- The identity is configured and has the key, or the key is the one of the configuration itself.
pub data OfKey (cfg : AuthConfig) (key : String) : AuthIdentity → Type 0 where
  configured :
      {identity : AuthIdentity}
      → Memᴰ identity cfg.auth_identities
      → identity.api_key ≡ key
      → OfKey cfg key identity
  legacy :
      {identity : AuthIdentity}
      → identity ≡ legacy_identity key
      → cfg.api_key ≡ key
      → OfKey cfg key identity
