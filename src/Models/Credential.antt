-- ===== src/Models/Credential.antt =====
-- src/kiroku/models/credential.py and src/kiroku/credentials/base.py
use bmu.Prelude.{ℕ, String, Bool, Option}

pub data CredentialProvider : Type 0 where
  local vault bitwarden : CredentialProvider

-- `CredentialProvider.value`
unfoldable pub provider_value : CredentialProvider → String
provider_value local = "local"
provider_value vault = "vault"
provider_value bitwarden = "bitwarden"

pub record Credential : Type 0 where
  pub id : ℕ
  pub name : String
  pub description : Option String
  pub provider : CredentialProvider
  pub encrypted_payload : Option String
  pub ref : Option String
  pub username : Option String
  pub is_default : Bool

-- The secret that a credential resolves to.
pub record CredentialMaterial : Type 0 where
  pub username : String
  pub password : Option String
  pub enable_password : Option String
  pub private_key : Option String
  pub private_key_passphrase : Option String
