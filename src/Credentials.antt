-- ===== src/Credentials.antt =====
-- src/kiroku/credentials: the resolvers of the three providers. Fernet decryption with the JSON
-- reader behind it, and the Vault client, are parameters; a payload is the dict that they return.
use bmu.Prelude.{String, Option, none, some, List, Result, ok, err, ◌>>=◌, if◌then◌else◌}
use bmu.Text.{is_empty, split_once}
use bmu.Runtime.{row_get}
use bmu.Models.Credential.{local, vault, bitwarden, Credential, CredentialMaterial}

abbrev pub Payload : Type 0
Payload = List (String × Option String)

-- `payload.get(key)`
unfoldable pub get : Payload → String → Option String
unfolding row_get
get payload key = elim (row_get key payload) [ none ↦ none | some v ↦ v ]

-- `a or b or ""`
unfoldable pub first_text : Option String → Option String → String
first_text (some a) (some b) = if is_empty a then b else a
first_text (some a) none = a
first_text none (some b) = b
first_text none none = ""

unfoldable pub material : Payload → Option String → CredentialMaterial
unfolding get first_text
material payload username = record {
  username = first_text (get payload "username") username;
  password = get payload "password";
  enable_password = get payload "enable_password";
  private_key = get payload "private_key";
  private_key_passphrase = get payload "private_key_passphrase";
}

pub record Secrets : Type 0 where
  pub decrypt : String → Result Payload
  -- Mount point and path.
  pub read_secret : String → String → Result Payload

module _ (secrets : Secrets) where
  unfoldable pub resolve_local : Credential → Result CredentialMaterial
  unfolding material
  resolve_local cred = elim cred.encrypted_payload [
    | none ↦ err "local credential is missing encrypted_payload"
    | some blob ↦
        if is_empty blob
        then err "local credential is missing encrypted_payload"
        else do payload ← secrets.decrypt blob; ok (material payload cred.username)
  ]

  unfoldable pub resolve_vault : Credential → Result CredentialMaterial
  unfolding material split_once
  resolve_vault cred = elim cred.ref [
    | none ↦ err "vault credential requires ref in 'mount/path' form"
    | some ref ↦ elim (split_once b'/' ref) [
      | none ↦ err "vault credential requires ref in 'mount/path' form"
      | some (mount, path) ↦ do
        payload ← secrets.read_secret mount path
        ok (material payload cred.username)
    ]
  ]

  unfoldable pub resolve_credential : Credential → Result CredentialMaterial
  unfolding resolve_local resolve_vault
  resolve_credential cred = elim cred.provider [
    | local ↦ resolve_local cred
    | vault ↦ resolve_vault cred
    | bitwarden ↦ err "Bitwarden provider not yet implemented"
  ]
