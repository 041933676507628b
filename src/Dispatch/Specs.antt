-- ===== src/Dispatch/Specs.antt =====
-- src/kiroku/dispatch.py: the targets of a job, and `_spec_for`. The session's rows are a `Db`; a
-- commit writes them out and changes nothing that the code reads, so it is not modelled.
use bmu.Prelude.{ℕ, zero, suc, String, ◌&&◌, not, Option, none, some, or_else}
use bmu.Prelude.{List, [], ◌∷◌, ◌++◌, map, Result, ok, ◌>>=◌, keep, contains}
use bmu.Prelude.{if◌then◌else◌, nat_eq, string_eq}
use bmu.Text.{is_empty, truthy, strip, splitlines}
use bmu.Models.Credential.{Credential, provider_value}
use bmu.Models.Device.{Device, DeviceGroup, driver_value, transport_value}
use bmu.Models.Job.{Job, kind_value, parser_value}
use bmu.Models.Run.{Run, RunBatch}
use bmu.Jobs.{JobSpec}
use bmu.Credentials.{Secrets, resolve_credential}

-- The tables that the dispatcher reads and writes, with the next ids.
pub record Db : Type 0 where
  pub credentials : List Credential
  pub batches : List RunBatch
  pub runs : List Run
  pub next_batch : ℕ
  pub next_run : ℕ

-- A device to run on, with the group through which it is targeted.
abbrev pub Target : Type 0
Target = Device × Option DeviceGroup

abbrev pub target_ids : List Target → List ℕ
target_ids pairs = map (λ (d, _). d.id) pairs

-- The body of both loops: the set `seen` holds the ids of the pairs.
unfoldable pub add_targets : Option DeviceGroup → List Target → List Device → List Target
add_targets group pairs [] = pairs
add_targets group pairs (d ∷ ds) =
    add_targets group
      (if d.enabled && not (contains d.id (target_ids pairs))
        then pairs ++ (d, group) ∷ []
        else pairs)
      ds

unfoldable pub add_group_targets : List Target → List DeviceGroup → List Target
unfolding add_targets
add_group_targets pairs [] = pairs
add_group_targets pairs (g ∷ gs) = add_group_targets (add_targets (some g) pairs g.devices) gs

unfoldable pub device_group_pairs : Job → List Target
unfolding add_group_targets
device_group_pairs job = add_targets none (add_group_targets [] job.device_groups) job.devices

-- `a or b`, for texts that may be `None`.
abbrev pub or_text : Option String → Option String → Option String
or_text a b = if truthy a then a else b

-- `device.worker_pool or (group.worker_pool if group else None)`
unfoldable pub pool_of : Target → Option String
pool_of (d, none) = or_text d.worker_pool none
pool_of (d, some g) = or_text d.worker_pool g.worker_pool

-- `device.credential or group default or global default`
unfoldable pub credential_of : Option Credential → Target → Option Credential
credential_of default (d, none) = or_else d.credential default
credential_of default (d, some g) = or_else d.credential (or_else g.default_credential default)

-- `[c.strip() for c in (commands or "").splitlines() if c.strip()]`
unfoldable pub command_list : Option String → List String
unfolding strip splitlines
command_list none = []
command_list (some commands) = keep (λ c. not (is_empty c)) (map strip (splitlines commands))

-- The YAML of the device's own platform.
unfoldable pub custom_yaml : Device → Option String
custom_yaml d = elim d.custom_platform_id [
  | none ↦ none
  | some zero ↦ none
  | some (suc n) ↦ elim d.custom_platform [ none ↦ none | some p ↦ some p.yaml_body ]
]

abbrev map_option {ℓ κ} : {A : Type ℓ} {B : Type κ} → (A → B) → Option A → Option B
map_option f none = none
map_option f (some a) = some (f a)

-- The first default credential.
unfoldable pub default_credential : List Credential → Option Credential
default_credential [] = none
default_credential (c ∷ cs) = if c.is_default then some c else default_credential cs

module _ (secrets : Secrets) where
  -- `_spec_for`
  unfoldable pub spec_for :
      Option Credential → Job → Option ℕ → Target → Run → Result (Option JobSpec)
  unfolding custom_yaml command_list
  spec_for default job schedule_id (d, group) run = elim (credential_of default (d, group)) [
    | none ↦ ok none
    | some cred ↦ do
      material ← resolve_credential secrets cred
      let yaml = custom_yaml d
      ok (
          some (record {
            run_id = run.id;
            schedule_id = schedule_id;
            device_id = d.id;
            device_name = d.name;
            hostname = d.hostname;
            port = d.port;
            kind = kind_value job.kind;
            job_id = job.id;
            driver_kind = elim d.driver_kind [ none ↦ "cli" | some k ↦ driver_value k ];
            platform = if truthy yaml then none else d.platform;
            custom_platform_yaml = yaml;
            transport = map_option transport_value d.transport;
            commands = command_list job.commands;
            rpc = job.rpc;
            parser_template_id = map_option (λ p. p.id) job.parser_template;
            parser_type = map_option (λ p. parser_value p.type) job.parser_template;
            parser_body = map_option (λ p. p.body) job.parser_template;
            cve_vendor = job.cve_vendor;
            cve_product = job.cve_product;
            connect_timeout = d.connect_timeout;
            command_timeout = d.command_timeout;
            worker_pool = or_text (pool_of (d, group)) none;
            credential = record {
              provider = provider_value cred.provider;
              credential_id = cred.id;
              ref = cred.ref;
            };
            credential_material = some (record {
              username = material.username;
              password = material.password;
              enable_password = material.enable_password;
              private_key = material.private_key;
              private_key_passphrase = material.private_key_passphrase;
            });
          }))
  ]
