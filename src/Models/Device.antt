-- ===== src/Models/Device.antt =====
-- src/kiroku/models/device.py, group.py and platform.py. A device carries the credential and the
-- platform that its keys refer to, and a group the devices that belong to it.
use bmu.Prelude.{ℕ, String, Bool, Option, List}
use bmu.Models.Credential.{Credential}

pub data DriverKind : Type 0 where
  cli netconf : DriverKind

unfoldable pub driver_value : DriverKind → String
driver_value cli = "cli"
driver_value netconf = "netconf"

pub data TransportProtocol : Type 0 where
  ssh telnet netconf : TransportProtocol

unfoldable pub transport_value : TransportProtocol → String
transport_value ssh = "ssh"
transport_value telnet = "telnet"
transport_value netconf = "netconf"

pub record Platform : Type 0 where
  pub id : ℕ
  pub name : String
  pub description : Option String
  pub yaml_body : String

pub record Device : Type 0 where
  pub id : ℕ
  pub name : String
  pub hostname : String
  pub port : Option ℕ
  pub description : Option String
  pub platform : Option String
  pub custom_platform_id : Option ℕ
  pub custom_platform : Option Platform
  pub transport : Option TransportProtocol
  pub driver_kind : Option DriverKind
  pub connect_timeout : Option ℕ
  pub command_timeout : Option ℕ
  pub credential_id : Option ℕ
  pub credential : Option Credential
  pub make : Option String
  pub model : Option String
  pub role : Option String
  pub enabled : Bool
  pub worker_pool : Option String
  pub latest_backup_path : Option String
  pub latest_backup_at : Option ℕ

pub record DeviceGroup : Type 0 where
  pub id : ℕ
  pub name : String
  pub description : Option String
  pub default_credential_id : Option ℕ
  pub default_credential : Option Credential
  pub max_parallel : ℕ
  pub worker_pool : Option String
  pub devices : List Device
