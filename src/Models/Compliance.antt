-- ===== src/Models/Compliance.antt =====
-- src/kiroku/models/compliance.py. Operators, modes, severities and states are the texts that the
-- columns hold.
use bmu.Prelude.{ℕ, String, Bool, Option, List}
use bmu.Models.Device.{Device, DeviceGroup}

pub record ComplianceCheck : Type 0 where
  pub id : ℕ
  pub policy_id : ℕ
  pub name : String
  pub field : String
  pub operator : String
  pub expected : Option String
  pub mode : String
  pub severity : String
  pub description : Option String
  pub sort_order : ℕ

pub record CompliancePolicy : Type 0 where
  pub id : ℕ
  pub name : String
  pub description : Option String
  pub parser_type : String
  pub parser_body : String
  pub enabled : Bool
  pub auto_evaluate : Bool
  pub checks : List ComplianceCheck
  pub device_groups : List DeviceGroup
  pub devices : List Device
