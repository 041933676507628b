-- ===== src/Models/Job.antt =====
-- src/kiroku/models/job.py and parser_template.py
use bmu.Prelude.{ℕ, String, Bool, Option, List}
use bmu.Models.Device.{Device, DeviceGroup}

pub data JobKind : Type 0 where
  backup collect cve_scan : JobKind

-- `JobKind.value`
unfoldable pub kind_value : JobKind → String
kind_value backup = "backup"
kind_value collect = "collect"
kind_value cve_scan = "cve_scan"

pub data ParserType : Type 0 where
  textfsm ttp xslt : ParserType

unfoldable pub parser_value : ParserType → String
parser_value textfsm = "textfsm"
parser_value ttp = "ttp"
parser_value xslt = "xslt"

pub record ParserTemplate : Type 0 where
  pub id : ℕ
  pub name : String
  pub description : Option String
  pub type : ParserType
  pub body : String
  pub jinja2_template : Option String
  pub aggregate_template : Option String

pub record Job : Type 0 where
  pub id : ℕ
  pub name : String
  pub description : Option String
  pub kind : JobKind
  pub commands : Option String
  pub rpc : Option String
  pub parser_template_id : Option ℕ
  pub parser_template : Option ParserTemplate
  pub cve_vendor : Option String
  pub cve_product : Option String
  pub show_on_device : Bool
  pub device_groups : List DeviceGroup
  pub devices : List Device
