-- ===== src/Web/Import.antt =====
-- `import_csv` of src/kiroku/web/import_devices.py, and `import_devices` of
-- src/kiroku/web/routes/api/devices.py over it. Python's csv reader, `int`, `repr` and the case
-- mapping are parameters; `int` is that of the ports from 0 on. A device row is kept with the ids of
-- its groups.
pub mod Loading
pub mod Writing
pub mod Counted
pub mod Names
pub mod Kept
pub mod Read
pub mod Found
pub mod Stored
use Prim.Native.Char.{code}
use Prim.Native.String.{◌++◌ as ◌<>◌}
use bmu.Prelude.{ℕ, suc, ◌+◌, String, Bool, true, false, not, Option, none, some, is_some}
use bmu.Prelude.{
  List, [], ◌∷◌, ◌++◌, map, Result, ok, err, ◌>>=◌, map_ok, any, tally, length, contains, keep,
}
use bmu.Prelude.{if◌then◌else◌, ◌==◌, nat_eq, string_eq}
use bmu.Text.{is_empty, nonempty, strip, join, push}
use bmu.Runtime.{row_get, row_set}
use bmu.Models.Credential.{Credential}
use bmu.Models.Device.{
  DriverKind, TransportProtocol, transport_value, driver_value, Device, DeviceGroup,
}

-- A row of the reader: a cell that is missing is `None`.
abbrev pub CsvRow : Type 0
CsvRow = List (String × Option String)

pub record Csv : Type 0 where
  -- `DictReader(…)`: the names of the fields, and the rows; or an exception of the reader.
  pub reader : String → Result (List String × List CsvRow)
  pub int : String → Result ℕ
  pub repr : String → String
  pub lower : String → String

pub record Entry : Type 0 where
  pub device : Device
  pub group_ids : List ℕ

pub record RowResult : Type 0 where
  pub line : ℕ
  pub name : String
  pub is_ok : Bool
  pub message : String
  pub action : String

-- The values of a row that passed all checks.
pub record Cells : Type 0 where
  pub name : String
  pub hostname : String
  pub port : Option ℕ
  pub matched : List DeviceGroup
  pub credential : Option Credential
  pub platform : Option String
  pub transport : Option TransportProtocol
  pub driver_kind : Option DriverKind
  pub enabled : Option Bool
  pub description : Option String
  pub make : Option String
  pub model : Option String
  pub role : Option String
  pub worker_pool : Option String

-- `s.split(sep)` at a character.
unfoldable pub split_on : ℕ → String → List String
split_on sep String.[] = "" ∷ []
split_on sep (String.◌∷◌ c s) =
    let rest = split_on sep s in if code c == sep then "" ∷ rest else push c rest

-- The first row with a name, of a table whose names are unique.
unfoldable pub find_name {ℓ} : {A : Type ℓ} → (A → String) → String → List A → Option A
find_name name n [] = none
find_name name n (x ∷ xs) = if name x == n then some x else find_name name n xs

abbrev pub entry_name : Entry → String
entry_name e = e.device.name

-- `None` for a blank cell, and a value or an exception otherwise.
unfoldable pub unless_blank {ℓ} : {A : Type ℓ} → (String → Result A) → String → Result (Option A)
unless_blank f cell = if is_empty cell then ok none else do a ← f cell; ok (some a)

unfoldable pub normalize_headers : (String → String) → List String → List (String × String)
unfolding strip row_set
normalize_headers lower fields = go [] fields
  where
    go : List (String × String) → List String → List (String × String)
    go mapping [] = mapping
    go mapping (f ∷ fs) =
        let key = lower (strip f) in
        go (row_set (if key == "credential" then "credentials" else key) f mapping) fs

-- `get(k)`
unfoldable pub cell : List (String × String) → CsvRow → String → String
unfolding strip row_get
cell headers row k =
    let header = elim (row_get k headers) as (λ x. String) [ none ↦ "" | some h ↦ h ] in
    elim (row_get header row) [
      | none ↦ ""
      | some value ↦ elim value [ none ↦ "" | some s ↦ strip s ]
    ]

-- `TransportProtocol(value)` and `DriverKind(value)`
unfoldable pub transport_of : (String → String) → String → Result TransportProtocol
transport_of repr s =
    if s == "ssh"
    then ok TransportProtocol.ssh
    else if s == "telnet"
    then ok TransportProtocol.telnet
    else if s == "netconf"
    then ok TransportProtocol.netconf
    else err (repr s <> " is not a valid TransportProtocol")

unfoldable pub driver_of : (String → String) → String → Result DriverKind
driver_of repr s =
    if s == "cli"
    then ok DriverKind.cli
    else if s == "netconf"
    then ok DriverKind.netconf
    else err (repr s <> " is not a valid DriverKind")

abbrev truthy_words : List String
truthy_words = "1" ∷ "true" ∷ "yes" ∷ "y" ∷ "t" ∷ []

abbrev falsy_words : List String
falsy_words = "0" ∷ "false" ∷ "no" ∷ "n" ∷ "f" ∷ []

unfoldable pub parse_bool : Csv → String → Result (Option Bool)
unfolding strip
parse_bool csv value =
    let v = csv.lower (strip value) in
    if is_empty (strip value)
    then ok none
    else if contains v truthy_words
    then ok (some true)
    else if contains v falsy_words
    then ok (some false)
    else err ("invalid boolean: " <> csv.repr value)

-- `d.get(name)`, with the error for an unknown name.
unfoldable pub lookup_name {ℓ} : {A : Type ℓ} → (A → String) → List A → String → String → Result A
unfolding find_name
lookup_name name rows message n = elim (find_name name n rows) [
  | none ↦ err message
  | some a ↦ ok a
]

unfoldable pub require : Bool → String → Result Bool
require condition message = if condition then ok true else err message

abbrev group_name : DeviceGroup → String
group_name g = g.name

abbrev credential_name : Credential → String
credential_name c = c.name

abbrev pub required : List String
required = "name" ∷ "hostname" ∷ "group" ∷ []

module _ (csv : Csv) (headers : List (String × String)) (groups : List DeviceGroup)
    (creds : List Credential) where
  -- The groups of a row.
  unfoldable pub matched_groups : CsvRow → Result (List DeviceGroup)
  unfolding cell require split_on strip lookup_name
  matched_groups row = do
    let names = keep (λ n. not (is_empty n)) (map strip (split_on b',' (cell headers row "group")))
    grouped ← require (any (λ n. true) names) "at least one group is required"
    map_ok (λ n. lookup_name group_name groups ("unknown group: " <> csv.repr n) n) names

  unfoldable pub named_credential : CsvRow → Result (Option Credential)
  unfolding cell unless_blank lookup_name
  named_credential row =
      unless_blank (λ n. lookup_name credential_name creds ("unknown credential: " <> csv.repr n) n)
        (cell headers row "credentials")

  unfoldable pub named_transport : CsvRow → Result (Option TransportProtocol)
  unfolding cell unless_blank transport_of
  named_transport row = unless_blank (transport_of csv.repr) (cell headers row "transport")

  unfoldable pub named_driver : CsvRow → Result (Option DriverKind)
  unfolding cell unless_blank driver_of
  named_driver row = unless_blank (driver_of csv.repr) (cell headers row "driver_kind")

  -- The checks of a row, in their order.
  unfoldable pub check_row : List String → CsvRow → Result Cells
  unfolding cell require unless_blank matched_groups named_credential named_transport named_driver
      parse_bool
  check_row seen row = do
    let name = cell headers row "name"
    let hostname = cell headers row "hostname"
    named ← require (not (is_empty name)) "name is required"
    new ← require (not (contains name seen)) ("duplicate name in file: " <> csv.repr name)
    hosted ← require (not (is_empty hostname)) "hostname is required"
    port ← unless_blank csv.int (cell headers row "port")
    matched ← matched_groups row
    credential ← named_credential row
    transport ← named_transport row
    driver_kind ← named_driver row
    enabled ← parse_bool csv (cell headers row "enabled")
    ok (record {
      name = name;
      hostname = hostname;
      port = port;
      matched = matched;
      credential = credential;
      platform = nonempty (cell headers row "platform");
      transport = transport;
      driver_kind = driver_kind;
      enabled = enabled;
      description = nonempty (cell headers row "description");
      make = nonempty (cell headers row "make");
      model = nonempty (cell headers row "model");
      role = nonempty (cell headers row "role");
      worker_pool = nonempty (cell headers row "worker_pool");
    })
