-- ===== src/Worker/Sessions.antt =====
-- What src/kiroku/worker/scrapli_runner.py calls: the sessions of scrapli, the temporary files, the
-- clocks. The world is what these change; the temporary files are kept apart from it, with their
-- texts.
use bmu.Prelude.{ok, err, ◌⊎◌, inl, inr, refl}
use bmu.Prelude.{ℕ, String, Bool, ◌≡◌, false, Option, List, [], ◌∷◌, map, Result, contains}
use bmu.Prelude.{if◌then◌else◌, ◌==◌, string_eq}

pub record AuthOptions : Type 0 where
  pub username : String
  pub password : String
  pub private_key_path : Option String
  pub private_key_passphrase : Option String
  pub lookups : Option (List (String × String))

pub data TransportOptions : Type 0 where
  telnet : TransportOptions
  -- `enable_strict_key` and `extra_open_args`
  bin : Bool → List String → TransportOptions

pub record SessionConfig : Type 0 where
  pub host : String
  pub port : ℕ
  pub auth_options : AuthOptions
  pub operation_timeout_s : ℕ
  pub transport_options : TransportOptions

pub record Response : Type 0 where
  pub result : String
  pub failed : Bool

-- What a call came to: a value or an exception, and the world then.
pub data Outcome (W A : Type 0) : Type 0 where
  returned : A → W → Outcome W A
  raising : String → W → Outcome W A

-- What the caller of `execute` sees.
abbrev pub answer : {W A : Type 0} → Outcome W A → Result A
answer (returned a w) = ok a
answer (raising e w) = err e

pub Outcome-cases :
    {W A : Type 0} (o : Outcome W A)
    → ((a : A) × (w : W) × (o ≡ returned a w)) ⊎ ((e : String) × (w : W) × (o ≡ raising e w))
Outcome-cases (returned a w) = inl (a, w, refl)
Outcome-cases (raising e w) = inr (e, w, refl)

abbrev pub TempFiles : Type 0
TempFiles = List (String × String)

pub record Sessions : Type 1 where
  pub World : Type 0
  pub Driver : Type 0
  -- `Cli(…, definition_file_or_name=…)` and `Netconf(…)`
  pub cli : SessionConfig → String → Result Driver
  pub netconf : SessionConfig → Result Driver
  -- Opening a session reads the definition file.
  pub open_session : Driver → TempFiles → World → Outcome World Unit
  -- `send_input`; the flag is for `InputHandling.IGNORE`.
  pub send_input : Driver → Bool → String → World → Outcome World Response
  pub raw_rpc : Driver → String → World → Outcome World String
  pub close : Driver → World → Outcome World Unit
  -- The name that `mkstemp` makes, given those in use.
  pub mkstemp : World → List String → String
  -- `str(_DEFINITIONS_DIR / f"{platform}.yaml")`, if that file exists.
  pub local_definition : String → Option String
  -- The wall clock, and the milliseconds between two readings of `perf_counter`.
  pub now_iso : World → String
  pub elapsed_ms : World → World → ℕ

-- `mkstemp` makes a new file.
pub record IsFresh (sessions : Sessions) : Type 0 where
  pub fresh :
      (w : sessions.World) (names : List String) → contains (sessions.mkstemp w names) names ≡ false

-- What a run works on.
pub record Host (sessions : Sessions) : Type 0 where
  pub world : sessions.World
  pub temp_files : TempFiles

-- `os.unlink(path)`, of a path that may be gone.
unfoldable pub unlink : String → TempFiles → TempFiles
unlink path [] = []
unlink path ((name, text) ∷ files) =
    let rest = unlink path files in if name == path then rest else (name, text) ∷ rest

abbrev pub file_names : TempFiles → List String
file_names files = map (λ (f : String × String). f.0) files
