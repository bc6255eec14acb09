-- ===== src/Registry.antt =====
-- vios/process/registry.py: the components of the processing plane. The catalogue stands in the
-- child `Catalogue`, the dependency order in `Topo`, the packing into cohorts in `Cohorts`.
pub mod Catalogue
pub mod Lookup
mod Dedupe
pub mod Topo
pub mod Cohorts
pub mod Machine
pub mod Stages
pub mod Validate
mod Tests
use vios_manus.Common.{
  ℕ, Bool, true, false, Option, none, String, str_eq, List, [], ◌∷◌, if◌then◌else◌,
}

-- The field `device`.
pub data Device : Type 0 where
  cpu gpu : Device

abbrev pub is_gpu : Device → Bool
is_gpu gpu = true
is_gpu cpu = false

-- STAGE_STRUCTURE, STAGE_SIGNAL, STAGE_PERCEPTION, STAGE_LANGUAGE
abbrev pub stage_structure : ℕ
stage_structure = 0

abbrev pub stage_signal : ℕ
stage_signal = 1

abbrev pub stage_perception : ℕ
stage_perception = 2

abbrev pub stage_language : ℕ
stage_language = 3

-- STAGE_NAMES
abbrev pub stage_names : List (ℕ × String)
stage_names = (0, "structure") ∷ (1, "signal") ∷ (2, "perception") ∷ (3, "language") ∷ []

-- A `Component`, without its texts for the reader (summary, detail, notes, kinds), its import names
-- and its parameters. `seconds` is in tenths of a second.
pub record Component : Type 0 where
  pub id : String
  pub title : String
  pub stage : ℕ
  pub family : String
  pub channel : String
  pub model : String
  pub weights : String
  pub quant : String
  pub revision : String
  pub device : Device
  pub cards : ℕ
  pub gpu_lane : Option ℕ
  pub vram_mb : ℕ
  pub ram_mb : ℕ
  pub disk_mb : ℕ
  pub seconds : ℕ
  pub needs : List String
  pub produces : List String
  pub tier : String
  pub default_on : Bool
  pub kaggle_ok : Bool

-- The constructor with the defaults of the dataclass.
abbrev pub component : String → String → ℕ → String → Component
component id title stage family = record {
  id = id;
  title = title;
  stage = stage;
  family = family;
  channel = "";
  model = "";
  weights = "";
  quant = "";
  revision = "1";
  device = cpu;
  cards = 1;
  gpu_lane = none;
  vram_mb = 0;
  ram_mb = 512;
  disk_mb = 0;
  seconds = 10;
  needs = [];
  produces = "claims" ∷ [];
  tier = "core";
  default_on = true;
  kaggle_ok = true;
}

-- `self.weights or self.model or self.id`
unfoldable pub load_key : Component → String
load_key c =
    if str_eq c.weights "" then (if str_eq c.model "" then c.id else c.model) else c.weights
