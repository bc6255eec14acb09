-- ===== src/Registry/Catalogue/Signal.antt =====
-- The signal stage of the catalogue of vios/process/registry.py.
use vios_manus.Common.{List, [], ◌∷◌}
use vios_manus.Registry.{Component, component, stage_signal}

abbrev pub caption : Component
caption = record (component "caption" "Caption and comments" stage_signal "signal") {
  channel = "caption";
  seconds = 2;
}

abbrev pub cuts : Component
cuts = record (component "cuts" "Cut rhythm" stage_signal "signal") {
  channel = "style";
  seconds = 2;
  needs = "shots" ∷ [];
}

abbrev perframe : Component
perframe = record (component "perframe" "Per-frame measurement" stage_signal "signal") {
  channel = "style";
  revision = "2";
  ram_mb = 1024;
  seconds = 100;
  needs = "allframes" ∷ [];
  produces = "claims" ∷ "metrics" ∷ [];
}

abbrev pub colour : Component
colour = record (component "colour" "Colour" stage_signal "signal") {
  channel = "style";
  revision = "2";
  seconds = 120;
  needs = "keyframes" ∷ "allframes" ∷ [];
  produces = "claims" ∷ "metrics" ∷ [];
}

abbrev pub motion : Component
motion = record (component "motion" "Motion and camera" stage_signal "signal") {
  channel = "style";
  revision = "2";
  seconds = 250;
  needs = "shots" ∷ "allframes" ∷ [];
  produces = "claims" ∷ "metrics" ∷ [];
}

abbrev pub loudness : Component
loudness = record (component "loudness" "Loudness" stage_signal "signal") {
  channel = "audio";
  revision = "2";
  seconds = 15;
  needs = "artifacts" ∷ [];
  produces = "claims" ∷ "metrics" ∷ [];
}

abbrev music : Component
music = record (component "music" "Tempo and key" stage_signal "signal") {
  channel = "audio";
  seconds = 40;
  needs = "artifacts" ∷ [];
}

-- _SIGNAL
abbrev pub signal_components : List Component
signal_components = caption ∷ cuts ∷ perframe ∷ colour ∷ motion ∷ loudness ∷ music ∷ []
