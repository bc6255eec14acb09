-- ===== src/Registry/Catalogue/Structure.antt =====
-- The structure stage of the catalogue of vios/process/registry.py.
use vios_manus.Common.{List, [], ◌∷◌}
use vios_manus.Registry.{Component, component, stage_structure, gpu}

abbrev pub probe : Component
probe = record (component "probe" "Probe" stage_structure "ffmpeg") {
  ram_mb = 128;
  seconds = 8;
  produces = "video" ∷ [];
}

abbrev pub artifacts : Component
artifacts = record (component "artifacts" "Artifacts" stage_structure "ffmpeg") {
  ram_mb = 1024;
  seconds = 140;
  produces = "artifacts" ∷ [];
}

abbrev pub shots : Component
shots = record (component "shots" "Shot detection" stage_structure "vision") {
  model = "Soulter/TransNetV2";
  weights = "transnetv2";
  device = gpu;
  vram_mb = 700;
  ram_mb = 1536;
  disk_mb = 90;
  seconds = 50;
  needs = "artifacts" ∷ [];
  produces = "shots" ∷ [];
}

abbrev pub keyframes : Component
keyframes = record (component "keyframes" "Keyframes" stage_structure "ffmpeg") {
  ram_mb = 1024;
  seconds = 30;
  needs = "shots" ∷ [];
  produces = "artifacts" ∷ [];
}

abbrev pub allframes : Component
allframes = record (component "allframes" "All frames" stage_structure "ffmpeg") {
  ram_mb = 1024;
  seconds = 450;
  needs = "probe" ∷ [];
  produces = "artifacts" ∷ [];
}

-- _STRUCTURE
abbrev pub structure_components : List Component
structure_components = probe ∷ artifacts ∷ shots ∷ keyframes ∷ allframes ∷ []
