-- ===== src/Registry/Catalogue/Language.antt =====
-- The language stage of the catalogue of vios/process/registry.py.
use vios_manus.Common.{List, [], ◌∷◌, some, false}
use vios_manus.Registry.{Component, component, stage_language, gpu}

abbrev describe : Component
describe = record (component "describe" "Describe shots" stage_language "vlm") {
  channel = "visual";
  model = "Qwen/Qwen3-VL-8B-Instruct-AWQ";
  weights = "qwen3-vl-8b-awq";
  quant = "awq";
  device = gpu;
  gpu_lane = some 1;
  vram_mb = 6200;
  ram_mb = 3072;
  disk_mb = 6000;
  seconds = 180;
  needs = "keyframes" ∷ "shots" ∷ [];
}

abbrev narrate : Component
narrate = record (component "narrate" "Narrative" stage_language "vlm") {
  channel = "narrative";
  model = "Qwen/Qwen3-VL-8B-Instruct-AWQ";
  weights = "qwen3-vl-8b-awq";
  quant = "awq";
  device = gpu;
  gpu_lane = some 1;
  vram_mb = 6200;
  ram_mb = 3072;
  seconds = 200;
  needs = "describe" ∷ "transcribe" ∷ "ocr" ∷ "loudness" ∷ "cuts" ∷ [];
}

abbrev style_read : Component
style_read = record (component "style-read" "Craft" stage_language "vlm") {
  channel = "style";
  model = "Qwen/Qwen3-VL-8B-Instruct-AWQ";
  weights = "qwen3-vl-8b-awq";
  quant = "awq";
  device = gpu;
  gpu_lane = some 1;
  vram_mb = 6200;
  ram_mb = 3072;
  seconds = 120;
  needs = "describe" ∷ "colour" ∷ "motion" ∷ "cuts" ∷ [];
}

abbrev keyphrase : Component
keyphrase = record (component "keyphrase" "Keyphrases" stage_language "text") {
  channel = "concept";
  seconds = 6;
  needs = "transcribe" ∷ "ocr" ∷ "caption" ∷ [];
}

abbrev concepts : Component
concepts = record (component "concepts" "Concepts and entities" stage_language "text") {
  channel = "concept";
  model = "Qwen/Qwen3-4B-Instruct-AWQ";
  weights = "qwen3-4b-awq";
  quant = "awq";
  device = gpu;
  gpu_lane = some 1;
  vram_mb = 3400;
  disk_mb = 3000;
  seconds = 80;
  needs = "transcribe" ∷ "ocr" ∷ "caption" ∷ "keyphrase" ∷ [];
}

abbrev text_embed : Component
text_embed = record (component "text-embed" "Text embedding" stage_language "text") {
  channel = "concept";
  model = "BAAI/bge-m3";
  weights = "bge-m3";
  quant = "fp16";
  device = gpu;
  vram_mb = 2400;
  disk_mb = 2300;
  seconds = 20;
  needs = "transcribe" ∷ "caption" ∷ [];
  produces = "vectors" ∷ [];
}

abbrev hook : Component
hook = record (component "hook" "Hook analysis" stage_language "signal") {
  channel = "narrative";
  seconds = 3;
  needs = "transcribe" ∷ "ocr" ∷ "cuts" ∷ "loudness" ∷ "describe" ∷ [];
}

abbrev narrate_deep : Component
narrate_deep = record (component "narrate-deep" "Narrative (38B)" stage_language "vlm") {
  channel = "narrative";
  model = "OpenGVLab/InternVL3-38B-AWQ";
  weights = "internvl3-38b-awq";
  quant = "awq";
  device = gpu;
  cards = 2;
  vram_mb = 21500;
  ram_mb = 6144;
  disk_mb = 21000;
  seconds = 950;
  needs = "describe" ∷ "transcribe" ∷ "ocr" ∷ "narrate" ∷ [];
  tier = "deep";
  default_on = false;
}

abbrev narrate_cloud : Component
narrate_cloud = record (component "narrate-cloud" "Narrative (cloud)" stage_language "cloud") {
  channel = "narrative";
  ram_mb = 256;
  seconds = 250;
  needs = "describe" ∷ "transcribe" ∷ "ocr" ∷ "narrate" ∷ "detect" ∷ [];
  tier = "deep";
}

-- _LANGUAGE
abbrev pub language_components : List Component
language_components =
    describe ∷ narrate ∷ style_read ∷ keyphrase ∷ concepts ∷ text_embed ∷ hook ∷ narrate_deep
    ∷ narrate_cloud ∷ []
