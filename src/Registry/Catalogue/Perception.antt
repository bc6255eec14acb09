-- ===== src/Registry/Catalogue/Perception.antt =====
-- The perception stage of the catalogue of vios/process/registry.py.
use vios_manus.Common.{List, [], ◌∷◌}
use vios_manus.Registry.{Component, component, stage_perception, gpu}

abbrev pub transcribe : Component
transcribe = record (component "transcribe" "Transcribe" stage_perception "audio") {
  channel = "speech";
  model = "Systran/faster-whisper-large-v3";
  weights = "whisper-large-v3";
  quant = "int8_float16";
  revision = "2";
  device = gpu;
  vram_mb = 3100;
  ram_mb = 2048;
  disk_mb = 3100;
  seconds = 90;
  needs = "artifacts" ∷ [];
}

abbrev transcribe_alt : Component
transcribe_alt =
    record (component "transcribe-alt" "Transcribe (second reader)" stage_perception "audio") {
      channel = "speech";
      model = "mobiuslabsgmbh/faster-whisper-large-v3-turbo";
      weights = "whisper-turbo";
      quant = "int8_float16";
      revision = "2";
      device = gpu;
      vram_mb = 1600;
      disk_mb = 1600;
      seconds = 50;
      needs = "artifacts" ∷ [];
    }

abbrev diarize : Component
diarize = record (component "diarize" "Speakers" stage_perception "audio") {
  channel = "speech";
  model = "pyannote/speaker-diarization-3.1";
  weights = "pyannote-3.1";
  revision = "2";
  device = gpu;
  vram_mb = 1400;
  disk_mb = 100;
  seconds = 70;
  needs = "artifacts" ∷ [];
}

abbrev audio_tag : Component
audio_tag = record (component "audio-tag" "Sound events" stage_perception "audio") {
  channel = "audio";
  model = "laion/clap-htsat-fused";
  weights = "clap-panns";
  revision = "2";
  device = gpu;
  vram_mb = 1300;
  disk_mb = 1800;
  seconds = 140;
  needs = "artifacts" ∷ [];
  produces = "claims" ∷ "vectors" ∷ "metrics" ∷ [];
}

abbrev pub ocr : Component
ocr = record (component "ocr" "On-screen text" stage_perception "vision") {
  channel = "ocr";
  model = "PaddlePaddle/PP-OCRv5";
  weights = "ppocr-v5";
  revision = "2";
  device = gpu;
  vram_mb = 1500;
  disk_mb = 400;
  seconds = 900;
  needs = "allframes" ∷ [];
}

abbrev ocr_alt : Component
ocr_alt = record (component "ocr-alt" "On-screen text (second reader)" stage_perception "vision") {
  channel = "ocr";
  model = "microsoft/Florence-2-large";
  weights = "florence-2-large";
  quant = "fp16";
  revision = "2";
  device = gpu;
  vram_mb = 1700;
  disk_mb = 1600;
  seconds = 1100;
  needs = "allframes" ∷ [];
}

abbrev pub detect : Component
detect = record (component "detect" "Objects" stage_perception "vision") {
  channel = "visual";
  model = "Ultralytics/YOLO11";
  weights = "yolo11x";
  quant = "fp16";
  revision = "2";
  device = gpu;
  vram_mb = 1200;
  disk_mb = 120;
  seconds = 700;
  needs = "allframes" ∷ [];
}

abbrev faces : Component
faces = record (component "faces" "Faces and framing" stage_perception "vision") {
  channel = "visual";
  model = "deepinsight/insightface-scrfd";
  weights = "insightface";
  revision = "2";
  device = gpu;
  vram_mb = 900;
  disk_mb = 350;
  seconds = 600;
  needs = "allframes" ∷ [];
}

abbrev depth : Component
depth = record (component "depth" "Shot scale" stage_perception "vision") {
  channel = "style";
  model = "depth-anything/Depth-Anything-V2-Small-hf";
  weights = "depth-anything-v2-s";
  quant = "fp16";
  revision = "3";
  device = gpu;
  vram_mb = 500;
  disk_mb = 100;
  seconds = 450;
  needs = "allframes" ∷ [];
  produces = "claims" ∷ "metrics" ∷ [];
  tier = "optional";
}

abbrev visual_embed : Component
visual_embed = record (component "visual-embed" "Visual embedding" stage_perception "vision") {
  channel = "visual";
  model = "google/siglip2-so400m-patch14-384";
  weights = "siglip2-so400m";
  quant = "fp16";
  revision = "2";
  device = gpu;
  vram_mb = 1800;
  disk_mb = 1700;
  seconds = 400;
  needs = "allframes" ∷ [];
  produces = "vectors" ∷ [];
}

abbrev clip_embed : Component
clip_embed =
    record (component "clip-embed" "Visual embedding (second space)" stage_perception "vision") {
      channel = "visual";
      model = "openai/clip-vit-large-patch14";
      weights = "openai/clip-vit-large-patch14";
      quant = "fp16";
      device = gpu;
      vram_mb = 1700;
      disk_mb = 1700;
      seconds = 350;
      needs = "allframes" ∷ [];
      produces = "vectors" ∷ [];
    }

abbrev pub tag : Component
tag = record (component "tag" "Zero-shot tags" stage_perception "vision") {
  channel = "visual";
  revision = "2";
  seconds = 20;
  needs = "visual-embed" ∷ [];
}

abbrev aesthetic : Component
aesthetic = record (component "aesthetic" "Frame quality" stage_perception "vision") {
  channel = "style";
  weights = "aesthetic-probe";
  revision = "2";
  device = gpu;
  vram_mb = 200;
  seconds = 250;
  needs = "visual-embed" ∷ "allframes" ∷ [];
  produces = "claims" ∷ "metrics" ∷ [];
  tier = "optional";
}

-- _PERCEPTION
abbrev pub perception_components : List Component
perception_components =
    transcribe ∷ transcribe_alt ∷ diarize ∷ audio_tag ∷ ocr ∷ ocr_alt ∷ detect ∷ faces ∷ depth
    ∷ visual_embed ∷ clip_embed ∷ tag ∷ aesthetic ∷ []
