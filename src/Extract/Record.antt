-- ===== src/Extract/Record.antt =====
-- `mapExtractResult` and `extractImageMetadata` of metadata-service.ts. The parsers of prompts are
-- parameters here.
use deedlit_dev.Base.{
  ℕ, Option, none, some, List, [], ◌∷◌, or_option, Text, Bytes, to_lower, path_extname,
}
use deedlit_dev.Base.Outcome.{Outcome, returned, ◌>>=◌}
use deedlit_dev.Json.{Json}
use deedlit_dev.Extract.{
  ExtractAssetRef, SourceTool, unknown, ExtractResult, mime_for_extension, Post,
  extract_metadata_from_buffer,
}

pub record ExtractedLora : Type 0 where
  pub name : Text
  pub weight : Option Text

pub record ExtractedGenerationParams : Type 0 where
  pub seed : Option Text
  pub steps : Option Text
  pub cfg_scale : Option Text
  pub sampler : Option Text
  pub scheduler : Option Text
  pub denoise : Option Text
  pub width : Option Text
  pub height : Option Text
  pub clip_skip : Option Text

pub record ExtractedImageRecord : Type 0 where
  pub file_path : Text
  pub filename : Text
  pub extension : Text
  pub sha256_hash : Text
  pub perceptual_hash : Option Text
  pub width : Option Text
  pub height : Option Text
  pub file_size_bytes : ℕ
  pub created_at : Option ℕ
  pub modified_at : Option ℕ
  pub source_tool : Option SourceTool
  pub prompt : Option Text
  pub negative_prompt : Option Text
  pub model : Option Text
  pub workflow_json : Option Json
  pub metadata_json : ExtractResult
  pub tags : List Text
  pub loras : List ExtractedLora
  pub generation_params : ExtractedGenerationParams

pub record InterpretedMetadata : Type 0 where
  pub prompt : Option Text
  pub negative_prompt : Option Text
  pub model : Option Text
  pub source_tool : Option SourceTool
  pub workflow_json : Option Json
  pub tags : List Text
  pub params : ExtractedGenerationParams

unfoldable pub known_tool : SourceTool → Option SourceTool
known_tool unknown = none
known_tool tool = some tool

-- `checkpoints[0]?.name ?? null`.
unfoldable pub first_name : List ExtractAssetRef → Option Text
first_name [] = none
first_name (r ∷ rs) = some r.name

unfoldable pub map_extract_result : ExtractResult → InterpretedMetadata
unfolding known_tool first_name
map_extract_result extract = record {
  prompt = extract.prompt;
  negative_prompt = extract.negative;
  model = first_name extract.references.checkpoints;
  source_tool = known_tool extract.source_tool;
  workflow_json = or_option extract.workflow_json extract.api_prompt_json;
  tags = extract.tags;
  params = record {
    seed = extract.params.seed;
    steps = extract.params.steps;
    cfg_scale = extract.params.cfg;
    sampler = extract.params.sampler;
    scheduler = extract.params.scheduler;
    denoise = extract.params.denoise;
    width = extract.params.width;
    height = extract.params.height;
    clip_skip = extract.params.clipskip;
  };
}

pub record FileStat : Type 0 where
  pub size : ℕ
  pub birthtime : Option ℕ
  pub mtime : Option ℕ

-- The file system, the hashes and image library, the service, and the parsers of prompts. The
-- perceptual hash and the dimensions are `none` where they cannot be had.
pub record Sources : Type 0 where
  pub basename : Text → Text
  pub stat : Text → Outcome FileStat
  pub read_file : Text → Outcome Bytes
  pub compute_sha256 : Text → Outcome Text
  pub perceptual_hash : Text → Option Text
  pub dims : Text → Option Text × Option Text
  pub print : ℕ → Text
  pub metadata_api_url : Text
  pub post : Post
  pub normalize_prompt_tags : Option Text → List Text
  pub parse_loras_from_prompt : Option Text → List ExtractedLora

unfoldable pub tags_or : List Text → List Text → List Text
tags_or [] derived = derived
tags_or (t ∷ ts) derived = t ∷ ts

unfoldable pub image_record :
    Sources → Text → FileStat → Text → ExtractResult → ExtractedImageRecord
unfolding map_extract_result tags_or
image_record src file_path file_stat sha extract =
    let interpreted = map_extract_result extract in
    let size = src.dims file_path in
    record {
      file_path = file_path;
      filename = src.basename file_path;
      extension = to_lower (path_extname file_path);
      sha256_hash = sha;
      perceptual_hash = src.perceptual_hash file_path;
      width = size.0;
      height = size.1;
      file_size_bytes = file_stat.size;
      created_at = file_stat.birthtime;
      modified_at = file_stat.mtime;
      source_tool = interpreted.source_tool;
      prompt = interpreted.prompt;
      negative_prompt = interpreted.negative_prompt;
      model = interpreted.model;
      workflow_json = interpreted.workflow_json;
      metadata_json = extract;
      tags = tags_or interpreted.tags (src.normalize_prompt_tags interpreted.prompt);
      loras = src.parse_loras_from_prompt interpreted.prompt;
      generation_params = record interpreted.params {
        width = or_option interpreted.params.width size.0;
        height = or_option interpreted.params.height size.1;
      };
    }

-- Of the calls that run together, the error of the hash is taken first.
unfoldable pub extract_image_metadata : Sources → Text → Outcome ExtractedImageRecord
extract_image_metadata src file_path = src.stat file_path >>= λ file_stat.
    src.read_file file_path >>= λ buffer. src.compute_sha256 file_path >>= λ sha.
    extract_metadata_from_buffer src.print src.metadata_api_url src.post buffer
      (mime_for_extension (to_lower (path_extname file_path))) (src.basename file_path)
    >>= λ extract. returned (image_record src file_path file_stat sha extract)
