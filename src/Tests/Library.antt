-- ===== src/Tests/Library.antt =====
-- The configuration, a record of an image without metadata, and the tags of a prompt.
use deedlit_dev.Base.{
  ◌≡◌, refl, false, not, ◌&&◌, none, some, [], ◌∷◌, map, if◌then◌else◌, Text, codes, text_eq, has,
  trim, lower_unit, split_at, IsDistinct, extname, cut_last_dot, last_name_from, path_extname,
}
use deedlit_dev.Base.Decimal.{show}
use deedlit_dev.Base.Outcome.{returned}
use deedlit_dev.Config
use deedlit_dev.Config.{
  Env, LibraryConfig, get_library_config, get_library_config-reset, reset_library_config_cache,
  read_config, ends_slash, env_string, strip_slashes, drop_slashes,
}
use deedlit_dev.Extract.{
  answered, empty_extract_result, extract_metadata_from_buffer, read_response,
}
use deedlit_dev.Extract.Record.{Sources, FileStat, extract_image_metadata, image_record}
use deedlit_dev.PromptTags.{
  extract_tags_from_prompt, tags_of, unseen, normalize_tag, normalize_prompt_token,
  normalize_excluded_tags, to_excluded_tag_set, is_not_empty, extract_tags_from_prompt-IsDistinct,
}

abbrev runtime : Config.Runtime
runtime = record { resolve = λ p. p; data_path = λ p. p; parse_int = λ t. none }

abbrev bare : Env
bare key = none

abbrev public_url : Env
public_url key =
    if text_eq key (codes "COMFYHELPER_PUBLIC_URL") then some (codes " http://h// ") else none

url_runs : (read_config runtime public_url).public_base_url ≡ codes "http://h"
unfolding read_config env_string strip_slashes drop_slashes text_eq trim
url_runs = refl

get_library_config-reset_example :
    let (config, kept) = get_library_config runtime public_url (reset_library_config_cache none) in
    (config ≡ read_config runtime public_url)
    × (ends_slash config.public_base_url ≡ false)
    × (ends_slash config.metadata_api_url ≡ false)
    × (get_library_config runtime bare kept ≡ (config, kept))
get_library_config-reset_example = get_library_config-reset runtime public_url bare none

abbrev stats : FileStat
stats = record { size = 9; birthtime = none; mtime = some 3 }

abbrev sources : Sources
sources = record {
  basename = λ p. p;
  stat = λ p. returned stats;
  read_file = λ p. returned (1 ∷ 2 ∷ []);
  compute_sha256 = λ p. returned (codes "abc");
  perceptual_hash = λ p. none;
  dims = λ p. (some (codes "64"), some (codes "32"));
  print = show;
  metadata_api_url = codes "http://m";
  post = λ url bytes mime name. answered 422 [] (returned empty_extract_result);
  normalize_prompt_tags = λ p. [];
  parse_loras_from_prompt = λ p. [];
}

-- A file whose path has no extension, and one that has: what is recorded of them.
records_run :
    (extract_image_metadata sources (codes "/d/.png")
      ≡ returned (image_record sources (codes "/d/.png") stats (codes "abc") empty_extract_result))
    × (path_extname (codes "/d/.png") ≡ [])
    × (path_extname (codes "/a.b/c") ≡ [])
    × (path_extname (codes "/a.b/c.d.PNG/") ≡ codes ".PNG")
unfolding extract_image_metadata extract_metadata_from_buffer read_response path_extname extname
    last_name_from cut_last_dot text_eq
records_run = (refl, refl, refl, refl)

tags_run :
    extract_tags_from_prompt (some (codes " Red fox, ,tree,RED FOX")) (some (codes "Tree" ∷ []))
    ≡ codes "red fox" ∷ []
unfolding extract_tags_from_prompt tags_of unseen normalize_tag normalize_prompt_token
    normalize_excluded_tags to_excluded_tag_set split_at trim has text_eq lower_unit
tags_run = refl

extract_tags_from_prompt-IsDistinct_example :
    let tags = extract_tags_from_prompt (some (codes "a,b,a")) none in
    IsDistinct tags
    × ((t : Text)
        → has t tags ≡ (
            (has t (map normalize_prompt_token (split_at b',' (codes "a,b,a"))) && is_not_empty t)
            && not (has t (to_excluded_tag_set none))))
extract_tags_from_prompt-IsDistinct_example =
    extract_tags_from_prompt-IsDistinct (codes "a,b,a") none
