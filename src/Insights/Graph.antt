-- ===== src/Insights/Graph.antt =====
-- `extractFromComfyPromptGraph` of lib/metadata-parsing.ts: the sampler of a ComfyUI graph, with
-- the prompts and the model that its inputs refer to.
use deedlit_dev.Base.{
  Bool, true, false, not, ◌&&◌, ◌||◌, Option, none, some, List, [], ◌∷◌, map, if◌then◌else◌,
  or_option, find, Text, codes, text_eq, includes, join,
}
use deedlit_dev.Json.{Json, num, str, arr, obj, Items, nil, cons, Fields, end, field, own, prop}
use deedlit_dev.Insights.{Parser, lowered, maybe_parse_json_string, to_display_value}

-- `PromptMetadataInsights`: a property that is undefined or absent is nothing.
pub record Insights : Type 0 where
  pub positive_prompt : Option Text
  pub negative_prompt : Option Text
  pub model : Option Text
  pub sampler : Option Text
  pub cfg_scale : Option Text
  pub steps : Option Text
  pub seed : Option Text
  pub scheduler : Option Text
  pub size : Option Text

abbrev pub no_insights : Insights
no_insights = record {
  positive_prompt = none;
  negative_prompt = none;
  model = none;
  sampler = none;
  cfg_scale = none;
  steps = none;
  seed = none;
  scheduler = none;
  size = none;
}

pub record Node : Type 0 where
  pub class_type : Text
  pub inputs : Fields

-- Where a reference is empty it counts as none.
abbrev pub scalar_text : Option Json → Option Text
scalar_text (some (str t)) = some t
scalar_text (some (num n)) = some n
scalar_text _ = none

abbrev pub first_item : Items → Option Json
first_item nil = none
first_item (cons v vs) = some v

unfoldable pub resolve_node_reference : Option Json → Option Text
resolve_node_reference (some (arr items)) = scalar_text (first_item items)
resolve_node_reference v = scalar_text v

-- `nodes[id]`; what the objects inherit has no inputs.
unfoldable pub node_at : Text → List (Text × Node) → Option Node
node_at id [] = none
node_at id ((k, node) ∷ nodes) = if text_eq k id then some node else node_at id nodes

abbrev pub input : Node → Text → Option Text
input node key = to_display_value (own key node.inputs)

-- The texts that are there, and not empty.
unfoldable pub present : List (Option Text) → List Text
present [] = []
present (none ∷ ts) = present ts
present (some [] ∷ ts) = present ts
present (some (c ∷ t) ∷ ts) = (c ∷ t) ∷ present ts

abbrev pub lines_of : List Text → Option Text
lines_of [] = none
lines_of (p ∷ ps) = some (join (codes "\n") (p ∷ ps))

abbrev pub node_for : Option Text → List (Text × Node) → Option Node
node_for none nodes = none
node_for (some []) nodes = none
node_for (some (c ∷ id)) nodes = node_at (c ∷ id) nodes

unfoldable pub extract_text_from_prompt_node : Option Text → List (Text × Node) → Option Text
unfolding node_at present own to_display_value join
extract_text_from_prompt_node id nodes = elim (node_for id nodes) [
  | none ↦ none
  | some node ↦ lines_of (
      present (
        input node (codes "text") ∷ input node (codes "text_g") ∷ input node (codes "text_l") ∷ []))
]

-- The node of one entry of the graph, where it has a class and inputs.
unfoldable pub node_of : Json → Option Node
unfolding to_display_value prop
node_of v = elim (to_display_value (prop (codes "class_type") v)) [
  | none ↦ none
  | some [] ↦ none
  | some (c ∷ class) ↦ elim (prop (codes "inputs") v) [
    | none ↦ none
    | some w ↦ elim w [
      | obj fs ↦ some (record { class_type = c ∷ class; inputs = fs })
      | other ↦ none
    ]
  ]
]

-- The nodes of the graph, in the order of its entries.
unfoldable pub nodes_of : Fields → List (Text × Node)
unfolding node_of
nodes_of end = []
nodes_of (field id v fs) = elim (node_of v) [
  | none ↦ nodes_of fs
  | some node ↦ (id, node) ∷ nodes_of fs
]

unfoldable pub is_sampler : Node → Bool
unfolding lowered includes
is_sampler node = includes (codes "ksampler") (lowered node.class_type)

unfoldable pub is_loader : Node → Bool
unfolding lowered includes
is_loader node =
    let class = lowered node.class_type in
    includes (codes "checkpointloader") class || includes (codes "unetloader") class

abbrev pub is_there : Option Node → Bool
is_there none = false
is_there (some node) = true

-- The loop over the nodes, with what it has found, which ends when it has found both.
unfoldable pub scan : List (Text × Node) → Option Node → Option Node → Option Node × Option Node
scan [] sampler loader = (sampler, loader)
scan ((id, node) ∷ nodes) sampler loader =
    let sampler1 = if not (is_there sampler) && is_sampler node then some node else sampler in
    let loader1 = if not (is_there loader) && is_loader node then some node else loader in
    let rest = scan nodes sampler1 loader1 in
    if is_there sampler1 && is_there loader1 then (sampler1, loader1) else rest

abbrev pub model_of : Node → Option Text
model_of node =
    or_option (input node (codes "ckpt_name"))
      (or_option (input node (codes "model_name")) (input node (codes "unet_name")))

-- `!modelName`: nothing, or the empty text.
abbrev pub is_named : Option Text → Bool
is_named none = false
is_named (some []) = false
is_named (some (c ∷ t)) = true

abbrev pub model_via : Option Node → Option Text
model_via none = none
model_via (some node) = model_of node

-- `Object.values(nodes).find(...)`.
abbrev pub find_loader : List (Text × Node) → Option Node
find_loader nodes = find is_loader (map (λ (e : Text × Node). e.1) nodes)

-- The model by the sampler's reference, or of a loader.
unfoldable pub model_name : Option Text → Option Node → List (Text × Node) → Option Text
model_name reference loader nodes =
    let name = model_via (node_for reference nodes) in
    let loader1 =
      if not (is_named name) && not (is_there loader) then find_loader nodes else loader in
    if not (is_named name) && is_there loader1 then model_via loader1 else name

unfoldable pub extract_from_comfy_prompt_graph : Parser → Json → Insights
unfolding maybe_parse_json_string nodes_of scan model_name extract_text_from_prompt_node
    resolve_node_reference
extract_from_comfy_prompt_graph parse prompt = elim (maybe_parse_json_string parse prompt) [
  | obj graph ↦
      let nodes = nodes_of graph in
      let (sampler, loader) = scan nodes none none in
      elim sampler [
        | none ↦ no_insights
        | some node ↦
            let reference = λ (key : Text). resolve_node_reference (own key node.inputs) in
            record no_insights {
              positive_prompt = extract_text_from_prompt_node (reference (codes "positive")) nodes;
              negative_prompt = extract_text_from_prompt_node (reference (codes "negative")) nodes;
              model = model_name (reference (codes "model")) loader nodes;
              sampler = input node (codes "sampler_name");
              cfg_scale = input node (codes "cfg");
              steps = input node (codes "steps");
              seed = input node (codes "seed");
              scheduler = input node (codes "scheduler");
            }
      ]
  | other ↦ no_insights
]
