-- ===== src/Core/Catalog/Response.antt =====
-- `_catalog_response` of backend/pipa_core/core.py: the answer to a `catalog_request`.
use pipa_personal_assistant.Prelude.{String, Option, none, some, List, [], ◌∷◌, Result, ok, err}
use pipa_personal_assistant.Prelude.Int.{pos}
use pipa_personal_assistant.Prelude.Dict.{Dict}
use pipa_personal_assistant.Json.{
  Value, bool, int, str, list, dict, Items, nil, cons, Fields, end, field, of_texts,
}
use pipa_personal_assistant.Protocol.Server.{ServerMessage, error, catalog}
use pipa_personal_assistant.Tools.{Safety, safe, unsafe, ToolDefinition}
use pipa_personal_assistant.Core.Catalog.Parameters.{CatalogError, Parameter}
use pipa_personal_assistant.Core.Catalog.{Command, validate_commands}
use pipa_personal_assistant.Core.Catalog.Capabilities.{
  Capability, flag, text, texts, validate_capability_catalog,
}

abbrev pub safety_name : Safety → String
safety_name safe = "safe"
safety_name unsafe = "unsafe"

abbrev pub options_field : List String → Fields
options_field [] = end
options_field (o ∷ os) = field "options" (list (of_texts (o ∷ os))) end

unfoldable pub parameter_value : Parameter → Value
parameter_value p = dict (
    field "name" (str p.name) (
      field "label" (str p.label) (
        field "kind" (str p.kind)
          (field "max_length" (int (pos p.max_length)) (options_field p.options)))))

unfoldable pub parameter_items : List Parameter → Items
parameter_items [] = nil
parameter_items (p ∷ ps) = cons (parameter_value p) (parameter_items ps)

abbrev pub defaults_field : Option Fields → Fields
defaults_field none = end
defaults_field (some fs) = field "default_arguments" (dict fs) end

abbrev pub parameters_field : Option (List Parameter) → Fields → Fields
parameters_field none fs = fs
parameters_field (some ps) fs = field "parameters" (list (parameter_items ps)) fs

unfoldable pub command_value : Command → Value
unfolding parameter_items
command_value c = dict (
    field "id" (str c.id) (
      field "tool_name" (str c.tool_name) (
        field "phrase" (str c.phrase) (
          field "description" (str c.description) (
            field "safety" (str (safety_name c.safety)) (
              field "requires_confirmation" (bool c.requires_confirmation)
                (parameters_field c.parameters (defaults_field c.default_arguments))))))))

unfoldable pub command_items : List Command → Items
command_items [] = nil
command_items (c ∷ cs) = cons (command_value c) (command_items cs)

abbrev pub capability_value : Capability → Value
capability_value (flag b) = bool b
capability_value (text s) = str s
capability_value (texts ss) = list (of_texts ss)

unfoldable pub group_value : Dict Capability → Fields
group_value [] = end
group_value ((name, c) ∷ cs) = field name (capability_value c) (group_value cs)

unfoldable pub matrix_value : Dict (Dict Capability) → Fields
unfolding group_value
matrix_value [] = end
matrix_value ((name, g) ∷ gs) = field name (dict (group_value g)) (matrix_value gs)

abbrev pub catalog_unavailable : ServerMessage
catalog_unavailable = error "catalog_unavailable"

unfoldable pub with_matrix :
    List Command → Result CatalogError (Dict (Dict Capability)) → ServerMessage
with_matrix commands (ok m) = catalog (command_items commands) (some (matrix_value m))
with_matrix commands (err e) = catalog_unavailable

-- the second `try` block: no callback, a callback that raises, or a matrix to validate
unfoldable pub with_capabilities : List Command → Option (Option Value) → ServerMessage
with_capabilities commands none = catalog (command_items commands) none
with_capabilities commands (some none) = catalog_unavailable
with_capabilities commands (some (some v)) = with_matrix commands (validate_capability_catalog v)

unfoldable pub with_commands :
    Result CatalogError (List Command) → Option (Option Value) → ServerMessage
with_commands (ok commands) caps = with_capabilities commands caps
with_commands (err e) caps = catalog_unavailable

module _ {W : Type 0} where
  -- what the two callbacks return, and the answer
  unfoldable pub catalog_response :
      Dict (ToolDefinition W) → Option (Option (List Value)) → Option (Option Value) → ServerMessage
  catalog_response tools none caps = with_capabilities [] caps
  catalog_response tools (some none) caps = catalog_unavailable
  catalog_response tools (some (some values)) caps =
      with_commands (validate_commands tools values) caps
