-- ===== src/Core/Catalog/Sound.antt =====
-- What the catalog that reaches a device satisfies.
use pipa_personal_assistant.Prelude.{
  suc, ◌≤◌, ltb, ◌≡◌, refl, String, Bool, true, false, ◌&&◌, not, Option, List, [], ◌∷◌, length, ap,
  contains, Result, ok, err, ◌>>=◌, Ensures, Ensures-of_eq, Ensures_eq, Ensures-bind,
  Ensures-require, Ensures-any, arith,
}
use pipa_personal_assistant.Prelude.Text.{len, is_empty, strip}
use pipa_personal_assistant.Prelude.Text.Laws.{len-strip}
use pipa_personal_assistant.Prelude.Dict.{Dict}
use pipa_personal_assistant.Json.{Value, null, str, dict, Fields, get_field}
use pipa_personal_assistant.Tools.{Safety, is_unsafe, ToolDefinition, get_tool}
use pipa_personal_assistant.Core.Captions.{get}
use pipa_personal_assistant.Core.Catalog.Parameters.{
  CatalogError, max_commands, max_field_length, Parameter, no_unknown_keys, validate_parameters,
  validate_default_arguments,
}
use pipa_personal_assistant.Core.Catalog.{
  Command, command_text, as_safety, as_flag, if_present, is_fixed_and_editable, same_flag,
  registered, validate_command, validate_commands_from, validate_commands,
}

abbrev pub IsCommandText : String → Type 0
IsCommandText s = (is_empty s ≡ false) × (len s ≤ max_field_length)

-- The command names a registered tool, states that tool's safety, asks for a confirmation exactly
-- if the tool is unsafe, and its texts are neither empty nor long.
pub record IsCommand {W : Type 0} (catalog : Dict (ToolDefinition W)) (c : Command) : Type 0 where
  pub definition : ToolDefinition W
  pub known : get_tool c.tool_name catalog ≡ ok definition
  pub agrees : is_unsafe c.safety ≡ is_unsafe definition.safety
  pub confirmed : c.requires_confirmation ≡ is_unsafe definition.safety
  pub one_kind : is_fixed_and_editable c.default_arguments c.parameters ≡ false
  pub texts :
      IsCommandText c.id
      × IsCommandText c.tool_name
      × IsCommandText c.phrase
      × IsCommandText c.description

command_text-Ensures : (v : Value) → Ensures (λ s. IsCommandText (strip s)) (command_text v)
unfolding command_text
command_text-Ensures (str s) = ground (arith, len-strip s)
command_text-Ensures null = tt
command_text-Ensures _ = tt

and_left : (a b : Bool) → (a && b) ≡ true → a ≡ true
and_left a b h = ground arith

and_right : (a b : Bool) → (a && b) ≡ true → b ≡ true
and_right a b h = ground arith

not-true : (b : Bool) → not b ≡ true → b ≡ false
not-true b h = ground arith

same_flag_eq : (a b : Bool) → same_flag a b ≡ true → a ≡ b
same_flag_eq true b h = ground arith
same_flag_eq false b h = ground arith

abbrev command :
    String
    → String
    → String
    → String
    → Safety
    → Bool
    → Option (List Parameter)
    → Option Fields
    → Command
command id tool phrase description safety flag ps ds = record {
  id = strip id;
  tool_name = strip tool;
  phrase = strip phrase;
  description = strip description;
  safety = safety;
  requires_confirmation = flag;
  parameters = ps;
  default_arguments = ds;
}

module _ {W : Type 0} (catalog : Dict (ToolDefinition W)) where
  registered-Ensures :
      (name : String) → Ensures (λ d. get_tool name catalog ≡ ok d) (registered name catalog)
  unfolding registered
  registered-Ensures name =
      elim (get_tool name catalog)
        as (λ r.
          Ensures (λ d. r ≡ ok d)
            (elim r [ ok d ↦ ok d | err _ ↦ err CatalogError.unknown_tool ])) [
              | ok d ↦ refl
              | err _ ↦ tt
            ]

  -- What an entry becomes: a command of the catalog, with a new identifier.
  abbrev IsNew : List String → Command → Type 0
  IsNew seen c = IsCommand catalog c × (contains c.id seen ≡ false)

  module _ {A : Type 0} (seen : List String) (P : A → Type 0) where
    -- one step of the `do` block of an entry
    and_then :
        (m : Result CatalogError A) (f : A → Result CatalogError Command)
        → Ensures P m
        → ((a : A) → P a → Ensures (IsNew seen) (f a))
        → Ensures (IsNew seen) (m >>= f)
    and_then m f = Ensures-bind P (IsNew seen) m f

  validate_command-Ensures :
      (seen : List String) (v : Value) → Ensures (IsNew seen) (validate_command catalog seen v)
  unfolding validate_command
  validate_command-Ensures seen (dict c) =
      and_then seen (λ _. Unit) _ _ (Ensures-any (no_unknown_keys _ _ c))
        λ _ _.
          and_then seen (λ _. Unit) _ _
            (Ensures-any (if_present validate_parameters (get_field "parameters" c)))
            λ ps _.
              and_then seen (λ _. Unit) _ _
                (Ensures-any
                  (if_present validate_default_arguments (get_field "default_arguments" c)))
                λ ds _. Ensures-require (IsNew seen) (not (is_fixed_and_editable ds ps)) _ _ λ kind.
                  and_then seen (λ s. IsCommandText (strip s)) _ _
                    (command_text-Ensures (get "id" c))
                    λ id hid.
                      and_then seen (λ s. IsCommandText (strip s)) _ _
                        (command_text-Ensures (get "tool_name" c))
                        λ tool htool.
                          and_then seen (λ s. IsCommandText (strip s)) _ _
                            (command_text-Ensures (get "phrase" c))
                            λ phrase hphrase.
                              and_then seen (λ s. IsCommandText (strip s)) _ _
                                (command_text-Ensures (get "description" c))
                                λ description hdescription.
                                  and_then seen (λ _. Unit) _ _
                                    (Ensures-any (as_safety (get "safety" c)))
                                    λ safety _.
                                      and_then seen (λ _. Unit) _ _
                                        (Ensures-any (as_flag (get "requires_confirmation" c)))
                                        λ flag _.
                                          and_then seen (λ d. get_tool (strip tool) catalog ≡ ok d)
                                            _ _ (registered-Ensures (strip tool))
                                            λ d hd.
                                              Ensures-require (IsNew seen)
                                                (same_flag (is_unsafe safety) (is_unsafe d.safety)
                                                  && same_flag flag (is_unsafe d.safety))
                                                _ _
                                                λ agree.
                                                  Ensures-require (IsNew seen)
                                                    (not (contains (strip id) seen)) _
                                                    (ok (
                                                      command id tool phrase description safety flag
                                                        ps ds))
                                                    λ new. (
                                                      record {
                                                        definition = d;
                                                        known = hd;
                                                        agrees =
                                                            same_flag_eq _ _ (and_left _ _ agree);
                                                        confirmed =
                                                            same_flag_eq _ _ (and_right _ _ agree);
                                                        one_kind = not-true _ kind;
                                                        texts = (hid, htool, hphrase, hdescription);
                                                      },
                                                      not-true _ new,
                                                    )
  validate_command-Ensures seen null = tt
  validate_command-Ensures seen _ = tt

  unfoldable pub AreCommands : List String → List Command → Type 0
  AreCommands seen [] = Unit
  AreCommands seen (c ∷ cs) = IsNew seen c × AreCommands (c.id ∷ seen) cs

  validate_commands_from-Ensures :
      (seen : List String) (vs : List Value)
      → Ensures
          (λ cs. AreCommands seen cs × (length cs ≡ length vs))
          (validate_commands_from catalog seen vs)
  unfolding validate_commands_from AreCommands
  validate_commands_from-Ensures seen [] = (tt, refl)
  validate_commands_from-Ensures seen (v ∷ vs) =
      Ensures-bind (IsNew seen) (λ cs. AreCommands seen cs × (length cs ≡ suc (length vs))) _ _
        (validate_command-Ensures seen v)
        λ c hc.
          Ensures-bind (λ cs. AreCommands (c.id ∷ seen) cs × (length cs ≡ length vs))
            (λ cs. AreCommands seen cs × (length cs ≡ suc (length vs))) _ _
            (validate_commands_from-Ensures (c.id ∷ seen) vs)
            λ rest hrest. ((hc, hrest.0), ap suc hrest.1)

  -- The commands that a catalog response carries are at most 64. Each names a registered tool and
  -- states its safety, asks for a confirmation exactly if the tool is unsafe, does not have both
  -- fixed and editable arguments, has texts that are not empty and of at most 256 characters, and
  -- has an identifier that no earlier command has.
  pub validate_commands-AreCommands :
      (vs : List Value)
      → Ensures
          (λ cs. AreCommands [] cs × (length cs ≤ max_commands))
          (validate_commands catalog vs)
  unfolding validate_commands AreCommands
  validate_commands-AreCommands vs =
      Ensures-require (λ cs. AreCommands [] cs × (length cs ≤ max_commands))
        (not (ltb max_commands (length vs))) _ _
        λ few.
          Ensures-of_eq (λ cs. AreCommands [] cs × (length cs ≤ max_commands)) _
            λ cs e.
              let h =
                Ensures_eq (λ cs. AreCommands [] cs × (length cs ≡ length vs)) _
                  (validate_commands_from-Ensures [] vs) e in
              (h.0, ground (arith, few, h.1))
