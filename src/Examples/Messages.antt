-- ===== src/Examples/Messages.antt =====
-- The theorems on messages, captions, the catalog and the memory, applied to small ones.
use pipa_personal_assistant.Prelude.{
  ◌≡◌, ◌≤◌, refl, true, false, some, [], ◌∷◌, ok, contains, length, Ensures, if◌then◌else◌, ◌==◌,
  arith,
}
use pipa_personal_assistant.Prelude.Int.{pos}
use pipa_personal_assistant.Prelude.Text.{strip, len, every}
use pipa_personal_assistant.Json.{
  Value, list, cons, nil, bool, int, str, dict, end, field, get_field, field_names,
}
use pipa_personal_assistant.Protocol.{ping}
use pipa_personal_assistant.Protocol.Parse.{
  parse_client_message, check_type, message_type, check_fields, keys_outside, message_fields,
  parse_fields,
}
use pipa_personal_assistant.Protocol.Checks.{
  protocol_version, equals_version, check_optional_string, check_string, is_plain_text,
}
use pipa_personal_assistant.Protocol.Parse.Checked.{InBounds}
use pipa_personal_assistant.Protocol.Parse.Bounds.{parse-InBounds}
use pipa_personal_assistant.Protocol.Server.{
  server_message, type_name, keyword_fields, envelope, error,
}
use pipa_personal_assistant.Protocol.Server.Contract.{server_message-envelope}
use pipa_personal_assistant.Core.Captions.{safe_result_caption}
use pipa_personal_assistant.Core.Captions.Redaction.{redacted, safe_result_caption-shown}
use pipa_personal_assistant.Core.Catalog.{validate_commands}
use pipa_personal_assistant.Core.Catalog.Sound.{AreCommands, validate_commands-AreCommands}
use pipa_personal_assistant.Memory.{remember, recall, is_fact, has_room, add_fact}
use pipa_personal_assistant.Memory.Bounds.{Inv, recall-remember}
use pipa_personal_assistant.Examples.{tools}

abbrev ping_payload : Value
ping_payload = dict (
    field "protocol_version" (int (pos 1))
      (field "type" (str "ping") (field "request_id" (str "r1") end)))

ping_parsed : parse_client_message ping_payload ≡ ok (ping (some "r1"))
unfolding parse_client_message check_type get_field message_type check_fields keys_outside
    field_names contains message_fields protocol_version equals_version parse_fields
    check_optional_string check_string is_plain_text strip len every
ping_parsed = refl

parse-InBounds_example : InBounds (ping (some "r1"))
parse-InBounds_example = parse-InBounds ping_payload (ping (some "r1")) ping_parsed

server_message-envelope_example :
    server_message "error" (keyword_fields (error "rate_limited"))
    ≡ ok (envelope "error" (keyword_fields (error "rate_limited")))
unfolding type_name
server_message-envelope_example = server_message-envelope (error "rate_limited")

safe_result_caption-shown_example :
    safe_result_caption "timer_list" (field "timers" (list (cons (str "tea") nil)) end)
    ≡ safe_result_caption "timer_list" (field "timers" (list (cons (str "egg") nil)) end)
unfolding get_field redacted
safe_result_caption-shown_example =
    safe_result_caption-shown "timer_list" (field "timers" (list (cons (str "tea") nil)) end)
      (field "timers" (list (cons (str "egg") nil)) end)
      (
        refl,
        (
          refl,
          (
            refl,
            (
              refl,
              (
                refl,
                (
                  refl,
                  (
                    refl,
                    (
                      refl,
                      (
                        refl,
                        (refl, (refl, (refl, (refl, (refl, (refl, (refl, (refl, (refl, tt))))))))),
                      ),
                    ),
                  ),
                ),
              ),
            ),
          ),
        ),
      )

abbrev entry : Value
entry = dict (
    field "id" (str "c") (
      field "tool_name" (str "counter") (
        field "phrase" (str "count") (
          field "description" (str "Count up.")
            (field "safety" (str "safe") (field "requires_confirmation" (bool false) end))))))

validate_commands-AreCommands_example :
    Ensures
      (λ cs. AreCommands tools [] cs × (length cs ≤ 64))
      (validate_commands tools (entry ∷ []))
validate_commands-AreCommands_example = validate_commands-AreCommands tools (entry ∷ [])

no_facts-Inv : Inv []
no_facts-Inv = record { unique = tt; facts = tt; devices = omega arith }

recall-remember_example :
    (contains (strip " tea ") (recall "d1" (remember "d1" " tea " []).1) ≡ true)
    × ("tea" ≡ strip " tea ")
    × (1 ≡ length (recall "d1" (remember "d1" " tea " []).1))
    × (recall "d2" (remember "d1" " tea " []).1
        ≡ (if "d1" == "d2" then recall "d1" (remember "d1" " tea " []).1 else recall "d2" []))
unfolding remember is_fact has_room strip len add_fact contains
recall-remember_example =
    recall-remember "d1" "d2" " tea " [] {r = record { fact = "tea"; count = 1 }} no_facts-Inv refl
