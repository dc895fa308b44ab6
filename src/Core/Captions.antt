-- ===== src/Core/Captions.antt =====
-- The fixed texts of backend/pipa_core/core.py for the device's screen: confirmation summaries, the
-- completion envelope and `_safe_result_caption`.
pub mod Redaction
use pipa_personal_assistant.Prelude.{
  ℕ, String, Bool, true, false, ◌&&◌, ◌||◌, not, Option, none, some, List, [], ◌∷◌, ◌==◌,
  if◌then◌else◌, nat_eq,
}
use pipa_personal_assistant.Prelude.Dict.{Dict, lookup}
use pipa_personal_assistant.Prelude.Int.{ℤ, pos, negsuc, in_range}
use pipa_personal_assistant.Prelude.Text.{is_empty, join, decimal}
use pipa_personal_assistant.Json.{
  Value, null, bool, int, float, str, list, dict, Items, nil, cons, Fields, end, field, get_field,
  get_or, item_count,
}
use pipa_personal_assistant.Protocol.Server.{ToolResult}

-- `result.get(name)`
abbrev pub get : String → Fields → Value
get name r = get_or (get_field name r) null

-- `value is True`, `value is False`
abbrev pub is_true : Value → Bool
is_true (bool true) = true
is_true _ = false

abbrev pub is_false : Value → Bool
is_false (bool false) = true
is_false _ = false

-- `bool(value)`
abbrev pub truthy : Value → Bool
truthy null = false
truthy (bool b) = b
truthy (int (pos n)) = not (nat_eq n 0)
truthy (int (negsuc n)) = true
truthy (float x) = elim x.whole [
  | none ↦ true
  | some z ↦ elim z [ pos n ↦ not (nat_eq n 0) | negsuc n ↦ true ]
]
truthy (str s) = not (is_empty s)
truthy (list nil) = false
truthy (list _) = true
truthy (dict end) = false
truthy (dict _) = true

-- `value == text`
abbrev pub is_text : String → Value → Bool
is_text t (str s) = s == t
is_text t _ = false

-- `_DEVICE_CONFIRMATION_SUMMARIES`
unfoldable pub confirmation_summaries : Dict String
confirmation_summaries =
    ("open_app", "Abrir una aplicación configurada.")
    ∷ ("open_codex", "Abrir Codex.")
    ∷ ("web_search", "Buscar en Internet.")
    ∷ ("music_search", "Buscar en Apple Music.")
    ∷ ("music_open", "Abrir Apple Music.")
    ∷ ("league_open", "Abrir League of Legends.")
    ∷ ("discord_open_app", "Abrir Discord.")
    ∷ ("discord_open", "Abrir un canal de Discord.")
    ∷ ("discord_call_channel", "Preparar una llamada de Discord; el inicio será manual.")
    ∷ ("discord_contact", "Abrir un contacto de Discord.")
    ∷ ("discord_call", "Preparar una llamada de Discord; el inicio será manual.")
    ∷ ("whatsapp_compose", "Preparar o enviar un mensaje de WhatsApp según la configuración local.")
    ∷ ("whatsapp_contact", "Preparar o enviar un mensaje de WhatsApp según la configuración local.")
    ∷ ("whatsapp_contact_open", "Abrir un chat de WhatsApp.")
    ∷ ("whatsapp_phone_open", "Abrir un chat de WhatsApp.")
    ∷ ("whatsapp_open", "Abrir WhatsApp Web.")
    ∷ ("league_search", "Buscar una partida en League.")
    ∷ ("league_cancel", "Cancelar la búsqueda de League.")
    ∷ ("system_lock", "Bloquear el ordenador.")
    ∷ ("open_url", "Abrir una URL validada.")
    ∷ []

abbrev or_text : String → Option String → String
or_text d none = d
or_text d (some s) = s

-- `_device_confirmation_summary`
unfoldable pub device_confirmation_summary : String → String
device_confirmation_summary tool =
    or_text "Confirmar acción externa." (lookup tool confirmation_summaries)

-- `_device_tool_result`: of the handler's result, only whether it says `success: false`
unfoldable pub device_tool_result : String → String → Option Fields → Option String → ToolResult
device_tool_result tool status result call_id = record {
  tool_name = tool;
  status = status;
  success =
      status == "completed"
      && not (elim result [ none ↦ false | some r ↦ is_false (get "success" r) ]);
  call_id = call_id;
}

-- `captions` in `_safe_result_caption`
unfoldable pub captions : Dict String
captions =
    ("system_status", "Estado del ordenador consultado.")
    ∷ ("integration_status", "Estado de integraciones consultado.")
    ∷ ("system_network", "Estado de red consultado.")
    ∷ ("web_search", "Búsqueda web abierta.")
    ∷ ("music_open", "Apple Music abierto.")
    ∷ ("music_search", "Búsqueda musical abierta; elige la pista.")
    ∷ ("whatsapp_open", "WhatsApp abierto.")
    ∷ ("whatsapp_compose", "Chat preparado; pulsa Enviar.")
    ∷ ("whatsapp_contact", "Chat preparado; pulsa Enviar.")
    ∷ ("whatsapp_contact_open", "Chat de WhatsApp abierto.")
    ∷ ("whatsapp_phone_open", "Chat de WhatsApp abierto.")
    ∷ ("discord_open_app", "Discord abierto.")
    ∷ ("discord_open", "Canal abierto; inicia la llamada.")
    ∷ ("discord_call_channel", "Canal de llamada abierto; pulsa Llamar.")
    ∷ ("discord_contact", "Canal abierto; inicia la llamada.")
    ∷ ("discord_call", "Canal de llamada abierto; pulsa Llamar.")
    ∷ ("league_open", "League of Legends abierto.")
    ∷ ("league_cancel", "Búsqueda de partida cancelada.")
    ∷ ("timer_create", "Temporizador creado.")
    ∷ ("timer_cancel", "Temporizador cancelado.")
    ∷ ("media_action", "Control multimedia enviado.")
    ∷ ("open_url", "URL abierta en el navegador.")
    ∷ ("open_app", "Aplicación abierta.")
    ∷ ("system_lock", "Ordenador bloqueado.")
    ∷ []

unfoldable pub default_caption : String → String
default_caption tool = or_text "Acción completada." (lookup tool captions)

-- a percentage, `none` where the value is no integer between 0 and 100
abbrev pub percentage : Value → Option ℕ
percentage (int (pos n)) = if in_range 100 (pos n) then some n else none
percentage _ = none

unfoldable pub power_text : Option ℕ → Bool → String
power_text none plugged = "Estado de batería consultado."
power_text (some n) plugged = join "Batería: " (
    join (decimal n)
      (join "%; " (join (if plugged then "conectado a corriente" else "sin corriente") ".")))

unfoldable pub power_caption : Fields → String
power_caption r =
    if is_false (get "available" r)
    then "Batería no disponible en este PC."
    else power_text (percentage (get "percent" r)) (is_true (get "plugged" r))

unfoldable pub volume_text : Option ℕ → String → String
volume_text none other = other
volume_text (some n) other = join "Volumen: " (join (decimal n) "%.")

unfoldable pub volume_caption : Fields → String → String
volume_caption r other = volume_text (percentage (get "volume" r)) other

unfoldable pub mute_caption : Value → String → String
mute_caption (bool true) other = "Audio silenciado."
mute_caption (bool false) other = "Audio activado."
mute_caption _ other = other

unfoldable pub timers_caption : Value → String → String
timers_caption (list ts) other =
    join "Temporizadores registrados: " (join (decimal (item_count ts)) ".")
timers_caption _ other = other

unfoldable pub search_status_caption : Fields → String
search_status_caption r =
    if is_false (get "supported" r)
    then "El estado de búsqueda de League no está disponible."
    else if is_true (get "match_found" r)
    then "League ha encontrado una partida; acéptala manualmente."
    else if is_true (get "searching" r)
    then "League está buscando partida."
    else if is_text "unknown" (get "state" r)
    then "No se pudo confirmar el estado de búsqueda de League."
    else "League no está buscando partida."

unfoldable pub league_status_caption : Value → String
league_status_caption (dict search) =
    if is_true (get "match_found" search)
    then "League ha encontrado una partida; acéptala manualmente."
    else if is_true (get "searching" search)
    then "League está buscando partida."
    else if is_false (get "supported" search)
    then "League listo; matchmaking no disponible."
    else "Estado de League consultado."
league_status_caption _ = "Estado de League consultado."

unfoldable pub search_caption : Fields → String → String
search_caption r other =
    if truthy (get "already_searching" r)
    then "Ya había una búsqueda activa."
    else if truthy (get "started" r)
    then "Búsqueda de partida iniciada."
    else other

unfoldable pub wait_caption : Fields → String → String
wait_caption r other =
    if is_true (get "found" r)
    then "League ha encontrado una partida; acéptala manualmente."
    else if is_true (get "timed_out" r)
    then "No apareció una partida durante el tiempo indicado; la búsqueda sigue activa."
    else if is_false (get "searching" r)
    then "League ya no está buscando partida."
    else other

-- the tests on `tool_name` after the success check; they exclude one another
unfoldable pub tool_caption : String → Fields → String
tool_caption tool r =
    let other = default_caption tool in
    if (tool == "whatsapp_compose" || tool == "whatsapp_contact") && is_true (get "sent" r)
    then "Mensaje de WhatsApp enviado."
    else if tool == "system_power"
    then power_caption r
    else if tool == "audio_volume"
    then volume_caption r other
    else if tool == "audio_mute" || tool == "audio_unmute"
    then mute_caption (get "muted" r) other
    else if tool == "timer_list"
    then timers_caption (get "timers" r) other
    else if tool == "league_search_status"
    then search_status_caption r
    else if tool == "league_status"
    then league_status_caption (get "search" r)
    else if tool == "league_search"
    then search_caption r other
    else if tool == "league_wait"
    then wait_caption r other
    else if tool == "league_cancel" && is_true (get "already_not_searching" r)
    then "League no estaba buscando partida."
    else other

-- `_safe_result_caption`
unfoldable pub safe_result_caption : String → Fields → String
safe_result_caption tool r =
    if is_false (get "success" r) then "No se pudo completar la acción." else tool_caption tool r
