-- ===== src/Protocol/Server/Contract.antt =====
-- Every envelope that the program builds passes the response contract.
use pipa_personal_assistant.Prelude.{◌≡◌, refl, none, some, ok, arith}
use pipa_personal_assistant.Protocol.Server.{
  server_message, ServerMessage, error, catalog, confirm_request, tool_result, type_name,
  keyword_fields, envelope,
}

-- Whatever its contents, no envelope of the program is refused by `server_message`: it is the
-- protocol version and the type, followed by the fields.
pub server_message-envelope :
    (m : ServerMessage)
    → server_message (type_name m) (keyword_fields m)
      ≡ ok (envelope (type_name m) (keyword_fields m))
unfolding server_message type_name keyword_fields
server_message-envelope (error c) = refl
server_message-envelope (catalog cs none) = refl
server_message-envelope (catalog cs (some c)) = refl
server_message-envelope (confirm_request c) = ground arith
server_message-envelope (tool_result r) = ground arith
server_message-envelope m = refl
