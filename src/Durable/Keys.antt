-- ===== src/Durable/Keys.antt =====
-- internal/durablecore/keys.go: the composite keys under which handlers are registered.
pub mod Injective
use durableroutine_go.Base.{String, ◌<>◌}

unfoldable pub handler_key : String → String → String
handler_key kind result_kind = "handler:" <> kind <> ":" <> result_kind

unfoldable pub send_key : String → String → String → String
send_key input_kind external_input_kind result_kind =
    "send:" <> input_kind <> ":" <> external_input_kind <> ":" <> result_kind

unfoldable pub call_key : String → String → String → String → String
call_key input_kind external_req_kind external_resp_kind result_kind =
    "call:" <> input_kind <> ":" <> external_req_kind <> ":" <> external_resp_kind <> ":"
    <> result_kind

unfoldable pub error_key : String → String
error_key primary_key = "error:" <> primary_key
