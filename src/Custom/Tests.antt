-- ===== src/Custom/Tests.antt =====
-- Custom requests at concrete methods and params.
use tmcp.Base.{
  ◌≡◌, refl, ◌↔◌, true, Option, none, some, List, [], ◌∷◌, arith, nat_eq, mem, Text, text, text_beq,
  text_eq, Result, ok, err,
}
use tmcp.Base.Map.{get}
use tmcp.Errors.{Error, payload_too_large}
use tmcp.Requests.{RequestId, string}
use tmcp.JsonRpc.{Object, RequestMeta}
use tmcp.Serving.Dispatch.{respond}
use tmcp.Serving.Tests.{texts}
use tmcp.Custom.{
  with_payload_limit, new_request, encoded_len, count_written, check_payload, prepare,
  is_server_request_method,
}
use tmcp.Custom.Client.{ServerRequest, method_of, ClientHandler, handle_server_request}
use tmcp.Custom.Laws.{created, sent, is_server_request_method_iff, handle_server_request-prepare}

is_server_request_method_iff_example :
    (is_server_request_method (text "tasks/get") ≡ true)
    ↔ ((r : ServerRequest Text) × (method_of r ≡ text "tasks/get"))
is_server_request_method_iff_example =
    is_server_request_method_iff (text "params") (text "tasks/get")

abbrev fields : Object Text
fields = (text "name", text "a") ∷ []

abbrev in_pieces : Object Text → Result Error (List Text)
in_pieces o = ok (text "{\"name\":" ∷ text "\"a\"}" ∷ [])

abbrev no_meta : Text → Option (RequestMeta Text)
no_meta value = none

abbrev no_request : Object Text → Result Text (ServerRequest Text)
no_request o = err (text "not parsed")

abbrev answers_custom : ClientHandler Text Text
answers_custom = record {
  pong = λ id. ok tt;
  create_message_of = λ id method params. ok params;
  list_roots_of = λ id. ok (text "roots");
  elicit_of = λ id params. ok params;
  get_task_of = λ id task_id. ok task_id;
  get_task_payload_of = λ id task_id. ok task_id;
  list_tasks_of = λ id cursor. ok (text "tasks");
  cancel_task_of = λ id task_id. ok task_id;
  custom_request = λ id method params. ok method;
  custom_request_limit = 12;
}

abbrev seven : RequestId
seven = string (text "7")

handle_server_request-prepare_example :
    (prepare in_pieces no_meta (with_payload_limit 12 (created (text "vendor/act") fields))
      ≡ ok (sent (text "vendor/act") fields, none, 12))
    × (handle_server_request texts no_request in_pieces answers_custom seven
          (sent (text "vendor/act") fields)
        ≡ respond texts seven (
            answers_custom.custom_request seven
              (text "vendor/act")
              (some (texts.object_value fields))))
unfolding new_request is_server_request_method mem text_beq get encoded_len count_written
handle_server_request-prepare_example =
    handle_server_request-prepare texts no_request in_pieces no_meta answers_custom seven
      (text "vendor/act") fields (created (text "vendor/act") fields) 12 12 refl refl refl refl
      (omega arith) (omega arith)

too_large :
    check_payload in_pieces (text "vendor/act") fields 11
    ≡ err (payload_too_large (text "vendor/act") 12 11)
unfolding check_payload encoded_len count_written
too_large = refl
