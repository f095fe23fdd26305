-- ===== src/Client.antt =====
-- web/src/api/client.ts and web/src/lib/errors.ts: the results of a request, and the text shown for a
-- failure. The network itself is the environment: a request's result is an argument of the model.
use Prim.Native.String
use platform_for_sudies.Common.{
  Dict, insert, truthy, not, ◌&&◌, ℕ, String, Bool, false, Option, ◌==◌, if◌then◌else◌, leb,
  or_else, is_empty,
}

-- What a rejected call throws: an `ApiError`, or any other value.
pub data Failure : Type 0 where
  api : ℕ → String → Failure
  unknown : Failure

pub data ApiResult (A : Type 0) : Type 0 where
  reply : A → ApiResult A
  failed : Failure → ApiResult A

abbrev pub network_text : String
network_text = "Нет связи с сервером"

abbrev pub common_network_text : String
common_network_text = "Нет связи с сервером. Проверьте подключение и повторите."

abbrev pub unknown_text : String
unknown_text = "Непредвиденная ошибка"

abbrev pub server_unavailable_text : String
server_unavailable_text = "Сервер временно недоступен"

unfoldable pub error_text : Failure → String
error_text (api status message) = if status == 0 then common_network_text else message
error_text unknown = unknown_text

abbrev pub is_status : Failure → ℕ → Bool
is_status (api status message) expected = status == expected
is_status unknown expected = false

-- The body of an error response: `{ error, message? }`, or anything that is not that.
pub data ErrorBody : Type 0 where
  json : String → Option String → ErrorBody
  other : ErrorBody

pub record ApiError : Type 0 where
  pub status : ℕ
  pub code : String
  pub message : String

-- `http_text` is the text that `HTTP ${status}` prints.
unfoldable pub to_api_error : (ℕ → String) → ℕ → String → ErrorBody → ApiError
to_api_error http_text status status_text (json error message) = record {
  status = status;
  code = error;
  message = or_else message status_text;
}
to_api_error http_text status status_text other =
    if leb 500 status
    then record { status = status; code = "http_error"; message = server_unavailable_text }
    else record {
      status = status;
      code = "http_error";
      message = if is_empty status_text then http_text status else status_text;
    }

-- The request's own headers, whether its body is JSON, and the judge's token.
unfoldable pub build_headers : Dict String → Bool → Option String → Dict String
build_headers headers is_json token =
    let typed = if is_json then insert "Content-Type" "application/json" headers else headers in
    if truthy token
    then insert "Authorization" (String.◌++◌ "Bearer " (or_else token "")) typed
    else typed

-- What `fetch` and `res.json()` give: the request was aborted, it did not reach the server, or the
-- server answered with a status, its text, an error body and a payload.
pub data Fetched (A : Type 0) : Type 0 where
  aborted : Fetched A
  unreachable : Fetched A
  responded : ℕ → String → ErrorBody → A → Fetched A

pub data Requested (A : Type 0) : Type 0 where
  payload : A → Requested A
  no_content : Requested A
  rejected : ApiError → Requested A
  abort_error : Requested A

-- `request` on what was fetched; `res.ok` is a status from 200 to 299.
unfoldable pub request : {A : Type 0} → (ℕ → String) → Fetched A → Requested A
unfolding to_api_error
request http_text aborted = abort_error
request http_text unreachable =
    rejected (record { status = 0; code = "network"; message = network_text })
request http_text (responded status status_text body a) =
    if not (leb 200 status && leb status 299)
    then rejected (to_api_error http_text status status_text body)
    else if status == 204
    then no_content
    else payload a
