-- ===== src/Upbit/Exchange.antt =====
-- api/upbit/UpbitExchangeRestClient.cpp. The signer (JWT with a random nonce), the sending of a request, the
-- text of a JSON object and of a rounded number, and the bytes of a text are arguments.
use Prim.Native.Char.{code}
use Prim.Native.String.{compare}
use Prim.Native.Nat.{Ordering}
use coin_bot.Base.{
  ℕ, String, Bool, true, false, ◌||◌, ◌&&◌, Option, none, some, List, [], ◌∷◌, ◌++◌, if◌then◌else◌,
  is_empty, leb, ◌==◌,
}
use coin_bot.Double.{Double, ◌≤?◌, lit}
use coin_bot.Json.{Json, ◌>>=◌}
use coin_bot.Domain.OrderTypes.{OrderPosition, is_bid, is_limit}
use coin_bot.Domain.Order.{Order, OrderRequest, OrderSize, volume_size, amount_size}
use coin_bot.Domain.Account.{Account}
use coin_bot.Engine.Request.{is_amount}
use coin_bot.Url.{encode_component, decode_percent}
use coin_bot.Rest.{
  HttpMethod, HttpRequest, HttpResponse, RestError, RestErrorCode, RestResult, response, failed,
}
use coin_bot.Upbit.Answers.{accounts_dto, wait_orders_response_dto, order_response_dto}
use coin_bot.Upbit.OpenOrders.{account_of, open_orders_of, order_of}

-- `std::variant<A, RestError>`
pub data Reply (A : Type 0) : Type 0 where
  reply : A → Reply A
  refused : RestError → Reply A

pub record QueryStrings : Type 0 where
  pub encoded : List ℕ
  pub hash : List ℕ

-- What is only there for some orders.
pub record OrderPayloadFields : Type 0 where
  pub price_field : Option String
  pub volume_field : Option String

unfoldable pub is_success_status : ℕ → Bool
is_success_status status = leb 200 status && leb status 299

unfoldable pub make_error : RestErrorCode → ℕ → RestError
make_error code status = record { code = code; http_status = status }

abbrev pub separated : List ℕ → List ℕ
separated [] = []
separated (c ∷ q) = (c ∷ q) ++ (b'&' ∷ [])

unfoldable pub append_query_param : List ℕ → List ℕ × List ℕ → List ℕ
append_query_param q (k, v) = separated q ++ (k ++ (b'=' ∷ encode_component v))

unfoldable pub append_query_params : List ℕ → List (List ℕ × List ℕ) → List ℕ
unfolding append_query_param
append_query_params q [] = q
append_query_params q (kv ∷ items) = append_query_params (append_query_param q kv) items

unfoldable pub make_query_strings : List (List ℕ × List ℕ) → QueryStrings
unfolding append_query_params
make_query_strings items =
    let q = append_query_params [] items in record { encoded = q; hash = decode_percent q }

unfoldable pub to_upbit_side : OrderPosition → String
to_upbit_side p = if is_bid p then "bid" else "ask"

-- The text without its zeros at the end.
unfoldable pub strip_zeros : String → String
strip_zeros String.[] = String.[]
strip_zeros (String.◌∷◌ c s) =
    let t = strip_zeros s in if is_empty t && code c == b'0' then String.[] else String.◌∷◌ c t

unfoldable pub strip_dot : String → String
strip_dot String.[] = String.[]
strip_dot (String.◌∷◌ c s) =
    let t = strip_dot s in if is_empty s && code c == b'.' then String.[] else String.◌∷◌ c t

unfoldable pub has_dot : String → Bool
has_dot String.[] = false
has_dot (String.◌∷◌ c s) = code c == b'.' || has_dot s

-- The last part of `formatDecimalFloor`.
unfoldable pub trim : String → String
unfolding strip_zeros strip_dot has_dot
trim s = let t = if has_dot s then strip_dot (strip_zeros s) else s in if is_empty t then "0" else t

-- `std::sort` by the first components.
unfoldable pub insert_param : String × String → List (String × String) → List (String × String)
insert_param kv [] = kv ∷ []
insert_param (k, v) ((j, w) ∷ items) =
    let rest = insert_param (k, v) items in
    elim (compare j k) [
      | Ordering.lt ↦ (j, w) ∷ rest
      | Ordering.eq ↦ (k, v) ∷ (j, w) ∷ items
      | Ordering.gt ↦ (k, v) ∷ (j, w) ∷ items
    ]

unfoldable pub sort_params : List (String × String) → List (String × String)
unfolding insert_param
sort_params [] = []
sort_params (kv ∷ items) = insert_param kv (sort_params items)

abbrev pub field_of : String → Option String → List (String × String)
field_of key none = []
field_of key (some v) = (key, v) ∷ []

abbrev pub unless_empty : String → Option String
unless_empty s = if is_empty s then none else some s

module _ {D : Type 0} where
  unfoldable pub to_upbit_ord_type : OrderRequest D → String
  to_upbit_ord_type r =
      if is_limit r.type then "limit" else if is_amount r.size then "price" else "market"

module _ {D : Type 0} (fixed : ℕ → D → String) ⦃d : Double D⦄ where
  -- `fixed n v` is the text of `v`, rounded down to `n` decimals, with as many decimals.
  unfoldable pub format_decimal_floor : D → ℕ → String
  unfolding trim
  format_decimal_floor v decimals = trim (fixed decimals v)

  abbrev volume_checked : Option String → OrderSize D → Reply OrderPayloadFields
  volume_checked price (amount_size a) = refused (make_error RestErrorCode.invalid_argument 0)
  volume_checked price (volume_size v) =
      if v ≤? lit 0
      then refused (make_error RestErrorCode.invalid_argument 0)
      else reply (record { price_field = price; volume_field = some (format_decimal_floor v 8) })

  abbrev amount_checked : OrderSize D → Reply OrderPayloadFields
  amount_checked (volume_size v) = refused (make_error RestErrorCode.invalid_argument 0)
  amount_checked (amount_size a) =
      if a ≤? lit 0
      then refused (make_error RestErrorCode.invalid_argument 0)
      else reply (record { price_field = some (format_decimal_floor a 0); volume_field = none })

  abbrev limit_checked : Option D → OrderSize D → Reply OrderPayloadFields
  limit_checked none size = refused (make_error RestErrorCode.invalid_argument 0)
  limit_checked (some p) size = volume_checked (some (format_decimal_floor p 0)) size

  -- `buildOrderPayloadFields`, by the type that `toUpbitOrdType` gives
  unfoldable pub build_order_payload_fields : OrderRequest D → Reply OrderPayloadFields
  unfolding make_error format_decimal_floor
  build_order_payload_fields r =
      if is_limit r.type
      then limit_checked r.price r.size
      else if is_amount r.size
      then amount_checked r.size
      else volume_checked none r.size

-- The body of an answer that is a success.
unfoldable pub body_of : RestResult → Reply HttpResponse
unfolding is_success_status make_error
body_of (failed e) = refused e
body_of (response r) =
    if is_success_status r.status
    then reply r
    else refused (make_error RestErrorCode.bad_status r.status)

unfoldable pub parsed_or_error : {A : Type 0} → ℕ → Option A → Reply A
unfolding make_error
parsed_or_error status none = refused (make_error RestErrorCode.parse_error status)
parsed_or_error status (some a) = reply a

abbrev pub is_ok : {A : Type 0} → Reply A → Reply Bool
is_ok (refused e) = refused e
is_ok (reply a) = reply true

-- What the client is made with.
pub record Client (J D : Type 0) : Type 0 where
  pub json : Json J D
  -- `RestClient::perform` with the default policy
  pub send : HttpRequest → RestResult
  -- `makeBearerToken`, for each of the requests
  pub sign : Option (List ℕ) → String
  pub dump : List (String × String) → String
  pub bytes : String → List ℕ
  pub fixed : ℕ → D → String
  pub number : String → Option D

module _ {J D : Type 0} (client : Client J D) where
  abbrev pub params_of : List (String × String) → List (List ℕ × List ℕ)
  params_of [] = []
  params_of ((k, v) ∷ items) = (client.bytes k, client.bytes v) ∷ params_of items

  unfoldable pub request : HttpMethod → List ℕ → Option (List ℕ) → HttpRequest
  request method target query_hash = record {
    method = method;
    host = "api.upbit.com";
    port = "443";
    target = target;
    headers = ("Accept", "application/json") ∷ ("Authorization", client.sign query_hash) ∷ [];
    body = "";
    timeout = 5000;
  }

  -- A request without a body, with a query of one parameter.
  unfoldable pub query_request : HttpMethod → String → String → String → HttpRequest
  unfolding request make_query_strings
  query_request method path key value =
      let qs = make_query_strings ((client.bytes key, client.bytes value) ∷ []) in
      request method (client.bytes path ++ qs.encoded) (some qs.hash)

  unfoldable pub read_answer : {A : Type 0} → (J → Option A) → Reply HttpResponse → Reply A
  unfolding parsed_or_error
  read_answer get (refused e) = refused e
  read_answer get (reply r) = parsed_or_error r.status (client.json.parse r.body >>= get)

module _ {J D : Type 0} (client : Client J D) ⦃d : Double D⦄ where
  unfoldable pub get_my_account : Reply (Account D)
  unfolding read_answer body_of request
  get_my_account =
      read_answer client
        (λ j. do rows ← accounts_dto client.json j; some (account_of client.number rows))
        (body_of (client.send (request client HttpMethod.get (client.bytes "/v1/accounts") none)))

  unfoldable pub get_open_orders : String → Reply (List (Order D))
  unfolding read_answer body_of query_request
  get_open_orders market =
      read_answer client
        (λ j. do
          rows ← wait_orders_response_dto client.json j
          some (open_orders_of client.number rows))
        (body_of
          (client.send (query_request client HttpMethod.get "/v1/orders/open?" "market" market)))

  unfoldable pub get_order : String → Reply (Order D)
  unfolding read_answer body_of query_request
  get_order order_uuid =
      read_answer client
        (λ j. do row ← order_response_dto client.json j; some (order_of client.number row))
        (body_of (client.send (query_request client HttpMethod.get "/v1/order?" "uuid" order_uuid)))

  abbrev cancel_with : String → String → Reply Bool
  cancel_with key value =
      is_ok (body_of (client.send (query_request client HttpMethod.delete "/v1/order?" key value)))

  -- The uuid comes first, the identifier only without one.
  unfoldable pub cancel_order : Option String → Option String → Reply Bool
  unfolding body_of query_request make_error
  cancel_order (some order_uuid) identifier = cancel_with "uuid" order_uuid
  cancel_order none (some identifier) = cancel_with "identifier" identifier
  cancel_order none none = refused (make_error RestErrorCode.invalid_argument 0)

  -- The parameters of an order, in the order of the body.
  unfoldable pub order_params : OrderRequest D → OrderPayloadFields → List (String × String)
  unfolding to_upbit_side to_upbit_ord_type
  order_params r fields =
      ("market", r.market)
      ∷ ("side", to_upbit_side r.position)
      ∷ ("ord_type", to_upbit_ord_type r)
      ∷ (field_of "identifier" (unless_empty r.identifier)
          ++ field_of "price" fields.price_field
          ++ field_of "volume" fields.volume_field)

  unfoldable pub order_request : OrderRequest D → OrderPayloadFields → HttpRequest
  unfolding order_params make_query_strings sort_params
  order_request r fields =
      let params = order_params r fields in
      let qs = make_query_strings (params_of client (sort_params params)) in
      record {
        method = HttpMethod.post;
        host = "api.upbit.com";
        port = "443";
        target = client.bytes "/v1/orders";
        headers =
            ("Accept", "application/json")
            ∷ ("Content-Type", "application/json; charset=utf-8")
            ∷ ("Authorization", client.sign (some qs.hash))
            ∷ [];
        body = client.dump params;
        timeout = 5000;
      }

  abbrev request_for : OrderRequest D → Reply OrderPayloadFields → Reply HttpRequest
  request_for r (refused e) = refused e
  request_for r (reply fields) = reply (order_request r fields)

  -- `postOrder` up to its request
  unfoldable pub prepare_order : OrderRequest D → Reply HttpRequest
  unfolding order_request build_order_payload_fields make_error
  prepare_order r =
      if is_empty r.market
      then refused (make_error RestErrorCode.invalid_argument 0)
      else request_for r (build_order_payload_fields client.fixed r)

  -- `j.value("uuid", "")`; an empty one is an error too
  unfoldable pub uuid_in : J → Option String
  uuid_in j =
      if client.json.is_object j
      then elim (client.json.find "uuid" j) [
        | none ↦ none
        | some v ↦ (do s ← client.json.get_text v; unless_empty s)
      ]
      else none

  abbrev send_order : Reply HttpRequest → Reply String
  send_order (refused e) = refused e
  send_order (reply req) = read_answer client uuid_in (body_of (client.send req))

  unfoldable pub post_order : OrderRequest D → Reply String
  unfolding prepare_order uuid_in read_answer body_of
  post_order r = send_order (prepare_order r)
