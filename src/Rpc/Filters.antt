-- ===== src/Rpc/Filters.antt =====
-- packages/foundation/src/external/errors/rpc-exception.filter.ts and grpc-to-http.filter.ts.
use email_platform_services.Common.{
  ℕ, String, Bool, Option, none, some, get_or, [], ◌∷◌, Dict, spread, if◌then◌else◌,
}
use email_platform_services.Rpc.Exceptions.{
  GrpcStatus, cancelled, unknown, invalid_argument, deadline_exceeded, not_found, already_exists,
  permission_denied, resource_exhausted, failed_precondition, aborted, out_of_range, unimplemented,
  internal, unavailable, data_loss, unauthenticated, GrpcErrorPayload,
}
use email_platform_services.Rpc.Message

-- What `getError()` of an `RpcException` gives.
pub data RpcError : Type 0 where
  text : String → RpcError
  payload : GrpcErrorPayload → RpcError

-- What a service's handler throws.
pub data ServiceException : Type 0 where
  rpc_exception : RpcError → ServiceException
  error : (message stack : String) → ServiceException
  other : ServiceException

pub data ServiceLog : Type 0 where
  rpc_warning : RpcError → ServiceLog
  unhandled : (message : String) (stack : Option String) → ServiceLog

-- `AllRpcExceptionsFilter.catch`: what the call is answered with, and the log line.
unfoldable pub catch_rpc : ServiceException → RpcError × ServiceLog
catch_rpc (rpc_exception err) = (err, rpc_warning err)
catch_rpc (error message stack) = (
  payload (record { code = internal; message = Message.internal; details = none }),
  unhandled message (some stack),
)
catch_rpc other = (
  payload (record { code = internal; message = Message.internal; details = none }),
  unhandled Message.internal none,
)

-- A number in a `code` property: a status that the tables name, or another.
pub data Code : Type 0 where
  known : GrpcStatus → Code
  unlisted : ℕ → Code

-- The members of `HttpStatus` that the code names, and all other numbers.
pub data HttpStatus : Type 0 where
  bad_request unauthorized forbidden missing conflict too_many_requests : HttpStatus
  internal_server_error not_implemented service_unavailable gateway_timeout : HttpStatus

pub data HttpCode : Type 0 where
  named : HttpStatus → HttpCode
  numbered : ℕ → HttpCode

unfoldable pub grpc_to_http : Code → Option HttpStatus
grpc_to_http (unlisted n) = none
grpc_to_http (known invalid_argument) = some bad_request
grpc_to_http (known failed_precondition) = some bad_request
grpc_to_http (known out_of_range) = some bad_request
grpc_to_http (known not_found) = some missing
grpc_to_http (known already_exists) = some conflict
grpc_to_http (known aborted) = some conflict
grpc_to_http (known permission_denied) = some forbidden
grpc_to_http (known unauthenticated) = some unauthorized
grpc_to_http (known unavailable) = some service_unavailable
grpc_to_http (known deadline_exceeded) = some gateway_timeout
grpc_to_http (known resource_exhausted) = some too_many_requests
grpc_to_http (known unimplemented) = some not_implemented
grpc_to_http (known internal) = some internal_server_error
grpc_to_http (known unknown) = some internal_server_error
grpc_to_http (known data_loss) = some internal_server_error
grpc_to_http (known cancelled) = some internal_server_error

unfoldable pub error_code_to_message : Code → Option String
error_code_to_message (unlisted n) = none
error_code_to_message (known invalid_argument) = some Message.invalid_argument
error_code_to_message (known failed_precondition) = some Message.failed_precondition
error_code_to_message (known out_of_range) = some Message.out_of_range
error_code_to_message (known not_found) = some Message.not_found
error_code_to_message (known already_exists) = some Message.already_exists
error_code_to_message (known aborted) = some Message.aborted
error_code_to_message (known permission_denied) = some Message.permission_denied
error_code_to_message (known unauthenticated) = some Message.unauthenticated
error_code_to_message (known unavailable) = some Message.unavailable
error_code_to_message (known deadline_exceeded) = some Message.deadline_exceeded
error_code_to_message (known resource_exhausted) = some Message.resource_exhausted
error_code_to_message (known unimplemented) = some Message.unimplemented
error_code_to_message (known internal) = some Message.internal
error_code_to_message (known unknown) = some Message.internal
error_code_to_message (known data_loss) = some Message.data_loss
error_code_to_message (known cancelled) = some Message.cancelled

-- A property of an object, by what `in` and `typeof` say of it.
pub data Property : Type 0 where
  absent : Property
  number : Code → Property
  string : String → Property
  otherwise : Property

pub record ErrorObject : Type 0 where
  pub is_error : Bool
  pub code : Property
  pub message : Property
  pub details : Property

pub data Val : Type 0 where
  code : HttpCode → Val
  str : String → Val

pub data Body : Type 0 where
  fields : Dict Val → Body
  plain : String → Body

-- What reaches the gateway's filter; `no_object` is `null`, `undefined` or a primitive value.
pub data GatewayException : Type 0 where
  http_exception : (status : HttpCode) (body : Body) → GatewayException
  object : ErrorObject → GatewayException
  no_object : GatewayException

unfoldable pub code_of : Property → Code
code_of (number c) = c
code_of _ = known internal

unfoldable pub extract_grpc_code : GatewayException → Code
unfolding code_of
extract_grpc_code (object o) = code_of o.code
extract_grpc_code _ = known internal

unfoldable pub string_or : Property → String → String
string_or (string s) fallback = s
string_or _ fallback = fallback

-- The message of an `Error` is a string.
unfoldable pub extract_raw_message : GatewayException → String
unfolding string_or
extract_raw_message (object o) =
    if o.is_error
    then string_or o.message ""
    else string_or o.message (string_or o.details Message.internal)
extract_raw_message _ = Message.internal

pub record HttpReply : Type 0 where
  pub status : HttpCode
  pub body : Dict Val

pub record GatewayLog : Type 0 where
  pub grpc_code : Code
  pub http_status : HttpStatus
  pub message : String

-- `status_name` is the reverse mapping of the `HttpStatus` enumeration, `id` the correlation id of
-- the request and `now` the time of the reply.
module _ (status_name : HttpCode → Option String) (id : Option String) (now : String) where
  unfoldable pub trailer : Dict Val
  trailer = ("correlationId", str (get_or id "no-correlation-id")) ∷ ("timestamp", str now) ∷ []

  unfoldable pub reply_body : HttpCode → String → Dict Val
  unfolding trailer
  reply_body status message =
      ("statusCode", code status)
      ∷ ("message", str message)
      ∷ ("error", str (get_or (status_name status) "Internal Server Error"))
      ∷ trailer

  -- `GrpcToHttpExceptionFilter.catch`.
  unfoldable pub catch_http : GatewayException → HttpReply × Option GatewayLog
  unfolding reply_body trailer extract_grpc_code extract_raw_message
  catch_http (http_exception status (fields body)) =
      (record { status = status; body = spread body trailer }, none)
  catch_http (http_exception status (plain message)) =
      (record { status = status; body = reply_body status message }, none)
  catch_http exception =
      let c = extract_grpc_code exception in
      let message = get_or (error_code_to_message c) Message.internal in
      let status = get_or (grpc_to_http c) internal_server_error in
      (
        record { status = named status; body = reply_body (named status) message },
        some (record {
          grpc_code = c;
          http_status = status;
          message = extract_raw_message exception;
        }),
      )
