-- ===== src/Rpc/Exceptions.antt =====
-- packages/foundation/src/external/errors/grpc-exceptions.ts.
use email_platform_services.Common.{String, Option, get_or, Dict}
use email_platform_services.Rpc.Message

-- The members of the `status` enumeration of grpc-js that the code names.
pub data GrpcStatus : Type 0 where
  cancelled unknown invalid_argument deadline_exceeded not_found already_exists : GrpcStatus
  permission_denied resource_exhausted failed_precondition aborted out_of_range : GrpcStatus
  unimplemented internal unavailable data_loss unauthenticated : GrpcStatus

-- `details` holds its values as text.
pub record GrpcErrorPayload : Type 0 where
  pub code : GrpcStatus
  pub message : String
  pub details : Option (Dict String)

-- The exception classes, with the default of `message`.
module _ (message : Option String) (details : Option (Dict String)) where
  unfoldable pub not_found_exception : GrpcErrorPayload
  not_found_exception = record {
    code = not_found;
    message = get_or message Message.not_found;
    details = details;
  }

  unfoldable pub invalid_argument_exception : GrpcErrorPayload
  invalid_argument_exception = record {
    code = invalid_argument;
    message = get_or message Message.invalid_argument;
    details = details;
  }

  unfoldable pub already_exists_exception : GrpcErrorPayload
  already_exists_exception = record {
    code = already_exists;
    message = get_or message Message.already_exists;
    details = details;
  }

  unfoldable pub permission_denied_exception : GrpcErrorPayload
  permission_denied_exception = record {
    code = permission_denied;
    message = get_or message Message.permission_denied;
    details = details;
  }

  unfoldable pub unauthenticated_exception : GrpcErrorPayload
  unauthenticated_exception = record {
    code = unauthenticated;
    message = get_or message Message.unauthenticated;
    details = details;
  }

  unfoldable pub internal_exception : GrpcErrorPayload
  internal_exception = record {
    code = internal;
    message = get_or message Message.internal;
    details = details;
  }

  unfoldable pub unavailable_exception : GrpcErrorPayload
  unavailable_exception = record {
    code = unavailable;
    message = get_or message Message.unavailable;
    details = details;
  }
