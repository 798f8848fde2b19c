-- ===== src/Rpc/Message.antt =====
-- packages/foundation/src/external/errors/error-messages.ts: the texts that a client may see.
use email_platform_services.Common.{String}

abbrev pub not_found : String
not_found = "Resource not found"

abbrev pub invalid_argument : String
invalid_argument = "Invalid request data"

abbrev pub already_exists : String
already_exists = "Resource already exists"

abbrev pub permission_denied : String
permission_denied = "Permission denied"

abbrev pub unauthenticated : String
unauthenticated = "Authentication required"

abbrev pub internal : String
internal = "Internal server error"

abbrev pub unavailable : String
unavailable = "Service temporarily unavailable"

abbrev pub failed_precondition : String
failed_precondition = "Request precondition not met"

abbrev pub out_of_range : String
out_of_range = "Value out of acceptable range"

abbrev pub aborted : String
aborted = "Operation was aborted"

abbrev pub deadline_exceeded : String
deadline_exceeded = "Request timed out"

abbrev pub resource_exhausted : String
resource_exhausted = "Too many requests"

abbrev pub data_loss : String
data_loss = "Internal server error"

abbrev pub cancelled : String
cancelled = "Request was cancelled"

abbrev pub unimplemented : String
unimplemented = "Operation not supported"
