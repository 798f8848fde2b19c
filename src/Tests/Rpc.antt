-- ===== src/Tests/Rpc.antt =====
-- Examples for the two exception filters.
use email_platform_services.Common.{◌≡◌, refl, true, none, some, String, Option}
use email_platform_services.Rpc.Exceptions.{GrpcErrorPayload, not_found, not_found_exception}
use email_platform_services.Rpc.Filters.{
  RpcError, text, payload, rpc_exception, known, HttpCode, absent, number, string, ErrorObject,
  GatewayException, object, no_object, catch_rpc, catch_http,
}
use email_platform_services.Rpc.Laws.{catch_http-catch_rpc, reply_to}

abbrev status_name : HttpCode → Option String
status_name c = none

abbrev leaking : ErrorObject
leaking = record {
  is_error = true;
  code = absent;
  message = string "relation users";
  details = absent;
}

abbrev arriving : GrpcErrorPayload → ErrorObject
arriving p = record {
  is_error = true;
  code = number (known p.code);
  message = string p.message;
  details = string p.message;
}

abbrev deliver : RpcError → GatewayException
deliver (text m) = no_object
deliver (payload p) = object (arriving p)

catch_http-catch_rpc_example :
    (catch_http status_name none "now" (
      deliver
        (catch_rpc (rpc_exception (payload (not_found_exception (some "no user 7") none)))).0)).0
    ≡ reply_to status_name none "now" (known not_found)
unfolding not_found_exception
catch_http-catch_rpc_example =
    catch_http-catch_rpc status_name none "now" deliver (λ p. (arriving p, refl, refl))
      (rpc_exception (payload (not_found_exception (some "no user 7") none))) (λ m e. cc)
