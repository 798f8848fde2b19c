-- ===== src/Rpc/Laws.antt =====
-- What a client of the gateway sees of an error.
use email_platform_services.Common.{
  String, Option, some, get_or, ◌≡◌, refl, ◌∙◌, ◌≢◌, ap, lookup, last_value, lookup-spread_last,
}
use email_platform_services.Rpc.Exceptions.{internal, GrpcErrorPayload}
use email_platform_services.Rpc.Message
use email_platform_services.Rpc.Filters.{
  RpcError, text, payload, ServiceException, rpc_exception, error, other, catch_rpc, Code, known,
  internal_server_error, HttpCode, named, grpc_to_http, error_code_to_message, number, ErrorObject,
  str, GatewayException, http_exception, object, no_object, extract_grpc_code, code_of, trailer,
  reply_body, catch_http, fields, plain, HttpReply,
}

-- The exception is no `HttpException` of the gateway's own.
abbrev pub IsForeign : GatewayException → Type 0
IsForeign (http_exception status body) = ⊥
IsForeign (object o) = Unit
IsForeign no_object = Unit

-- The code that a service's exception has for the gateway.
abbrev pub code_seen : ServiceException → Code
code_seen (rpc_exception (payload p)) = known p.code
code_seen (rpc_exception (text m)) = known internal
code_seen (error message stack) = known internal
code_seen other = known internal

module _ (status_name : HttpCode → Option String) (id : Option String) (now : String) where
  -- The reply to an exception from a service, as far as its code decides it.
  abbrev pub reply_to : Code → HttpReply
  reply_to c =
      let status = named (get_or (grpc_to_http c) internal_server_error) in
      record {
        status = status;
        body =
            reply_body status_name id now status
              (get_or (error_code_to_message c) Message.internal);
      }

  catch_http-eq :
      (e : GatewayException)
      → IsForeign e
      → (catch_http status_name id now e).0 ≡ reply_to (extract_grpc_code e)
  unfolding catch_http
  catch_http-eq (http_exception status body) h = absurd h
  catch_http-eq (object o) h = refl
  catch_http-eq no_object h = refl

  -- Nothing of an exception from a service reaches the client but what its numeric code, or the
  -- lack of one, decides: exceptions with the same code get the same reply.
  pub catch_http_safe :
      (e e' : GatewayException)
      → IsForeign e
      → IsForeign e'
      → extract_grpc_code e ≡ extract_grpc_code e'
      → (catch_http status_name id now e).0 ≡ (catch_http status_name id now e').0
  catch_http_safe e e' h h' same = rw (catch_http-eq e h, catch_http-eq e' h', same) refl

  -- Every reply carries the request's correlation id, or the fallback, also where the body of an
  -- `HttpException` has a property of that name.
  pub catch_http-correlation_id :
      (e : GatewayException)
      → lookup "correlationId" (catch_http status_name id now e).0.body
        ≡ some (str (get_or id "no-correlation-id"))
  unfolding catch_http trailer lookup last_value
  catch_http-correlation_id (http_exception status (fields body)) =
      lookup-spread_last "correlationId" body (trailer status_name id now)
  catch_http-correlation_id (http_exception status (plain message)) = refl
  catch_http-correlation_id (object o) = refl
  catch_http-correlation_id no_object = refl

  -- The gRPC transport between a service and the gateway: a status that the service answers with
  -- arrives as an object with that numeric code.
  module _ (deliver : RpcError → GatewayException)
      (delivers : (p : GrpcErrorPayload)
        → (o : ErrorObject) × (deliver (payload p) ≡ object o)
          × (o.code ≡ number (known p.code))) where
    delivered_reply :
        (p : GrpcErrorPayload)
        → (catch_http status_name id now (deliver (payload p))).0 ≡ reply_to (known p.code)
    unfolding extract_grpc_code
    delivered_reply p =
        let (o, arrived, coded) = delivers p in
        rw arrived (catch_http-eq (object o) tt ∙ ap (λ c. reply_to (code_of c)) coded)

    -- A gRPC exception that a handler throws is answered with the status and the fixed text that
    -- the gateway's tables have for its code, whatever its own message and details; an exception of
    -- another class, as for the code of an internal error. (Not an `RpcException` made of a bare
    -- text, to which the transport gives the code.)
    pub catch_http-catch_rpc :
        (e : ServiceException)
        → ((m : String) → e ≢ rpc_exception (text m))
        → (catch_http status_name id now (deliver (catch_rpc e).0)).0 ≡ reply_to (code_seen e)
    unfolding catch_rpc
    catch_http-catch_rpc (rpc_exception (text m)) h = absurd (h m refl)
    catch_http-catch_rpc (rpc_exception (payload p)) h = delivered_reply p
    catch_http-catch_rpc (error message stack) h = delivered_reply _
    catch_http-catch_rpc other h = delivered_reply _
