-- ===== src/Grpc/Calls.antt =====
-- packages/foundation/src/external/grpc/clients/promisify-grpc-client.ts and
-- external/resilience/grpc-deadline.interceptor.ts: what a call through a client carries.
use Prim.Native.String.{◌++◌ as append}
use email_platform_services.Common.{
  ℕ, zero, suc, ◌+◌, String, Bool, true, false, Option, none, some, get_or, [], Dict, lookup,
  insert, Outcome,
}

pub record CallOpts : Type 0 where
  pub deadline_ms : Option ℕ

-- A property of a client. A method of the raw client takes a request and the metadata; a method of
-- the proxy takes a request and the options of the call. Both settle with the last value.
pub data ClientProperty (S : Type 0) : Type 0 where
  method : (String → Dict String → S → Outcome String × S) → ClientProperty S
  promised : (String → Option CallOpts → S → Outcome String × S) → ClientProperty S
  plain : String → ClientProperty S
  undefined : ClientProperty S

pub data PropertyKey : Type 0 where
  named symbol : String → PropertyKey

-- An object with its own members and what it inherits.
pub record RawClient (S : Type 0) : Type 0 where
  pub own : Dict (ClientProperty S)
  pub inherited : PropertyKey → ClientProperty S

unfoldable pub deadline_of : ℕ → Option CallOpts → ℕ
deadline_of default_deadline_ms none = default_deadline_ms
deadline_of default_deadline_ms (some call_opts) = get_or call_opts.deadline_ms default_deadline_ms

-- `show` is the text of a number.
unfoldable pub deadline_metadata : (ℕ → String) → ℕ → Dict String
deadline_metadata show deadline_ms = insert "grpc-timeout" (append (show deadline_ms) "m") []

module _ {S : Type 0} where
  unfoldable pub reflect_get : RawClient S → PropertyKey → ClientProperty S
  reflect_get raw (named name) = elim (lookup name raw.own) [
    | some member ↦ member
    | none ↦ raw.inherited (named name)
  ]
  reflect_get raw (symbol name) = raw.inherited (symbol name)

  -- `Object.keys(raw)` has the property.
  unfoldable pub is_rpc_method : RawClient S → PropertyKey → Bool
  is_rpc_method raw (named name) = elim (lookup name raw.own) [ some member ↦ true | none ↦ false ]
  is_rpc_method raw (symbol name) = false

  -- The `get` trap of the proxy.
  unfoldable pub promisified : (ℕ → String) → ℕ → RawClient S → PropertyKey → ClientProperty S
  unfolding reflect_get is_rpc_method deadline_of deadline_metadata
  promisified show default_deadline_ms raw prop = elim (is_rpc_method raw prop) [
    | false ↦ reflect_get raw prop
    | true ↦ elim (reflect_get raw prop) [
      | method orig ↦ promised (λ request call_opts.
          orig request (deadline_metadata show (deadline_of default_deadline_ms call_opts)))
      | promised call ↦ promised call
      | plain text ↦ plain text
      | undefined ↦ undefined
    ]
  ]

-- A deadline of grpc-js: a date or a number, in milliseconds.
pub data Deadline : Type 0 where
  date number : ℕ → Deadline

-- The options of a call; a call without a deadline has `none`.
pub record CallOptions : Type 0 where
  pub deadline : Option Deadline

-- `!options.deadline` is false of a date and of a number that is not 0.
unfoldable pub has_deadline : Option Deadline → Bool
has_deadline none = false
has_deadline (some (date at)) = true
has_deadline (some (number zero)) = false
has_deadline (some (number (suc at))) = true

-- The options that the interceptor hands on, at a time.
unfoldable pub with_default_deadline : ℕ → ℕ → CallOptions → CallOptions
unfolding has_deadline
with_default_deadline default_deadline_ms now options = elim (has_deadline options.deadline) [
  | true ↦ options
  | false ↦ record options { deadline = some (date (now + default_deadline_ms)) }
]
