-- ===== src/Contracts/Messages/Ends.antt =====
-- Every `decode` of parser.ts ends.
use email_platform_services.Common.{
  ℕ, ◌^◌, ◌≤◌, ◌<◌, ◌≡◌, refl, Option, none, some, ok, ◌⊎◌, inl, inr, Thrown,
}
use email_platform_services.Paging.{PaginationRequest, PaginationMeta}
use email_platform_services.Contracts.Wire.{Bytes, Writing, Reading}
use email_platform_services.Contracts.Codec.{
  Decoded, got, fails, Decoder, settled, and_then, decode, deserialize,
}
use email_platform_services.Contracts.Codec.Loop.{AllSettle, decode-Settles}
use email_platform_services.Contracts.Codec.Reads.{
  ◌&◌, settled-Settles, read_value-Settles, read_message-Settles,
}
use email_platform_services.Contracts.Codec.Nested.{Sends}
use email_platform_services.Contracts.Messages.{
  Codec, CommonMessages, task_id_request, create_task_request, list_tasks_request,
  update_settings_request, parser_task, parser_task_list, parser_settings,
}

-- What parser.ts relies on of `./common`: its messages are read in their bytes or throw, and one
-- whose numbers are of 32 bits is read back from what it is sent as.
pub record HonestCodec {writing : Writing} {reading : Reading writing} {M : Type 0}
    (codec : Codec reading M) (Sendable : M → Type 0) : Type 0 where
  pub goes_on :
      (length : Option ℕ) (r q : reading.Reader) (m : M)
      → codec.decode length r ≡ ok (m, q)
      → reading.at r ≤ reading.at q
  pub sends :
      (m : M)
      → Sendable m
      → Sends reading codec.encode (λ length r. settled (codec.decode length r)) m

abbrev pub IsSendableRequest : PaginationRequest → Type 0
IsSendableRequest p = (p.page < 2 ^ 31) × (p.limit < 2 ^ 31)

abbrev pub IsSendableMeta : PaginationMeta → Type 0
IsSendableMeta p = (p.total < 2 ^ 31) × (p.page < 2 ^ 31) × (p.limit < 2 ^ 31) × (p.pages < 2 ^ 31)

pub record HonestCommon {writing : Writing} {reading : Reading writing}
    (common : CommonMessages reading) : Type 0 where
  pub pagination_request : HonestCodec common.pagination_request IsSendableRequest
  pub pagination_meta : HonestCodec common.pagination_meta IsSendableMeta

-- A message came out, or an error that a read threw.
abbrev pub Ends : {M : Type 0} → Decoded M → Type 0
Ends {M} d = ((m : M) × (d ≡ got m)) ⊎ ((err : Thrown) × (d ≡ fails err))

module _ {writing : Writing} {reading : Reading writing} (common : CommonMessages reading)
    (honest : HonestCommon common) where
  pub task_id_request-AllSettle : AllSettle reading (task_id_request common).cases
  task_id_request-AllSettle =
      read_value-Settles reading _ reading.string reading.string_goes_on & tt

  pub create_task_request-AllSettle : AllSettle reading (create_task_request common).cases
  create_task_request-AllSettle =
      read_value-Settles reading _ reading.string reading.string_goes_on
      & read_value-Settles reading _ reading.string reading.string_goes_on
      & read_value-Settles reading _ reading.string reading.string_goes_on
      & read_value-Settles reading _ reading.string reading.string_goes_on
      & tt

  pub list_tasks_request-AllSettle : AllSettle reading (list_tasks_request common).cases
  list_tasks_request-AllSettle =
      read_message-Settles reading _
        (λ length r. settled (common.pagination_request.decode length r))
        (λ length r.
          settled-Settles reading _ r
            (λ q m e. honest.pagination_request.goes_on (some length) r q m e))
      & read_value-Settles reading _ reading.string reading.string_goes_on
      & tt

  pub update_settings_request-AllSettle : AllSettle reading (update_settings_request common).cases
  update_settings_request-AllSettle =
      read_value-Settles reading _ reading.int32 reading.int32_goes_on
      & read_value-Settles reading _ reading.int32 reading.int32_goes_on
      & read_value-Settles reading _ reading.bool reading.bool_goes_on
      & tt

  pub parser_task-AllSettle : AllSettle reading (parser_task common).cases
  parser_task-AllSettle =
      read_value-Settles reading _ reading.string reading.string_goes_on
      & read_value-Settles reading _ reading.string reading.string_goes_on
      & read_value-Settles reading _ reading.string reading.string_goes_on
      & read_value-Settles reading _ reading.string reading.string_goes_on
      & read_value-Settles reading _ reading.string reading.string_goes_on
      & read_value-Settles reading _ reading.int32 reading.int32_goes_on
      & read_value-Settles reading _ reading.int32 reading.int32_goes_on
      & read_value-Settles reading _ reading.string reading.string_goes_on
      & read_value-Settles reading _ reading.string reading.string_goes_on
      & read_value-Settles reading _ reading.string reading.string_goes_on
      & read_value-Settles reading _ reading.string reading.string_goes_on
      & tt

  pub parser_task_list-AllSettle : AllSettle reading (parser_task_list common).cases
  parser_task_list-AllSettle =
      read_message-Settles reading _ (decode reading (parser_task common)) (λ length r.
        decode-Settles reading (parser_task common) (some length) r parser_task-AllSettle)
      & read_message-Settles reading _
          (λ length r. settled (common.pagination_meta.decode length r))
          (λ length r.
            settled-Settles reading _ r
              (λ q m e. honest.pagination_meta.goes_on (some length) r q m e))
      & tt

  pub parser_settings-AllSettle : AllSettle reading (parser_settings common).cases
  parser_settings-AllSettle =
      read_value-Settles reading _ reading.int32 reading.int32_goes_on
      & read_value-Settles reading _ reading.int32 reading.int32_goes_on
      & read_value-Settles reading _ reading.bool reading.bool_goes_on
      & tt

  deserialize-Ends :
      {M : Type 0} (message : Decoder M reading.Reader) (bytes : Bytes)
      → AllSettle reading message.cases
      → Ends (deserialize reading (decode reading message) bytes)
  unfolding deserialize and_then
  deserialize-Ends message bytes total =
      elim (decode-Settles reading message none (reading.new bytes) total) [
        | inl (m, r, e, on) ↦ inl (m, rw (e, and_then) refl)
        | inr (err, e) ↦ inr (err, rw (e, and_then) refl)
      ]

  -- Whatever the bytes, each `decode` of parser.ts comes to an end, with a message or with the error
  -- of a read: its loop never runs out of the rounds that it is given, one more than there are
  -- bytes.
  pub messages_end :
      (bytes : Bytes)
      → Ends (deserialize reading (decode reading (task_id_request common)) bytes)
        × Ends (deserialize reading (decode reading (create_task_request common)) bytes)
        × Ends (deserialize reading (decode reading (list_tasks_request common)) bytes)
        × Ends (deserialize reading (decode reading (update_settings_request common)) bytes)
        × Ends (deserialize reading (decode reading (parser_task common)) bytes)
        × Ends (deserialize reading (decode reading (parser_task_list common)) bytes)
        × Ends (deserialize reading (decode reading (parser_settings common)) bytes)
  messages_end bytes = (
    deserialize-Ends (task_id_request common) bytes task_id_request-AllSettle,
    deserialize-Ends (create_task_request common) bytes create_task_request-AllSettle,
    deserialize-Ends (list_tasks_request common) bytes list_tasks_request-AllSettle,
    deserialize-Ends (update_settings_request common) bytes update_settings_request-AllSettle,
    deserialize-Ends (parser_task common) bytes parser_task-AllSettle,
    deserialize-Ends (parser_task_list common) bytes parser_task_list-AllSettle,
    deserialize-Ends (parser_settings common) bytes parser_settings-AllSettle,
  )
