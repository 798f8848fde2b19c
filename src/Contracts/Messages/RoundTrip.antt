-- ===== src/Contracts/Messages/RoundTrip.antt =====
-- The messages that the parser replies with are decoded to what was encoded.
use email_platform_services.Common.{
  ◌^◌, ◌<◌, ◌≡◌, refl, String, Bool, false, Option, none, List, [], ◌∷◌, All, length, ℤ, pos,
  Outcome, ok, arith,
}
use email_platform_services.Paging.{PaginationMeta, ListOf}
use email_platform_services.Parser.Messages.{ParserTaskMessage, ParserSettings}
use email_platform_services.Contracts.Wire.{Bytes, Writing, Reading, IsInt32}
use email_platform_services.Contracts.Codec.{settled, chosen, decode, serialize}
use email_platform_services.Contracts.Codec.Fields.{Writes, AllOf, ◌⨾◌}
use email_platform_services.Contracts.Codec.Values.{Writes-string, Writes-int32, Writes-bool}
use email_platform_services.Contracts.Codec.Nested.{
  Sends, sent, serialize-deserialize, Writes-optional_message, Writes-each,
}
use email_platform_services.Contracts.Messages.{
  CommonMessages, parser_task, parser_task_encode, parser_task_list, parser_task_list_encode,
  parser_settings, parser_settings_encode,
}
use email_platform_services.Contracts.Messages.Ends.{
  HonestCommon, IsSendableMeta, parser_task-AllSettle, parser_task_list-AllSettle,
  parser_settings-AllSettle,
}
use email_platform_services.Contracts.Messages.Requests.{optional_sends}

module _ {writing : Writing} {reading : Reading writing} (common : CommonMessages reading) where
  -- A message that is encoded in less than 4 GiB.
  abbrev IsShort :
      (ParserTaskMessage → writing.Writer → Outcome writing.Writer) → ParserTaskMessage → Type 0
  IsShort encode m = (bytes : Bytes) → serialize writing encode m ≡ ok bytes → length bytes < 2 ^ 32

  abbrev pub IsSendableTask : ParserTaskMessage → Type 0
  IsSendableTask t =
      IsInt32 t.total_found × IsInt32 t.total_parsed × IsShort (parser_task_encode common) t

module _ {writing : Writing} {reading : Reading writing} (common : CommonMessages reading)
    (honest : HonestCommon common) where
  open writing use {Writer}

  abbrev parser_task_of :
      String
      → String
      → String
      → String
      → String
      → ℤ
      → ℤ
      → String
      → String
      → String
      → String
      → ParserTaskMessage
  parser_task_of id category status date_from date_to total_found total_parsed csv_url user_id
        created_at updated_at =
      record {
        id = id;
        category = category;
        status = status;
        date_from = date_from;
        date_to = date_to;
        total_found = total_found;
        total_parsed = total_parsed;
        csv_url = csv_url;
        user_id = user_id;
        created_at = created_at;
        updated_at = updated_at;
      }

  pub parser_task-Writes :
      (m : ParserTaskMessage)
      → IsInt32 m.total_found
      → IsInt32 m.total_parsed
      → Writes reading
          (parser_task common).cases
          (parser_task_encode common m)
          (parser_task common).base
          m
  unfolding parser_task_encode chosen
  parser_task-Writes m found parsed =
      Writes-string reading (parser_task common).cases (parser_task-AllSettle common honest) 10 _
        (λ v. parser_task_of v "" "" "" "" (pos 0) (pos 0) "" "" "" "") m.id (omega arith) (1, refl)
        refl
      ⨾ Writes-string reading (parser_task common).cases (parser_task-AllSettle common honest) 18 _
          (λ v. parser_task_of m.id v "" "" "" (pos 0) (pos 0) "" "" "" "") m.category (omega arith)
          (2, refl) refl
      ⨾ Writes-string reading (parser_task common).cases (parser_task-AllSettle common honest) 26 _
          (λ v. parser_task_of m.id m.category v "" "" (pos 0) (pos 0) "" "" "" "") m.status
          (omega arith) (3, refl) refl
      ⨾ Writes-string reading (parser_task common).cases (parser_task-AllSettle common honest) 34 _
          (λ v. parser_task_of m.id m.category m.status v "" (pos 0) (pos 0) "" "" "" "")
          m.date_from (omega arith) (4, refl) refl
      ⨾ Writes-string reading (parser_task common).cases (parser_task-AllSettle common honest) 42 _
          (λ v. parser_task_of m.id m.category m.status m.date_from v (pos 0) (pos 0) "" "" "" "")
          m.date_to (omega arith) (5, refl) refl
      ⨾ Writes-int32 reading (parser_task common).cases (parser_task-AllSettle common honest) 48 _
          (λ v. parser_task_of m.id m.category m.status m.date_from m.date_to v (pos 0) "" "" "" "")
          m.total_found (omega arith) found (6, refl) refl
      ⨾ Writes-int32 reading (parser_task common).cases (parser_task-AllSettle common honest) 56 _
          (λ v.
            parser_task_of m.id m.category m.status m.date_from m.date_to m.total_found v "" "" ""
              "")
          m.total_parsed (omega arith) parsed (7, refl) refl
      ⨾ Writes-string reading (parser_task common).cases (parser_task-AllSettle common honest) 66 _
          (λ v.
            parser_task_of m.id m.category m.status m.date_from m.date_to m.total_found
              m.total_parsed v "" "" "")
          m.csv_url (omega arith) (8, refl) refl
      ⨾ Writes-string reading (parser_task common).cases (parser_task-AllSettle common honest) 74 _
          (λ v.
            parser_task_of m.id m.category m.status m.date_from m.date_to m.total_found
              m.total_parsed m.csv_url v "" "")
          m.user_id (omega arith) (9, refl) refl
      ⨾ Writes-string reading (parser_task common).cases (parser_task-AllSettle common honest) 82 _
          (λ v.
            parser_task_of m.id m.category m.status m.date_from m.date_to m.total_found
              m.total_parsed m.csv_url m.user_id v "")
          m.created_at (omega arith) (10, refl) refl
      ⨾ Writes-string reading (parser_task common).cases (parser_task-AllSettle common honest) 90 _
          (λ v.
            parser_task_of m.id m.category m.status m.date_from m.date_to m.total_found
              m.total_parsed m.csv_url m.user_id m.created_at v)
          m.updated_at (omega arith) (11, refl) refl

  task_sends :
      (t : ParserTaskMessage)
      → IsSendableTask common t
      → Sends reading (parser_task_encode common) (decode reading (parser_task common)) t
  task_sends t (found, parsed, short) =
      let writes = parser_task-Writes t found parsed in
      let whole =
        serialize-deserialize reading (parser_task common) (parser_task_encode common) t writes in
      sent reading (parser_task common) (parser_task_encode common) t writes
        (short writes.bytes whole.0)

  tasks_send :
      (ts : List ParserTaskMessage)
      → All (IsSendableTask common) ts
      → All (Sends reading (parser_task_encode common) (decode reading (parser_task common))) ts
  tasks_send [] h = tt
  tasks_send (t ∷ ts) (h, later) = (task_sends t h, tasks_send ts later)

  abbrev parser_task_list_of :
      List ParserTaskMessage → Option PaginationMeta → ListOf ParserTaskMessage
  parser_task_list_of items pagination = record { items = items; pagination = pagination }

  pub parser_task_list-Writes :
      (m : ListOf ParserTaskMessage)
      → All (IsSendableTask common) m.items
      → AllOf IsSendableMeta m.pagination
      → Writes reading
          (parser_task_list common).cases
          (parser_task_list_encode common m)
          (parser_task_list common).base
          m
  unfolding parser_task_list_encode chosen
  parser_task_list-Writes m tasks page =
      Writes-each reading (parser_task_list common).cases (parser_task_list-AllSettle common honest)
        (parser_task_encode common) (decode reading (parser_task common)) 10 _ (omega arith)
        (1, refl) (λ v. parser_task_list_of v none) [] m.items (λ have b. refl)
        (tasks_send m.items tasks)
      ⨾ Writes-optional_message reading (parser_task_list common).cases
          (parser_task_list-AllSettle common honest) common.pagination_meta.encode
          (λ length r. settled (common.pagination_meta.decode length r)) 18 _ (omega arith)
          (2, refl) (λ v. parser_task_list_of m.items v) m.pagination (λ b. refl)
          (optional_sends common honest common.pagination_meta.encode _ _
            honest.pagination_meta.sends m.pagination page)

  abbrev parser_settings_of : ℤ → ℤ → Bool → ParserSettings
  parser_settings_of max_pages batch_size auto_import = record {
    max_pages = max_pages;
    batch_size = batch_size;
    auto_import = auto_import;
  }

  pub parser_settings-Writes :
      (m : ParserSettings)
      → IsInt32 m.max_pages
      → IsInt32 m.batch_size
      → Writes reading
          (parser_settings common).cases
          (parser_settings_encode common m)
          (parser_settings common).base
          m
  unfolding parser_settings_encode chosen
  parser_settings-Writes m max batch =
      Writes-int32 reading (parser_settings common).cases (parser_settings-AllSettle common honest)
        8 _ (λ v. parser_settings_of v (pos 0) false) m.max_pages (omega arith) max (1, refl) refl
      ⨾ Writes-int32 reading (parser_settings common).cases
          (parser_settings-AllSettle common honest) 16 _
          (λ v. parser_settings_of m.max_pages v false) m.batch_size (omega arith) batch (2, refl)
          refl
      ⨾ Writes-bool reading (parser_settings common).cases (parser_settings-AllSettle common honest)
          24 _ (λ v. parser_settings_of m.max_pages m.batch_size v) m.auto_import (omega arith)
          (3, refl) refl
