-- ===== src/Contracts/Messages/Requests.antt =====
-- The requests to the parser are decoded to what was encoded.
use email_platform_services.Common.{ℕ, refl, String, Bool, Option, none, some, ℤ, Outcome, arith}
use email_platform_services.Paging.{PaginationRequest}
use email_platform_services.Parser.Messages.{
  ParserTaskIdRequest, CreateParserTaskRequest, ListParserTasksRequest, UpdateParserSettingsRequest,
}
use email_platform_services.Contracts.Wire.{Writing, Reading, IsInt32}
use email_platform_services.Contracts.Codec.{settled, Decoded, chosen}
use email_platform_services.Contracts.Codec.Fields.{Writes, AllOf, ◌⨾◌}
use email_platform_services.Contracts.Codec.Values.{
  Writes-string, Writes-optional_int32, Writes-optional_bool,
}
use email_platform_services.Contracts.Codec.Nested.{Sends, Writes-optional_message}
use email_platform_services.Contracts.Messages.{
  CommonMessages, task_id_request, task_id_request_encode, create_task_request,
  create_task_request_encode, list_tasks_request, list_tasks_request_encode,
  update_settings_request, update_settings_request_encode,
}
use email_platform_services.Contracts.Messages.Ends.{
  HonestCommon, IsSendableRequest, task_id_request-AllSettle, create_task_request-AllSettle,
  list_tasks_request-AllSettle, update_settings_request-AllSettle,
}

module _ {writing : Writing} {reading : Reading writing} (common : CommonMessages reading)
    (honest : HonestCommon common) where
  open writing use {Writer}

  abbrev task_id_request_of : String → ParserTaskIdRequest
  task_id_request_of id = record { id = id }

  pub task_id_request-Writes :
      (m : ParserTaskIdRequest)
      → Writes reading
          (task_id_request common).cases
          (task_id_request_encode common m)
          (task_id_request common).base
          m
  unfolding task_id_request_encode chosen
  task_id_request-Writes m =
      Writes-string reading (task_id_request common).cases (task_id_request-AllSettle common honest)
        10 _ (λ v. task_id_request_of v) m.id (omega arith) (1, refl) refl

  abbrev create_task_request_of : String → String → String → String → CreateParserTaskRequest
  create_task_request_of category date_from date_to user_id = record {
    category = category;
    date_from = date_from;
    date_to = date_to;
    user_id = user_id;
  }

  pub create_task_request-Writes :
      (m : CreateParserTaskRequest)
      → Writes reading
          (create_task_request common).cases
          (create_task_request_encode common m)
          (create_task_request common).base
          m
  unfolding create_task_request_encode chosen
  create_task_request-Writes m =
      Writes-string reading (create_task_request common).cases
        (create_task_request-AllSettle common honest) 10 _ (λ v. create_task_request_of v "" "" "")
        m.category (omega arith) (1, refl) refl
      ⨾ Writes-string reading (create_task_request common).cases
          (create_task_request-AllSettle common honest) 18 _
          (λ v. create_task_request_of m.category v "" "") m.date_from (omega arith) (2, refl) refl
      ⨾ Writes-string reading (create_task_request common).cases
          (create_task_request-AllSettle common honest) 26 _
          (λ v. create_task_request_of m.category m.date_from v "") m.date_to (omega arith)
          (3, refl) refl
      ⨾ Writes-string reading (create_task_request common).cases
          (create_task_request-AllSettle common honest) 34 _
          (λ v. create_task_request_of m.category m.date_from m.date_to v) m.user_id (omega arith)
          (4, refl) refl

  pub optional_sends :
      {A : Type 0} (encode : A → Writer → Outcome Writer)
      (decode_it : Option ℕ → reading.Reader → Decoded (A × reading.Reader)) (P : A → Type 0)
      → ((a : A) → P a → Sends reading encode decode_it a)
      → (a : Option A) → AllOf P a
      → AllOf (Sends reading encode decode_it) a
  optional_sends encode decode_it P sends none h = tt
  optional_sends encode decode_it P sends (some a) h = sends a h

  abbrev list_tasks_request_of : Option PaginationRequest → String → ListParserTasksRequest
  list_tasks_request_of pagination user_id = record { pagination = pagination; user_id = user_id }

  pub list_tasks_request-Writes :
      (m : ListParserTasksRequest)
      → AllOf IsSendableRequest m.pagination
      → Writes reading
          (list_tasks_request common).cases
          (list_tasks_request_encode common m)
          (list_tasks_request common).base
          m
  unfolding list_tasks_request_encode chosen
  list_tasks_request-Writes m page =
      Writes-optional_message reading (list_tasks_request common).cases
        (list_tasks_request-AllSettle common honest) common.pagination_request.encode
        (λ length r. settled (common.pagination_request.decode length r)) 10 _ (omega arith)
        (1, refl) (λ v. list_tasks_request_of v "") m.pagination (λ b. refl)
        (optional_sends common.pagination_request.encode _ _ honest.pagination_request.sends
          m.pagination page)
      ⨾ Writes-string reading (list_tasks_request common).cases
          (list_tasks_request-AllSettle common honest) 18 _
          (λ v. list_tasks_request_of m.pagination v) m.user_id (omega arith) (2, refl) refl

  abbrev update_settings_request_of :
      Option ℤ → Option ℤ → Option Bool → UpdateParserSettingsRequest
  update_settings_request_of max_pages batch_size auto_import = record {
    max_pages = max_pages;
    batch_size = batch_size;
    auto_import = auto_import;
  }

  pub update_settings_request-Writes :
      (m : UpdateParserSettingsRequest)
      → AllOf IsInt32 m.max_pages
      → AllOf IsInt32 m.batch_size
      → Writes reading
          (update_settings_request common).cases
          (update_settings_request_encode common m)
          (update_settings_request common).base
          m
  unfolding update_settings_request_encode chosen
  update_settings_request-Writes m max batch =
      Writes-optional_int32 reading (update_settings_request common).cases
        (update_settings_request-AllSettle common honest) 8 _
        (λ v. update_settings_request_of v none none) m.max_pages (omega arith) max (1, refl)
        (λ k. refl)
      ⨾ Writes-optional_int32 reading (update_settings_request common).cases
          (update_settings_request-AllSettle common honest) 16 _
          (λ v. update_settings_request_of m.max_pages v none) m.batch_size (omega arith) batch
          (2, refl) (λ k. refl)
      ⨾ Writes-optional_bool reading (update_settings_request common).cases
          (update_settings_request-AllSettle common honest) 24 _
          (λ v. update_settings_request_of m.max_pages m.batch_size v) m.auto_import (omega arith)
          (3, refl) (λ k. refl)
