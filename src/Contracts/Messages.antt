-- ===== src/Contracts/Messages.antt =====
-- The messages of packages/contracts/src/generated/parser.ts: `encode`, `createBase...` and the
-- switch of `decode` of each. Its imports from `./common`, which the build generates, are a
-- parameter; the types are those of Parser.Messages.
pub mod Ends
pub mod Requests
pub mod RoundTrip
pub mod Versions
pub mod Refused
use email_platform_services.Common.{
  ℕ, String, Bool, true, false, Option, none, some, List, [], ◌∷◌, ◌++◌, ℤ, pos, Outcome, ok,
}
use email_platform_services.Paging.{PaginationRequest, PaginationMeta, ListOf}
use email_platform_services.Parser.Messages.{
  ParserTaskIdRequest, CreateParserTaskRequest, ListParserTasksRequest, UpdateParserSettingsRequest,
  ParserTaskMessage, ParserSettings,
}
use email_platform_services.Contracts.Wire.{Writing, Reading}
use email_platform_services.Contracts.Codec.{
  ◌>>=◌, Case, Decoder, string_field, int32_field, bool_field, int32_present, bool_present,
  optional_field, message_present, each_present, decode, read_value, read_message, settled,
}

-- `encode` and `decode` of a message of `./common`.
pub record Codec {writing : Writing} (reading : Reading writing) (M : Type 0) : Type 0 where
  pub encode : M → writing.Writer → Outcome writing.Writer
  pub decode : Option ℕ → reading.Reader → Outcome (M × reading.Reader)

pub record CommonMessages {writing : Writing} (reading : Reading writing) : Type 1 where
  pub Empty : Type 0
  pub HealthStatus : Type 0
  pub empty : Codec reading Empty
  pub health_status : Codec reading HealthStatus
  pub pagination_request : Codec reading PaginationRequest
  pub pagination_meta : Codec reading PaginationMeta

module _ {writing : Writing} {reading : Reading writing} (common : CommonMessages reading) where
  unfoldable pub task_id_request_encode :
      ParserTaskIdRequest → writing.Writer → Outcome writing.Writer
  unfolding ◌>>=◌ string_field
  task_id_request_encode message w = string_field writing 10 message.id w

  unfoldable pub create_task_request_encode :
      CreateParserTaskRequest → writing.Writer → Outcome writing.Writer
  unfolding ◌>>=◌ string_field
  create_task_request_encode message w =
      string_field writing 10 message.category w
      >>= string_field writing 18 message.date_from
      >>= string_field writing 26 message.date_to
      >>= string_field writing 34 message.user_id

  unfoldable pub list_tasks_request_encode :
      ListParserTasksRequest → writing.Writer → Outcome writing.Writer
  unfolding ◌>>=◌ optional_field message_present string_field
  list_tasks_request_encode message w =
      optional_field writing (message_present writing common.pagination_request.encode) 10
        message.pagination w
      >>= string_field writing 18 message.user_id

  unfoldable pub update_settings_request_encode :
      UpdateParserSettingsRequest → writing.Writer → Outcome writing.Writer
  unfolding ◌>>=◌ optional_field int32_present bool_present
  update_settings_request_encode message w =
      optional_field writing (int32_present writing) 8 message.max_pages w
      >>= optional_field writing (int32_present writing) 16 message.batch_size
      >>= optional_field writing (bool_present writing) 24 message.auto_import

  unfoldable pub parser_task_encode : ParserTaskMessage → writing.Writer → Outcome writing.Writer
  unfolding ◌>>=◌ string_field int32_field
  parser_task_encode message w =
      string_field writing 10 message.id w
      >>= string_field writing 18 message.category
      >>= string_field writing 26 message.status
      >>= string_field writing 34 message.date_from
      >>= string_field writing 42 message.date_to
      >>= int32_field writing 48 message.total_found
      >>= int32_field writing 56 message.total_parsed
      >>= string_field writing 66 message.csv_url
      >>= string_field writing 74 message.user_id
      >>= string_field writing 82 message.created_at
      >>= string_field writing 90 message.updated_at

  unfoldable pub parser_task_list_encode :
      ListOf ParserTaskMessage → writing.Writer → Outcome writing.Writer
  unfolding ◌>>=◌ each_present parser_task_encode optional_field message_present
  parser_task_list_encode message w =
      each_present writing parser_task_encode 10 message.items w
      >>= optional_field writing (message_present writing common.pagination_meta.encode) 18
          message.pagination

  unfoldable pub parser_settings_encode : ParserSettings → writing.Writer → Outcome writing.Writer
  unfolding ◌>>=◌ int32_field bool_field
  parser_settings_encode message w =
      int32_field writing 8 message.max_pages w
      >>= int32_field writing 16 message.batch_size
      >>= bool_field writing 24 message.auto_import

  abbrev pub task_id_request_base : ParserTaskIdRequest
  task_id_request_base = record { id = "" }

  abbrev pub task_id_request : Decoder ParserTaskIdRequest reading.Reader
  task_id_request = record {
    base = task_id_request_base;
    cases =
        record {
          number = 1;
          tag = 10;
          read = read_value reading reading.string (λ m v. record m { id = v });
        }
        ∷ [];
  }

  abbrev pub create_task_request_base : CreateParserTaskRequest
  create_task_request_base = record { category = ""; date_from = ""; date_to = ""; user_id = "" }

  abbrev pub create_task_request : Decoder CreateParserTaskRequest reading.Reader
  create_task_request = record {
    base = create_task_request_base;
    cases =
        record {
          number = 1;
          tag = 10;
          read = read_value reading reading.string (λ m v. record m { category = v });
        }
        ∷ record {
          number = 2;
          tag = 18;
          read = read_value reading reading.string (λ m v. record m { date_from = v });
        }
        ∷ record {
          number = 3;
          tag = 26;
          read = read_value reading reading.string (λ m v. record m { date_to = v });
        }
        ∷ record {
          number = 4;
          tag = 34;
          read = read_value reading reading.string (λ m v. record m { user_id = v });
        }
        ∷ [];
  }

  abbrev pub list_tasks_request_base : ListParserTasksRequest
  list_tasks_request_base = record { pagination = none; user_id = "" }

  abbrev pub list_tasks_request : Decoder ListParserTasksRequest reading.Reader
  list_tasks_request = record {
    base = list_tasks_request_base;
    cases =
        record {
          number = 1;
          tag = 10;
          read =
              read_message reading (λ length r. settled (common.pagination_request.decode length r))
                (λ m v. record m { pagination = some v });
        }
        ∷ record {
          number = 2;
          tag = 18;
          read = read_value reading reading.string (λ m v. record m { user_id = v });
        }
        ∷ [];
  }

  abbrev pub update_settings_request_base : UpdateParserSettingsRequest
  update_settings_request_base = record { max_pages = none; batch_size = none; auto_import = none }

  abbrev pub update_settings_request : Decoder UpdateParserSettingsRequest reading.Reader
  update_settings_request = record {
    base = update_settings_request_base;
    cases =
        record {
          number = 1;
          tag = 8;
          read = read_value reading reading.int32 (λ m v. record m { max_pages = some v });
        }
        ∷ record {
          number = 2;
          tag = 16;
          read = read_value reading reading.int32 (λ m v. record m { batch_size = some v });
        }
        ∷ record {
          number = 3;
          tag = 24;
          read = read_value reading reading.bool (λ m v. record m { auto_import = some v });
        }
        ∷ [];
  }

  abbrev pub parser_task_base : ParserTaskMessage
  parser_task_base = record {
    id = "";
    category = "";
    status = "";
    date_from = "";
    date_to = "";
    total_found = pos 0;
    total_parsed = pos 0;
    csv_url = "";
    user_id = "";
    created_at = "";
    updated_at = "";
  }

  abbrev pub parser_task : Decoder ParserTaskMessage reading.Reader
  parser_task = record {
    base = parser_task_base;
    cases =
        record {
          number = 1;
          tag = 10;
          read = read_value reading reading.string (λ m v. record m { id = v });
        }
        ∷ record {
          number = 2;
          tag = 18;
          read = read_value reading reading.string (λ m v. record m { category = v });
        }
        ∷ record {
          number = 3;
          tag = 26;
          read = read_value reading reading.string (λ m v. record m { status = v });
        }
        ∷ record {
          number = 4;
          tag = 34;
          read = read_value reading reading.string (λ m v. record m { date_from = v });
        }
        ∷ record {
          number = 5;
          tag = 42;
          read = read_value reading reading.string (λ m v. record m { date_to = v });
        }
        ∷ record {
          number = 6;
          tag = 48;
          read = read_value reading reading.int32 (λ m v. record m { total_found = v });
        }
        ∷ record {
          number = 7;
          tag = 56;
          read = read_value reading reading.int32 (λ m v. record m { total_parsed = v });
        }
        ∷ record {
          number = 8;
          tag = 66;
          read = read_value reading reading.string (λ m v. record m { csv_url = v });
        }
        ∷ record {
          number = 9;
          tag = 74;
          read = read_value reading reading.string (λ m v. record m { user_id = v });
        }
        ∷ record {
          number = 10;
          tag = 82;
          read = read_value reading reading.string (λ m v. record m { created_at = v });
        }
        ∷ record {
          number = 11;
          tag = 90;
          read = read_value reading reading.string (λ m v. record m { updated_at = v });
        }
        ∷ [];
  }

  abbrev pub parser_task_list_base : ListOf ParserTaskMessage
  parser_task_list_base = record { items = []; pagination = none }

  abbrev pub parser_task_list : Decoder (ListOf ParserTaskMessage) reading.Reader
  parser_task_list = record {
    base = parser_task_list_base;
    cases =
        record {
          number = 1;
          tag = 10;
          read =
              read_message reading (decode reading parser_task)
                (λ m v. record m { items = m.items ++ (v ∷ []) });
        }
        ∷ record {
          number = 2;
          tag = 18;
          read =
              read_message reading (λ length r. settled (common.pagination_meta.decode length r))
                (λ m v. record m { pagination = some v });
        }
        ∷ [];
  }

  abbrev pub parser_settings_base : ParserSettings
  parser_settings_base = record { max_pages = pos 0; batch_size = pos 0; auto_import = false }

  abbrev pub parser_settings : Decoder ParserSettings reading.Reader
  parser_settings = record {
    base = parser_settings_base;
    cases =
        record {
          number = 1;
          tag = 8;
          read = read_value reading reading.int32 (λ m v. record m { max_pages = v });
        }
        ∷ record {
          number = 2;
          tag = 16;
          read = read_value reading reading.int32 (λ m v. record m { batch_size = v });
        }
        ∷ record {
          number = 3;
          tag = 24;
          read = read_value reading reading.bool (λ m v. record m { auto_import = v });
        }
        ∷ [];
  }
