-- ===== src/Tests/Contracts.antt =====
-- The messages of the parser on a concrete wire.
use email_platform_services.Common.{
  ℕ, ◌+◌, ◌≤◌, ◌≡◌, refl, ap, String, true, none, some, [], ◌∷◌, length, pos, negsuc, Outcome, ok,
  throws, plain_error, arith,
}
use email_platform_services.Paging.{PaginationRequest, PaginationMeta, ListOf}
use email_platform_services.Parser.Messages.{
  ParserTaskMessage, ListParserTasksRequest, UpdateParserSettingsRequest, ParserSettings,
}
use email_platform_services.Contracts.Wire.{Bytes}
use email_platform_services.Contracts.Codec.{
  got, settled, ◌>>=◌, serialize, string_field, int32_field, int32_present, deserialize, decode,
}
use email_platform_services.Contracts.Messages.{
  Codec, CommonMessages, parser_task_encode, parser_task, parser_settings, parser_settings_encode,
}
use email_platform_services.Contracts.Messages.Ends.{
  HonestCodec, HonestCommon, IsSendableRequest, IsSendableMeta, Ends, messages_end,
}
use email_platform_services.Contracts.Messages.Versions.{newer_task_encode, newer_task_read_back}
use email_platform_services.Contracts.Messages.Refused.{serialize-settings_iff}
use email_platform_services.Contracts.Messages.RoundTrip.{IsSendableTask}
use email_platform_services.Contracts.Service.{list_tasks_method, update_settings_method}
use email_platform_services.Contracts.Service.Laws.{
  ReadsBack, requests_read_back, responses_read_back,
}
use email_platform_services.Parser.Controller.{task_reply}
use email_platform_services.Tests.Wire.{writing, reading, Standing, put, put-Adds}

abbrev two : Bytes → Outcome (PaginationRequest × Bytes)
two (page ∷ limit ∷ tail) = ok (record { page = page; limit = limit }, tail)
two _ = throws (plain_error "premature EOF")

abbrev four : Bytes → Outcome (PaginationMeta × Bytes)
four (total ∷ page ∷ limit ∷ pages ∷ tail) =
    ok (record { total = total; page = page; limit = limit; pages = pages }, tail)
four _ = throws (plain_error "premature EOF")

abbrev onward : {M : Type 0} → ℕ → ℕ → Outcome (M × Bytes) → Outcome (M × Standing)
onward at size (ok (m, tail)) = ok (m, (at + size, tail))
onward at size (throws err) = throws err

onward-le :
    {M : Type 0} (at size : ℕ) (o : Outcome (M × Bytes)) (q : Standing) (m : M)
    → onward at size o ≡ ok (m, q)
    → at ≤ q.0
onward-le at size (ok (n, tail)) q m e =
    let same : (at + size, tail) ≡ q = cc in
    let moved : at + size ≡ q.0 = ap (λ (w : Standing). w.0) same in omega arith
onward-le at size (throws err) q m e = absurd cc

abbrev page_request : Codec reading PaginationRequest
page_request = record {
  encode = λ p. put (p.page ∷ p.limit ∷ []);
  decode = λ length r. onward r.0 2 (two r.1);
}

abbrev page_meta : Codec reading PaginationMeta
page_meta = record {
  encode = λ p. put (p.total ∷ p.page ∷ p.limit ∷ p.pages ∷ []);
  decode = λ length r. onward r.0 4 (four r.1);
}

abbrev nothing : {M : Type 0} → Codec reading M
nothing = record { encode = λ m w. ok w; decode = λ length r. throws (plain_error "not used here") }

abbrev common : CommonMessages reading
common = record {
  Empty = Unit {0};
  HealthStatus = String;
  empty = nothing;
  health_status = nothing;
  pagination_request = page_request;
  pagination_meta = page_meta;
}

honest_request : HonestCodec page_request IsSendableRequest
unfolding settled
honest_request = record {
  goes_on = λ length r q m e. onward-le r.0 2 (two r.1) q m e;
  sends = λ m fits. record {
    bytes = m.page ∷ m.limit ∷ [];
    adds = put-Adds (m.page ∷ m.limit ∷ []);
    short = omega arith;
    takes = λ r tail e. ((r.0 + 2, tail), ap (λ b. settled (onward r.0 2 (two b))) e, refl, refl);
  };
}

honest_meta : HonestCodec page_meta IsSendableMeta
unfolding settled
honest_meta = record {
  goes_on = λ length r q m e. onward-le r.0 4 (four r.1) q m e;
  sends = λ m fits. record {
    bytes = m.total ∷ m.page ∷ m.limit ∷ m.pages ∷ [];
    adds = put-Adds (m.total ∷ m.page ∷ m.limit ∷ m.pages ∷ []);
    short = omega arith;
    takes = λ r tail e. ((r.0 + 4, tail), ap (λ b. settled (onward r.0 4 (four b))) e, refl, refl);
  };
}

honest : HonestCommon common
honest = record { pagination_request = honest_request; pagination_meta = honest_meta }

messages_end_example :
    Ends (deserialize reading (decode reading (parser_settings common)) (8 ∷ 0 ∷ 500 ∷ 99 ∷ []))
messages_end_example = (messages_end common honest (8 ∷ 0 ∷ 500 ∷ 99 ∷ [])).6

abbrev listed : ListParserTasksRequest
listed = record { pagination = some (record { page = 2; limit = 10 }); user_id = "1" }

abbrev update : UpdateParserSettingsRequest
update = record { max_pages = none; batch_size = some (negsuc 0); auto_import = some true }

requests_read_back_example :
    ReadsBack
      (update_settings_method common).request_serialize
      (update_settings_method common).request_deserialize
      update
requests_read_back_example =
    (requests_read_back common honest
      (record { category = "games"; date_from = "2026-01-01"; date_to = ""; user_id = "1" })
      (record { id = "7" }) listed update (omega arith, omega arith) tt (omega arith)).3

abbrev sent_task : ParserTaskMessage
sent_task = record {
  id = "7";
  category = "games";
  status = "running";
  date_from = "2026-01-01";
  date_to = "2026-01-31";
  total_found = pos 12;
  total_parsed = pos 3;
  csv_url = "";
  user_id = "1";
  created_at = "2026";
  updated_at = "2026";
}

abbrev sent_tasks : ListOf ParserTaskMessage
sent_tasks = record {
  items = sent_task ∷ [];
  pagination = some (record { total = 1; page = 2; limit = 10; pages = 1 });
}

abbrev size : Outcome Bytes → ℕ
size (ok bytes) = length bytes
size (throws err) = 0

task-IsSendable : IsSendableTask common sent_task
unfolding serialize parser_task_encode ◌>>=◌ string_field int32_field int32_present task_reply
task-IsSendable = (
  omega arith,
  omega arith,
  λ bytes e. let counted : 64 ≡ length bytes = ap size e in omega arith,
)

responses_read_back_example :
    ReadsBack
      (list_tasks_method common).response_serialize
      (list_tasks_method common).response_deserialize
      sent_tasks
unfolding task_reply
responses_read_back_example =
    (responses_read_back common honest sent_task sent_tasks
      (record { max_pages = pos 5; batch_size = pos 100; auto_import = true }) (omega arith)
      (omega arith) (task-IsSendable, tt) (omega arith, omega arith, omega arith, omega arith)
      (omega arith) (omega arith)).1

newer_task_read_back_example :
    (bytes : Bytes) × (serialize writing (newer_task_encode common 12 "new") sent_task ≡ ok bytes)
    × (deserialize reading (decode reading (parser_task common)) bytes ≡ got sent_task)
unfolding task_reply
newer_task_read_back_example =
    newer_task_read_back common honest 12 "new" sent_task (omega arith) (omega arith) (omega arith)
      (omega arith)

abbrev new_settings : ParserSettings
new_settings = record { max_pages = pos 5; batch_size = negsuc 0; auto_import = true }

serialize-settings_iff_example :
    (bytes : Bytes) × (serialize writing (parser_settings_encode common) new_settings ≡ ok bytes)
serialize-settings_iff_example =
    (serialize-settings_iff common honest new_settings).1 (omega arith, omega arith)
