-- ===== src/Parser/Laws.antt =====
-- What the parser's service replies with.
use email_platform_services.Common.{
  ◌≡◌, refl, ap, Option, some, List, [], ◌∷◌, map, answer, answer-answer, answer_same, ◌∙◌,
}
use email_platform_services.Paging.{
  PageOf, ListOf, PaginationMeta, page_of, limit_of, list_reply, meta_of,
}
use email_platform_services.Parser.Messages.{
  TaskResult, ParserTaskMessage, CreateParserTaskRequest, ListParserTasksRequest,
  ParserTaskIdRequest,
}
use email_platform_services.Parser.Controller.{Ports, task_reply, create_task, get_task, list_tasks}

-- The result that a task in a reply stands for.
abbrev pub task_of : ParserTaskMessage → TaskResult
task_of r = record {
  id = r.id;
  category = r.category;
  status = r.status;
  date_from = r.date_from;
  date_to = r.date_to;
  total_found = r.total_found;
  total_parsed = r.total_parsed;
  csv_url = r.csv_url;
  user_id = r.user_id;
  created_at = r.created_at;
  updated_at = r.updated_at;
}

map-task_of : (rs : List TaskResult) → map task_of (map task_reply rs) ≡ rs
unfolding task_reply
map-task_of [] = refl
map-task_of (r ∷ rs) = ap (◌∷◌ r) (map-task_of rs)

-- A page as a list reply gives it.
abbrev pub page_view : PageOf TaskResult → List TaskResult × Option PaginationMeta
page_view p =
    (p.items, some (record { total = p.total; page = p.page; limit = p.limit; pages = p.pages }))

abbrev pub reply_view : ListOf ParserTaskMessage → List TaskResult × Option PaginationMeta
reply_view r = (map task_of r.items, r.pagination)

pub reply_view-list_reply :
    (p : PageOf TaskResult) → reply_view (list_reply task_reply p) ≡ page_view p
unfolding list_reply meta_of
reply_view-list_reply p = ap (λ rs. (rs, (page_view p).1)) (map-task_of p.items)

-- The replies to the calls for tasks lose nothing of what the port gives for the call's fields:
-- each task is read back from its message, a list has its tasks in the same order with its
-- totals, the state is the port's, and an error of the port is passed on.
pub tasks_read_back :
    {S : Type 0} (ports : Ports S) (new : CreateParserTaskRequest) (asked : ParserTaskIdRequest)
    (req : ListParserTasksRequest) (s : S)
    → (answer task_of (create_task ports new s)
        ≡ ports.create_task
            (record {
              category = new.category;
              date_from = new.date_from;
              date_to = new.date_to;
              user_id = new.user_id;
            })
            s)
      × (answer task_of (get_task ports asked s) ≡ ports.get_task (record { id = asked.id }) s)
      × (answer reply_view (list_tasks ports req s)
          ≡ answer page_view (
              ports.list_tasks
                (record {
                  page = page_of req.pagination;
                  limit = limit_of req.pagination;
                  user_id = req.user_id;
                })
                s))
unfolding create_task get_task list_tasks task_reply
tasks_read_back ports new asked req s = (
  answer-answer task_reply task_of (λ a. a) _ (λ a. refl) ∙ answer_same _,
  answer-answer task_reply task_of (λ a. a) _ (λ a. refl) ∙ answer_same _,
  answer-answer (list_reply task_reply) reply_view page_view _ reply_view-list_reply,
)
