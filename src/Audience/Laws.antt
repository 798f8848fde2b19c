-- ===== src/Audience/Laws.antt =====
-- What the audience's service replies with, and what it asks of its ports and use cases.
use email_platform_services.Common.{
  ◌≡◌, refl, ap, none, List, [], ◌∷◌, map, Outcome, ok, throws, answer,
}
use email_platform_services.Audience.Messages.{RecipientResult, Recipient, GetByGroupRequest}
use email_platform_services.Audience.Controller.{
  Ports, recipient_reply, slice_reply, get_recipients_by_group,
}

-- The result that a recipient in a reply stands for.
abbrev pub recipient_of : Recipient → RecipientResult
recipient_of r = record {
  id = r.id;
  email = r.email;
  name = r.name;
  company = r.company;
  group_id = r.group_id;
  is_sent = r.is_sent;
  created_at = r.created_at;
}

map-recipient_of : (rs : List RecipientResult) → map recipient_of (map recipient_reply rs) ≡ rs
unfolding recipient_reply
map-recipient_of [] = refl
map-recipient_of (r ∷ rs) = ap (◌∷◌ r) (map-recipient_of rs)

answer-slice_reply :
    {S : Type 0} (p : Outcome (List RecipientResult) × S)
    → ((answer slice_reply p).1 ≡ p.1)
      × (answer (λ reply. map recipient_of reply.items) (answer slice_reply p) ≡ p)
      × (answer (λ reply. reply.pagination) (answer slice_reply p) ≡ answer (λ given. none) p)
unfolding answer slice_reply
answer-slice_reply (ok rs, t) = (refl, ap (λ l. (ok l, t)) (map-recipient_of rs), refl)
answer-slice_reply (throws err, t) = (refl, refl, refl)

-- The recipients of a group are all those that the port gives, each as it is and in the same
-- order, without page data; and the state is the port's. An error of the port is passed on.
pub get_recipients_by_group-recipient_of :
    {S : Type 0} (ports : Ports S) (req : GetByGroupRequest) (s : S)
    → let asked =
        ports.get_recipients_by_group
          (record { group_id = req.group_id; only_unsent = req.only_unsent })
          s in
      ((get_recipients_by_group ports req s).1 ≡ asked.1)
      × (answer (λ reply. map recipient_of reply.items) (get_recipients_by_group ports req s)
          ≡ asked)
      × (answer (λ reply. reply.pagination) (get_recipients_by_group ports req s)
          ≡ answer (λ given. none) asked)
unfolding get_recipients_by_group slice_reply
get_recipients_by_group-recipient_of ports req s = answer-slice_reply _
