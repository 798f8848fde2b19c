-- ===== src/Auth/Laws.antt =====
-- What the auth service does for a call, over any use cases.
use email_platform_services.Common.{
  ◌≡◌, refl, ap, String, List, [], ◌∷◌, map, ok, answer, answer-ok, some,
}
use email_platform_services.Paging.{ListOf, list_reply, meta_of, page_of, limit_of}
use email_platform_services.Persistence.{User}
use email_platform_services.Auth.Messages.{
  CreateUserRequest, ListUsersRequest, ListUsersCommand, UserMessage,
}
use email_platform_services.Auth.Controller.{create_user, list_users, user_reply}
use email_platform_services.Auth.Application.{
  UseCases, UserPage, bound, created, users_page, create_user_service, list_users_service,
}

-- The user that a user in a reply stands for.
abbrev pub user_of : UserMessage → User
user_of u = record {
  id = u.id;
  email = u.email;
  role = u.role;
  organization = u.organization;
  team = u.team;
}

map-user_of : (us : List User) → map user_of (map user_reply (map (λ u. created u "") us)) ≡ us
unfolding user_reply created
map-user_of [] = refl
map-user_of (u ∷ us) = ap (◌∷◌ u) (map-user_of us)

map-created_at :
    (us : List User)
    → map (λ u. u.created_at) (map user_reply (map (λ u. created u "") us)) ≡ map (λ u. "") us
unfolding user_reply created
map-created_at [] = refl
map-created_at (u ∷ us) = ap (◌∷◌ "") (map-created_at us)

module _ {S : Type 0} (cases : UseCases S) (now : S → String) where
  -- A call that creates a user depends on its password only through the hash: two calls alike but
  -- for the passwords, which hash alike and leave the same state, get the same reply and leave the
  -- same state.
  pub create_user_hides_password :
      (req : CreateUserRequest) (other : String) (s : S)
      → cases.hash_password req.password s ≡ cases.hash_password other s
      → create_user (bound cases now) req s
        ≡ create_user (bound cases now) (record req { password = other }) s
  unfolding create_user create_user_service
  create_user_hides_password req other s e = rw (e) refl

  -- A list of users is the use case's for the page and the limit of the call: the same users in the
  -- same order, with the total, the page and the limit; the creation times are empty and the
  -- number of pages is 0.
  pub list_users_given :
      (req : ListUsersRequest) (s : S) (given : UserPage)
      → (cases.list_users (page_of req.pagination) (limit_of req.pagination) s).0 ≡ ok given
      → (reply : ListOf UserMessage) × ((list_users (bound cases now) req s).0 ≡ ok reply)
        × (map user_of reply.items ≡ given.users)
        × (map (λ u. u.created_at) reply.items ≡ map (λ u. "") given.users)
        × (reply.pagination
            ≡ some (record {
              total = given.total;
              page = page_of req.pagination;
              limit = limit_of req.pagination;
              pages = 0;
            }))
  unfolding list_users list_users_service list_reply meta_of users_page
  list_users_given req s given e =
      let cmd : ListUsersCommand = record {
        page = page_of req.pagination;
        limit = limit_of req.pagination;
      } in
      let served : (answer (users_page cmd) (cases.list_users cmd.page cmd.limit s)).0 ≡ ok _ =
        ap (λ p. p.0) (answer-ok (users_page cmd) _ given e) in
      (
        list_reply user_reply (users_page cmd given),
        ap (λ p. p.0) (answer-ok (list_reply user_reply) _ (users_page cmd given) served),
        map-user_of given.users,
        map-created_at given.users,
        refl,
      )
