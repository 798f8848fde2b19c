-- ===== src/Auth/Controller.antt =====
-- apps/auth/src/infrastructure/inbound/grpc/auth.controller.ts: from a call's message to a command,
-- and from the result of the inbound port to the reply.
use email_platform_services.Common.{Outcome, answer}
use email_platform_services.Paging.{PageOf, ListOf, page_of, limit_of, list_reply}
use email_platform_services.Auth.Messages.{
  LoginRequest, RefreshRequest, ValidateRequest, RevokeRequest, CreateUserRequest, ListUsersRequest,
  LoginCommand, RefreshTokenCommand, ValidateTokenCommand, RevokeTokenCommand, CreateUserCommand,
  ListUsersCommand, LoginResult, TokenPair, ValidateTokenResult, UserContext, UserResult,
  UserMessage,
}

-- The inbound ports, over the state `S` of the service. `RefreshTokenResult` has the fields of
-- `LoginResult`.
pub record Ports (S : Type 0) : Type 0 where
  pub login : LoginCommand → S → Outcome LoginResult × S
  pub refresh_token : RefreshTokenCommand → S → Outcome LoginResult × S
  pub validate_token : ValidateTokenCommand → S → Outcome ValidateTokenResult × S
  pub revoke_token : RevokeTokenCommand → S → Outcome (Unit {0}) × S
  pub create_user : CreateUserCommand → S → Outcome UserResult × S
  pub list_users : ListUsersCommand → S → Outcome (PageOf UserResult) × S

unfoldable pub token_reply : LoginResult → TokenPair
token_reply result = record {
  access_token = result.access_token;
  refresh_token = result.refresh_token;
}

unfoldable pub context_reply : ValidateTokenResult → UserContext
context_reply result = record {
  user_id = result.user_id;
  role = result.role;
  organization = result.organization;
  team = result.team;
}

unfoldable pub user_reply : UserResult → UserMessage
user_reply result = record {
  id = result.id;
  email = result.email;
  role = result.role;
  organization = result.organization;
  team = result.team;
  created_at = result.created_at;
}

module _ {S : Type 0} (ports : Ports S) where
  unfoldable pub login : LoginRequest → S → Outcome TokenPair × S
  unfolding token_reply
  login req s =
      let cmd : LoginCommand = record { email = req.email; password = req.password } in
      answer token_reply (ports.login cmd s)

  unfoldable pub refresh_token : RefreshRequest → S → Outcome TokenPair × S
  unfolding token_reply
  refresh_token req s =
      let cmd : RefreshTokenCommand = record { refresh_token = req.refresh_token } in
      answer token_reply (ports.refresh_token cmd s)

  unfoldable pub validate_token : ValidateRequest → S → Outcome UserContext × S
  unfolding context_reply
  validate_token req s =
      let cmd : ValidateTokenCommand = record { access_token = req.access_token } in
      answer context_reply (ports.validate_token cmd s)

  unfoldable pub revoke_token : RevokeRequest → S → Outcome (Unit {0}) × S
  revoke_token req s =
      let cmd : RevokeTokenCommand = record { refresh_token = req.refresh_token } in
      answer (λ done. tt) (ports.revoke_token cmd s)

  unfoldable pub create_user : CreateUserRequest → S → Outcome UserMessage × S
  unfolding user_reply
  create_user req s =
      let cmd : CreateUserCommand = record {
        email = req.email;
        password = req.password;
        role = req.role;
        organization = req.organization;
        team = req.team;
      } in
      answer user_reply (ports.create_user cmd s)

  unfoldable pub list_users : ListUsersRequest → S → Outcome (ListOf UserMessage) × S
  unfolding page_of limit_of list_reply user_reply
  list_users req s =
      let cmd : ListUsersCommand = record {
        page = page_of req.pagination;
        limit = limit_of req.pagination;
      } in
      answer (list_reply user_reply) (ports.list_users cmd s)
