-- ===== src/Auth/Messages.antt =====
-- apps/auth/src/application/commands and ports/inbound, and the messages of
-- packages/contracts/proto/auth.proto: what a call of the auth service carries.
use email_platform_services.Paging.{PaginationRequest}
use email_platform_services.Common.{ℕ, String, Option}

pub record LoginRequest : Type 0 where
  pub email : String
  pub password : String

pub record RefreshRequest : Type 0 where
  pub refresh_token : String

pub record ValidateRequest : Type 0 where
  pub access_token : String

pub record RevokeRequest : Type 0 where
  pub refresh_token : String

pub record CreateUserRequest : Type 0 where
  pub email : String
  pub password : String
  pub role : String
  pub organization : String
  pub team : String

pub record ListUsersRequest : Type 0 where
  pub pagination : Option PaginationRequest

pub record LoginCommand : Type 0 where
  pub email : String
  pub password : String

pub record RefreshTokenCommand : Type 0 where
  pub refresh_token : String

pub record ValidateTokenCommand : Type 0 where
  pub access_token : String

pub record RevokeTokenCommand : Type 0 where
  pub refresh_token : String

pub record CreateUserCommand : Type 0 where
  pub email : String
  pub password : String
  pub role : String
  pub organization : String
  pub team : String

pub record ListUsersCommand : Type 0 where
  pub page : ℕ
  pub limit : ℕ

pub record LoginResult : Type 0 where
  pub access_token : String
  pub refresh_token : String
  pub expires_at : ℕ

pub record TokenPair : Type 0 where
  pub access_token : String
  pub refresh_token : String

pub record ValidateTokenResult : Type 0 where
  pub user_id : String
  pub email : String
  pub role : String
  pub organization : String
  pub team : String

pub record UserContext : Type 0 where
  pub user_id : String
  pub role : String
  pub organization : String
  pub team : String

pub record UserResult : Type 0 where
  pub id : String
  pub email : String
  pub role : String
  pub organization : String
  pub team : String
  pub created_at : String

pub record UserMessage : Type 0 where
  pub id : String
  pub email : String
  pub role : String
  pub organization : String
  pub team : String
  pub created_at : String
