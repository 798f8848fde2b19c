-- ===== src/Auth/Application.antt =====
-- apps/auth/src/application/use-cases and services, and the bindings of
-- infrastructure/inbound/grpc/grpc.module.ts. The use cases are those of the source: none is
-- implemented yet, and each throws. The services are written over any use cases.
use email_platform_services.Common.{
  ℕ, String, List, map, Outcome, ok, answer, await, not_implemented,
}
use email_platform_services.Paging.{PageOf}
use email_platform_services.Persistence.{User}
use email_platform_services.Auth.Messages.{
  LoginCommand, RefreshTokenCommand, ValidateTokenCommand, RevokeTokenCommand, CreateUserCommand,
  ListUsersCommand, LoginResult, ValidateTokenResult, UserResult,
}
use email_platform_services.Auth.Controller.{Ports}

-- What `ListUsersUseCase` returns.
pub record UserPage : Type 0 where
  pub users : List User
  pub total : ℕ

-- The `execute` methods of the use cases. `AccessTokenClaims` has the fields of
-- `ValidateTokenResult`, and the `TokenPair` of the use case those of `LoginResult`.
pub record UseCases (S : Type 0) : Type 0 where
  pub verify_credentials : String → String → S → Outcome User × S
  pub issue_token_pair : User → S → Outcome LoginResult × S
  pub validate_refresh_token : String → S → Outcome User × S
  pub verify_access_token : String → S → Outcome ValidateTokenResult × S
  pub revoke_refresh_token : String → S → Outcome (Unit {0}) × S
  pub hash_password : String → S → Outcome String × S
  pub persist_user : String → String → String → String → String → S → Outcome User × S
  pub list_users : ℕ → ℕ → S → Outcome UserPage × S

module _ {S : Type 0} where
  unfoldable pub verify_credentials_use_case : String → String → S → Outcome User × S
  verify_credentials_use_case email password = not_implemented "VerifyCredentialsUseCase"

  unfoldable pub issue_token_pair_use_case : User → S → Outcome LoginResult × S
  issue_token_pair_use_case user = not_implemented "IssueTokenPairUseCase"

  unfoldable pub validate_refresh_token_use_case : String → S → Outcome User × S
  validate_refresh_token_use_case refresh_token = not_implemented "ValidateRefreshTokenUseCase"

  unfoldable pub verify_access_token_use_case : String → S → Outcome ValidateTokenResult × S
  verify_access_token_use_case access_token = not_implemented "VerifyAccessTokenUseCase"

  unfoldable pub revoke_refresh_token_use_case : String → S → Outcome (Unit {0}) × S
  revoke_refresh_token_use_case refresh_token = not_implemented "RevokeRefreshTokenUseCase"

  unfoldable pub hash_password_use_case : String → S → Outcome String × S
  hash_password_use_case plain_password = not_implemented "HashPasswordUseCase"

  unfoldable pub persist_user_use_case :
      String → String → String → String → String → S → Outcome User × S
  persist_user_use_case email password_hash role organization team =
      not_implemented "PersistUserUseCase"

  unfoldable pub list_users_use_case : ℕ → ℕ → S → Outcome UserPage × S
  list_users_use_case page limit = not_implemented "ListUsersUseCase"

  abbrev pub use_cases : UseCases S
  use_cases = record {
    verify_credentials = verify_credentials_use_case;
    issue_token_pair = issue_token_pair_use_case;
    validate_refresh_token = validate_refresh_token_use_case;
    verify_access_token = verify_access_token_use_case;
    revoke_refresh_token = revoke_refresh_token_use_case;
    hash_password = hash_password_use_case;
    persist_user = persist_user_use_case;
    list_users = list_users_use_case;
  }

-- The result of `CreateUserService`, at a time.
unfoldable pub created : User → String → UserResult
created user created_at = record {
  id = user.id;
  email = user.email;
  role = user.role;
  organization = user.organization;
  team = user.team;
  created_at = created_at;
}

-- The result of `ListUsersService`.
unfoldable pub users_page : ListUsersCommand → UserPage → PageOf UserResult
unfolding created
users_page cmd result = record {
  items = map (λ u. created u "") result.users;
  total = result.total;
  page = cmd.page;
  limit = cmd.limit;
  pages = 0;
}

-- `now` is `new Date().toISOString()` in a state.
module _ {S : Type 0} (cases : UseCases S) (now : S → String) where
  unfoldable pub login_service : LoginCommand → S → Outcome LoginResult × S
  unfolding await
  login_service cmd s =
      await (cases.verify_credentials cmd.email cmd.password s)
        (λ user t. cases.issue_token_pair user t)

  unfoldable pub refresh_token_service : RefreshTokenCommand → S → Outcome LoginResult × S
  unfolding await
  refresh_token_service cmd s =
      await (cases.validate_refresh_token cmd.refresh_token s)
        (λ user t. cases.issue_token_pair user t)

  unfoldable pub validate_token_service : ValidateTokenCommand → S → Outcome ValidateTokenResult × S
  validate_token_service cmd s = cases.verify_access_token cmd.access_token s

  unfoldable pub revoke_token_service : RevokeTokenCommand → S → Outcome (Unit {0}) × S
  revoke_token_service cmd s = answer (λ done. tt) (cases.revoke_refresh_token cmd.refresh_token s)

  unfoldable pub create_user_service : CreateUserCommand → S → Outcome UserResult × S
  unfolding await created
  create_user_service cmd s = await (cases.hash_password cmd.password s) (λ hash t.
      await (cases.persist_user cmd.email hash cmd.role cmd.organization cmd.team t)
        (λ user u. (ok (created user (now u)), u)))

  unfoldable pub list_users_service : ListUsersCommand → S → Outcome (PageOf UserResult) × S
  unfolding users_page
  list_users_service cmd s = answer (users_page cmd) (cases.list_users cmd.page cmd.limit s)

  -- The ports that the controller is bound to.
  abbrev pub bound : Ports S
  bound = record {
    login = login_service;
    refresh_token = refresh_token_service;
    validate_token = validate_token_service;
    revoke_token = revoke_token_service;
    create_user = create_user_service;
    list_users = list_users_service;
  }
