-- ===== src/Wiring/Inbound.antt =====
-- apps/*/src/infrastructure/inbound/grpc/grpc.module.ts: the ports with the services bound to them,
-- the use cases, and the controllers. `persistence` is the app's `AppPersistenceModule`.
use email_platform_services.Common.{[], ◌∷◌}
use email_platform_services.Wiring.{◌needs◌, Module, ◌and◌}
use email_platform_services.Wiring.Foundation.{module_of, alone}

abbrev pub auth_grpc : Module → Module
auth_grpc persistence =
    module_of "GrpcModule" (persistence and alone)
      (("LOGIN_PORT" needs ("VerifyCredentialsUseCase" ∷ "IssueTokenPairUseCase" ∷ []))
        ∷ ("REFRESH_TOKEN_PORT"
            needs ("ValidateRefreshTokenUseCase" ∷ "IssueTokenPairUseCase" ∷ []))
        ∷ ("VALIDATE_TOKEN_PORT" needs ("VerifyAccessTokenUseCase" ∷ []))
        ∷ ("REVOKE_TOKEN_PORT" needs ("RevokeRefreshTokenUseCase" ∷ []))
        ∷ ("CREATE_USER_PORT" needs ("HashPasswordUseCase" ∷ "PersistUserUseCase" ∷ []))
        ∷ ("LIST_USERS_PORT" needs ("ListUsersUseCase" ∷ []))
        ∷ ("VerifyCredentialsUseCase" needs ("USER_REPOSITORY_PORT" ∷ []))
        ∷ ("IssueTokenPairUseCase" needs [])
        ∷ ("ValidateRefreshTokenUseCase" needs ("USER_REPOSITORY_PORT" ∷ []))
        ∷ ("VerifyAccessTokenUseCase" needs [])
        ∷ ("RevokeRefreshTokenUseCase" needs [])
        ∷ ("HashPasswordUseCase" needs [])
        ∷ ("PersistUserUseCase" needs ("USER_REPOSITORY_PORT" ∷ []))
        ∷ ("ListUsersUseCase" needs ("USER_REPOSITORY_PORT" ∷ []))
        ∷ [])
      (("AuthController" needs (
          "LOGIN_PORT" ∷ "REFRESH_TOKEN_PORT" ∷ "VALIDATE_TOKEN_PORT" ∷ "REVOKE_TOKEN_PORT"
          ∷ "CREATE_USER_PORT" ∷ "LIST_USERS_PORT" ∷ []))
        ∷ [])
      []

abbrev pub audience_grpc : Module → Module
audience_grpc persistence =
    module_of "GrpcModule" (persistence and alone)
      (("LIST_GROUPS_PORT" needs ("ListGroupsUseCase" ∷ []))
        ∷ ("CREATE_GROUP_PORT" needs ("CreateGroupUseCase" ∷ []))
        ∷ ("DELETE_GROUP_PORT" needs ("DeleteGroupUseCase" ∷ []))
        ∷ ("LIST_RECIPIENTS_PORT" needs ("ListRecipientsUseCase" ∷ []))
        ∷ ("GET_RECIPIENTS_BY_GROUP_PORT" needs ("GetRecipientsByGroupUseCase" ∷ []))
        ∷ ("IMPORT_RECIPIENTS_PORT" needs ("ImportRecipientsUseCase" ∷ []))
        ∷ ("MARK_AS_SENT_PORT" needs ("TransitionRecipientsStatusUseCase" ∷ []))
        ∷ ("RESET_SEND_STATUS_PORT" needs ("TransitionRecipientsStatusUseCase" ∷ []))
        ∷ ("ListGroupsUseCase" needs ("GROUP_REPOSITORY_PORT" ∷ []))
        ∷ ("CreateGroupUseCase" needs ("GROUP_REPOSITORY_PORT" ∷ []))
        ∷ ("DeleteGroupUseCase" needs ("GROUP_REPOSITORY_PORT" ∷ []))
        ∷ ("ListRecipientsUseCase" needs ("RECIPIENT_REPOSITORY_PORT" ∷ []))
        ∷ ("GetRecipientsByGroupUseCase" needs ("RECIPIENT_REPOSITORY_PORT" ∷ []))
        ∷ ("ImportRecipientsUseCase" needs ("RECIPIENT_REPOSITORY_PORT" ∷ []))
        ∷ ("TransitionRecipientsStatusUseCase" needs ("RECIPIENT_REPOSITORY_PORT" ∷ []))
        ∷ [])
      (("AudienceController" needs (
          "LIST_GROUPS_PORT" ∷ "CREATE_GROUP_PORT" ∷ "DELETE_GROUP_PORT" ∷ "LIST_RECIPIENTS_PORT"
          ∷ "GET_RECIPIENTS_BY_GROUP_PORT" ∷ "IMPORT_RECIPIENTS_PORT" ∷ "MARK_AS_SENT_PORT"
          ∷ "RESET_SEND_STATUS_PORT" ∷ []))
        ∷ [])
      []

abbrev pub sender_grpc : Module → Module
sender_grpc persistence =
    module_of "GrpcModule" (persistence and alone)
      (("LIST_CAMPAIGNS_PORT" needs ("ListCampaignsUseCase" ∷ []))
        ∷ ("GET_CAMPAIGN_PORT" needs ("GetCampaignUseCase" ∷ []))
        ∷ ("CREATE_CAMPAIGN_PORT" needs ("CreateCampaignUseCase" ∷ []))
        ∷ ("PAUSE_CAMPAIGN_PORT" needs ("TransitionCampaignStatusUseCase" ∷ []))
        ∷ ("RESUME_CAMPAIGN_PORT" needs ("TransitionCampaignStatusUseCase" ∷ []))
        ∷ ("LIST_RUNNERS_PORT" needs ("ListRunnersUseCase" ∷ []))
        ∷ ("CREATE_RUNNER_PORT" needs ("CreateRunnerUseCase" ∷ []))
        ∷ ("LIST_MESSAGES_PORT" needs ("ListMessagesUseCase" ∷ []))
        ∷ ("CREATE_MESSAGE_PORT" needs ("CreateMessageUseCase" ∷ []))
        ∷ ("LIST_MACROS_PORT" needs ("ListMacrosUseCase" ∷ []))
        ∷ ("ListCampaignsUseCase" needs ("CAMPAIGN_REPOSITORY_PORT" ∷ []))
        ∷ ("GetCampaignUseCase" needs ("CAMPAIGN_REPOSITORY_PORT" ∷ []))
        ∷ ("CreateCampaignUseCase" needs ("CAMPAIGN_REPOSITORY_PORT" ∷ []))
        ∷ ("TransitionCampaignStatusUseCase" needs ("CAMPAIGN_REPOSITORY_PORT" ∷ []))
        ∷ ("ListRunnersUseCase" needs [])
        ∷ ("CreateRunnerUseCase" needs [])
        ∷ ("ListMessagesUseCase" needs [])
        ∷ ("CreateMessageUseCase" needs [])
        ∷ ("ListMacrosUseCase" needs [])
        ∷ [])
      (("SenderController" needs (
          "LIST_CAMPAIGNS_PORT" ∷ "GET_CAMPAIGN_PORT" ∷ "CREATE_CAMPAIGN_PORT"
          ∷ "PAUSE_CAMPAIGN_PORT" ∷ "RESUME_CAMPAIGN_PORT" ∷ "LIST_RUNNERS_PORT"
          ∷ "CREATE_RUNNER_PORT" ∷ "LIST_MESSAGES_PORT" ∷ "CREATE_MESSAGE_PORT" ∷ "LIST_MACROS_PORT"
          ∷ []))
        ∷ [])
      []

abbrev pub parser_grpc : Module → Module
parser_grpc persistence =
    module_of "GrpcModule" (persistence and alone)
      (("CREATE_TASK_PORT" needs ("CreateParserTaskUseCase" ∷ []))
        ∷ ("LIST_TASKS_PORT" needs ("ListParserTasksUseCase" ∷ []))
        ∷ ("GET_TASK_PORT" needs ("GetParserTaskUseCase" ∷ []))
        ∷ ("GET_SETTINGS_PORT" needs ("GetParserSettingsUseCase" ∷ []))
        ∷ ("UPDATE_SETTINGS_PORT" needs ("UpdateParserSettingsUseCase" ∷ []))
        ∷ ("CreateParserTaskUseCase" needs ("PARSER_TASK_REPOSITORY_PORT" ∷ []))
        ∷ ("ListParserTasksUseCase" needs ("PARSER_TASK_REPOSITORY_PORT" ∷ []))
        ∷ ("GetParserTaskUseCase" needs ("PARSER_TASK_REPOSITORY_PORT" ∷ []))
        ∷ ("GetParserSettingsUseCase" needs [])
        ∷ ("UpdateParserSettingsUseCase" needs [])
        ∷ [])
      (("ParserController" needs (
          "CREATE_TASK_PORT" ∷ "LIST_TASKS_PORT" ∷ "GET_TASK_PORT" ∷ "GET_SETTINGS_PORT"
          ∷ "UPDATE_SETTINGS_PORT" ∷ []))
        ∷ [])
      []
