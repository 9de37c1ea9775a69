-- ===== src/App/Config.antt =====
-- server/internal/config/config.go. The values are what the library env parses, defaults included;
-- a duration is a signed number of nanoseconds.
use kaftar.Prelude.{ℕ, String, List, Bool, ℤ}

pub record PostgresConfig : Type 0 where
  pub host : String
  pub port : ℕ
  pub user : String
  pub pass : String
  pub db_name : String
  pub schema : String

pub record SmsSenderConfig : Type 0 where
  pub enabled : Bool
  pub api_key : String
  pub phone : String

pub record EmailSenderConfig : Type 0 where
  pub enabled : Bool
  pub host : String
  pub port : ℕ
  pub username : String
  pub password : String
  pub from_address : String

pub record MattermostSenderConfig : Type 0 where
  pub enabled : Bool
  pub mattermost_url : String
  pub pat : String

pub record BaleSenderConfig : Type 0 where
  pub enabled : Bool
  pub bot_token : String

pub record HttpSenderConfig : Type 0 where
  pub allowed_destinations : List String
  pub allowed_private_cidrs : List String
  pub enabled : Bool
  pub request_body_max_bytes : ℤ
  pub response_body_max_bytes : ℤ

-- The port is an int16.
pub record RabbitmqConfig : Type 0 where
  pub host : String
  pub port : ℤ
  pub username : String
  pub password : String

pub record HealthConfig : Type 0 where
  pub check_timeout : ℤ
  pub component_timeout : ℤ

pub record MetricsConfig : Type 0 where
  pub outbox_refresh_interval : ℤ
  pub outbox_refresh_timeout : ℤ

-- `http_port` is the only field of HttpConfig.
pub record Config : Type 0 where
  pub dev_mode : Bool
  pub message_retry_max_age : ℤ
  pub http_port : ℕ
  pub postgres : PostgresConfig
  pub sms : SmsSenderConfig
  pub email : EmailSenderConfig
  pub mattermost : MattermostSenderConfig
  pub bale : BaleSenderConfig
  pub http_sender : HttpSenderConfig
  pub rabbitmq : RabbitmqConfig
  pub health : HealthConfig
  pub metrics : MetricsConfig
