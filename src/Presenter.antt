-- ===== src/Presenter.antt =====
-- The messages of Slack: internal/infrastructure/slack/message_builder.go and
-- internal/adapter/presenter/slack_alert_formatter.go.
pub mod Blocks
pub mod Message
pub mod AlertFormatter
pub mod SummaryFormatter
pub mod Examples
