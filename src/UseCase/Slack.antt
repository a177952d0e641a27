-- ===== src/UseCase/Slack.antt =====
-- internal/usecase/slack
pub mod SummarizeAlerts
pub mod QueryAlertStatus
pub mod Durations
pub mod ActiveLabels
pub mod ManageSilence
pub mod HandleInteraction
pub mod ModalSubmission
pub mod Examples
