-- ===== src/Lib.antt =====
-- alert-bridge takes alerts from Alertmanager, keeps them, tells Slack and PagerDuty about them, and
-- spreads an acknowledgement made in one place to the others.
--
-- The parts and their files:
-- - Errors: internal/domain/errors, internal/domain/entity/errors.go and
--   internal/domain/repository/errors.go. An error is a chain that `errors.Is` and `errors.As` walk.
-- - Entity: internal/domain/entity. Alert, AckEvent and SilenceMark are records; a method is a
--   function on the record, and takes the reading of the clock and the fresh identifier that it uses.
--   Alerts share their map of external references with their copies, so the map is an address in
--   Base.Heap.
-- - Service.SubscriberMatcher: internal/domain/service/subscriber_matcher.go (MatchAlert,
--   countMatchingLabels, GetSlackUserIDs and the rest).
-- - Memory: internal/infrastructure/persistence/memory. A repository is a record of association lists:
--   the entities by id and the secondary indexes. A method runs under the lock from its first line to
--   its last and is one function. A Go map is ranged over in the order of its list, which is any.
-- - Resilience.CircuitBreaker: internal/infrastructure/resilience/circuit_breaker.go. beforeRequest
--   and afterRequest are the two locked sections; Execute is one after the other, and
--   Resilience.CircuitBreaker.Interleavings has the sections of several requests in any order.
-- - UseCase.Retry: internal/usecase/alert/retry.go, Notify and UpdateMessage. The number of attempts
--   of the policy bounds the loop, which recurses on the attempts that are left, so no fuel is needed.
-- - UseCase.World: the state that a use case runs in, and the repository interfaces as records of
--   actions. UseCase.MemoryStores fills them with the in-memory repositories, as
--   internal/app/storage.go does.
-- - UseCase.AlertInput, UseCase.Notify and UseCase.ProcessAlert: internal/adapter/dto/alertmanager.go
--   and internal/usecase/alert/process_alert.go. Execute looks for a firing alert of the fingerprint,
--   resolves it or builds a new one, asks for silences, saves, and notifies.
-- - UseCase.SyncAck: internal/usecase/ack/sync_ack.go. Execute stores the event and the alert in a
--   transaction and then calls the syncers.
-- - UseCase.PagerDutyWebhook: internal/usecase/pagerduty/handle_webhook.go. Execute looks for the alert
--   by reference and then by fingerprint, and dispatches on the type of the event.
-- - Adapter.SlackCommand: internal/adapter/dto/slack_command_dto.go, what the text of a command asks for.
-- - UseCase.Slack: internal/usecase/slack. SummarizeAlerts and QueryAlertStatus read the alerts,
--   ManageSilence is the silence command, HandleInteraction the buttons of a message, and ModalSubmission
--   the form of a silence. ActiveLabels is GetActiveAlertLabels of internal/infrastructure/slack/client.go.
-- - Sql: tables as lists of rows, and JSON as an interface with laws, which a map fills.
-- - Sqlite and Mysql: internal/infrastructure/persistence/sqlite and mysql, the helpers and
--   the alert, silence and acknowledgement repositories. A statement is one function on the table; an Update
--   in MySQL is several statements, and other clients may write between them. Sql.Versions is its
--   optimistic locking. MySQL refuses a NULL in a column that is NOT NULL, as in its strict mode.
-- - Config: internal/infrastructure/config. Load is the file, the overrides of Environment, the Defaults
--   and the Validator, in this order; Reload is TryReload of the ConfigManager, and its Outcome has
--   internal/adapter/handler/reload.go. Reload.Interleavings has the locked sections of several reloads in
--   any order.
-- - PagerDuty: internal/infrastructure/pagerduty/client.go. A method takes the calls made so far and
--   returns them with its own; Event is what is sent and Failure what comes of an error.
-- - Http: internal/adapter/handler, its middleware and internal/infrastructure/server/router.go. A handler is
--   a function of the request and of the state behind it; Auth checks the signatures, the modules named
--   after a service run the use cases on a payload, Router puts them behind their paths, and Timeout has
--   the goroutine of a handler and its middleware as steps in any order. SlackCommands has the answer to a
--   slash command and the goroutine behind it.
-- - Socket: Connect of internal/infrastructure/slack/socketmode_client.go, with the breaker and the backoff of
--   socketmode_reconnect.go. One round more than the breaker allows failures is fuel enough.
-- - Presenter: internal/infrastructure/slack/message_builder.go and
--   internal/adapter/presenter/slack_alert_formatter.go, which build the blocks of a message.
-- - Base: lists, texts, association lists, integers and the heap. Samples and the modules named Examples:
--   tests.
--
-- Numbers: times and durations are natural numbers of one unit on one clock; a duration that may be
-- negative is an integer. In Sqlite, Mysql and Adapter the unit is the nanosecond. The durations that a
-- command's text gives are 64-bit integers that wrap around. No counter of the modelled code comes near
-- the limit of its machine type. A number is printed with twenty digits at most, which 64 bits fit in.
--
-- The test of a timestamp's age takes its difference on 64-bit integers that wrap around.
--
-- Not modelled: failing database connections and migrations, the sockets of HTTP and of Slack's
-- socket mode, the libraries of Slack and PagerDuty, whose answers are functions of the calls made before,
-- JSON, YAML and HMAC, which are arguments, logging, metrics, tracing, the file watcher, the length of a
-- wait between two attempts, and two calls of a use case that run at the same time. time.ParseDuration and
-- the format of a time are arguments as well. Letters are lowered as in ASCII.
pub mod Base
pub mod Config
pub mod PagerDuty
pub mod Http
pub mod Socket
pub mod Presenter
pub mod Errors
pub mod Entity
pub mod Resilience
pub mod Adapter
pub mod UseCase
pub mod Memory
pub mod Service
pub mod Sql
pub mod Sqlite
pub mod Mysql
pub mod Samples
