-- ===== src/Lib.antt =====
-- A model of the parts of chainplane (a Kubernetes operator for blockchain nodes) that decide: the
-- health triggers and the replacement of unhealthy pods, the controllers around them, the admission
-- of resources, the health checks of the nodes, and the choice of image tags, with proofs.
--
-- Parts of the program and where they are modelled. Paths are from the root of the repository.
--
-- * internal/health/replacement.go, the replacement workflow: Health/Replacement. Defs has the
--   phases, annotations, configuration and the interface Drainer; Helpers the unexported methods
--   (merge_annotations for mergeAnnotations, and so on); Workflow the four exported methods, from
--   start_replacement for StartReplacement to rollback_replacement for RollbackReplacement. A
--   method of several stages has a definition for each stage (complete_marked is what
--   CompleteReplacement does behind its first write). Laws states what the workflow relies on of
--   a drainer. Annotations, Pods, Start, StartFailed, Monitor, Complete, Rollback and Restored hold
--   the proofs.
-- * internal/health/traffic.go, the drainer that moves pods behind services: Health/Traffic, with
--   its laws in Effects, and the proofs on the switch, the drain, the validation and the wait
--   in Switch, Drained, Serving, Validation and Progress. The workflow takes any drainer as an argument.
-- * internal/health/trigger.go and chain.go, the health triggers, their thresholds and the metric
--   families: Health/Trigger, Health/Thresholds and Health/Chain.
-- * internal/health/evaluator.go, the evaluation of the triggers: Health/Evaluator, over any
--   MetricQuerier, with the conditions of the triggers in Firing. Health/Replacement/Unmonitored
--   puts the evaluator and the workflow together.
-- * internal/health/metric.go, the client of the Prometheus API: Health/Prometheus has the requests
--   with their retries, Requests the queries and the MetricQuerier they make; the proofs are in
--   Bounds, Answers and Retries.
-- * internal/controller/nodehealth_controller.go, the loop that starts, watches and ends a
--   replacement: Controller/NodeHealth; a result is the time to the next pass.
-- * internal/controller/upgrade.go, rolling upgrades of the StatefulSet: Controller/Upgrade, with
--   the proofs in Rollout, RollbackLaws and Crash. Where two writers of conditions share a loop,
--   it is one definition (upsert in Controller/Conditions).
-- * internal/controller/helpers.go, the conditions and the thresholds per chain:
--   Controller/Conditions.
-- * internal/controller/reconcile_health.go, the refresh of the status after a health check:
--   Controller/HealthStatus has the detectors and the restart, its children Eta and Syncing the
--   branch of a node that is syncing with the estimate of the time it still takes, and Refresh the
--   other branches and the refresh; Marks has the fields that the branches set. The proofs are in
--   Stall, Restart, Estimate, Phases and Settled.
-- * internal/adapters, the health checks of the nodes: Adapters, where Checks has HealthCheck of
--   whichever adapter. Adapters/Session has the requests that a check sends, Payloads what it
--   decodes, Rpc the transport of rpc.go and Get the plain requests; Evm is for evm.go and the check
--   of ethereum.go, Comet for cosmos.go and the chains like it, Utxo for utxo_protocol_base.go,
--   OwnRpc, Rest and Metrics for the checks of the other files, which their headers name. The
--   proofs are in Evm/Scan, Evm/Stages, Evm/Synced, Utxo/Budget, Spending, Down and Unreachable,
--   and those on the refresh behind a check in Controller/HealthStatus/Outage.
-- * internal/controller/chainversioncatalog_controller.go, the catalog of versions:
--   Controller/VersionCatalog, over the registry clients, with the proofs in Latest and Polled.
-- * internal/registry/semver.go, the choice of the newest image tag: Registry/Semver, over the texts
--   of the standard library and the semver package as parameters.
-- * internal/registry, the clients that list image tags: Registry/DockerHub for dockerhub.go,
--   Registry/TagsList for tagslist.go, and Registry/Client for client.go, ghcr.go and oci.go, where
--   latest_tags is LatestTags of whichever client. Registry/Http has the session in which requests
--   are sent and Registry/Formats the shared types; the proofs are in Http/Spending, TagsList/Pages,
--   DockerHub/Waits, DockerHub/Walk, Client/Requests and Client/Found.
-- * api/v1alpha2/chaininstance_types.go, the resource: Api, with the fields that are used.
-- * api/v1alpha2/chaininstance_webhook.go, the validating webhook: Api/Webhook, with its tables in
--   Tables and the proofs in Laws.
-- * cmd/versioncheck/main.go, the choice of image updates: Cmd/Versioncheck, with the proofs in
--   ByVersion and Updates, on the references of images in ImageRef, and with the statuses of the
--   report and the application of the updates in Report, and tagCache in TagCache.
-- * internal/health/errors.go, the errors of the workflow, modelled in Errors.
--
-- State and calls. A method that calls the API is an action on a World (Kube/Objects): the pods,
-- claims, services and endpoint slices of one namespace, the resource on the server (`stored`) and
-- the caller's copy behind the pointer (`node`), the StatefulSet, and the time. An action returns
-- a result and the state, after an error too. The API server is not part of the repository: each
-- call may fail, as the parameter `fault` of the state says for the number of the call, and each
-- wait may be cut short by its context (`waits`). NotFound and AlreadyExists come from the objects
-- alone. A deletion takes effect at once; time passes in waits only.
-- The health check of a pod (Checker.CheckAll) is an argument of the workflow, as a function of
-- the time, the pod and the metric family; so is the time format of the standard library, of which
-- only the round trip of whole seconds, and that the empty text is no time, are used. The public tip
-- of a chain, fetched over HTTP, is an argument too (Environment), and so are the logs of a pod
-- (SyncTools). Floating-point numbers are a type with the operations of Float, of which no law is
-- used. The clients of HTTP APIs take the answers of the server as a function of the number of the
-- request (Transport in Health/Prometheus, Web in Registry/Http, Node in Adapters/Session), and
-- decoders as functions (NodeJson and GoTexts in Adapters/Payloads). The health checks count in
-- int64, given by bit patterns (Adapters/Int64).
--
-- Fuel. The loop of waitWithProgress (wait_until) has as fuel the number of its full intervals and
-- two more; every round but the last waits for a full interval at least. The loops over attempts and
-- pages of the HTTP clients run on the number of attempts or pages that are left, as in the code.
--
-- Not modelled: logging and the texts of errors; the grace period of deletions; changes that
-- others make between two calls of one action, beside the failures they cause (a status patch
-- writes the whole status of the caller's copy); the construction of Kubernetes objects for each
-- chain, with the images, command lines, ports and probes of the adapters; the recording of metrics;
-- the other tools under cmd, and of the version check the layout of the report, the
-- goroutines and the file versions_gen.go; the fetching of public tips; HTTP and container I/O.
pub mod Prelude
pub mod Errors
pub mod Api
pub mod Adapters
pub mod Kube
pub mod Time
pub mod Float
pub mod Health
pub mod Controller
pub mod Registry
pub mod Cmd
mod Tests
