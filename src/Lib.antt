-- ===== src/Lib.antt =====
-- The public Go wrapper of LoadStrike: it resolves and authenticates the execution component,
-- hosts the callbacks that the component calls back, and describes what to run.
--
-- How the parts interact. A runner collects scenarios and traffic mixes and builds a context. When
-- it runs, the wrapper fetches only from URLs that its transport policy admits, and accepts a
-- runtime artifact only with a manifest that a trusted publisher signed: the manifest and the
-- keyring of publishers are parsed by strict decoders and authenticated. The scenarios' callbacks
-- are then registered in the callback registry, and the component reaches them by opaque
-- identifiers in the paths of requests to a local HTTP host, which checks the request, copies its
-- settings, and runs the callback: a scenario through its bridge, which keeps the state of the
-- scenario's instances, and a consumer through its session, which keeps the events between polls.
-- Closing the registry closes every bridge and session.
--
-- Files and the code they model:
--   Prelude     shared helpers: Boolean tests, lists and integers over the native numbers, Go strings
--               as lists of numbers, results, maps keyed by strings, lists of names, and UTF-8.
--   Base64      encoding/base64 of the standard library, padded and raw URL, as RFC 4648 gives it.
--   Manifest    runtime_manifest_v2.go and runtime_artifact.go: Claims the data, Encoding the framing
--               of fields, Patterns the regular expressions, Payload runtimeManifestV2CanonicalPayload,
--               Checksums decodeCanonicalPaddedBase64 and validateCanonicalGoH1, Validate
--               validateRuntimeManifestV2Claims, Verify verifyRuntimeManifestV2,
--               Parse parseRuntimeManifestV2, Keyring parseRuntimePublisherKeyring and, with it,
--               verifyRuntimeManifest of runtime_download.go.
--   StrictJson  runtime_strict_json.go, and decodeStrictJSONArray of runtime_manifest_v2.go.
--   Settings    runtime_settings.go: cloneJSONCompatibleSettings and the check before it, on a heap.
--   Host        runtime_http_host.go: Logs the log buffer, Requests the identity in a scenario request,
--               Metadata what it tells a callback, Routes the callback addresses and their parsing,
--               Invoke runtimeInvokeScenarioHook and runtimeInvokeScenarioStep, Thresholds the
--               evaluation of thresholds, Handlers the handlers of scenarios, tracking, thresholds,
--               publishers and cancellations, Dispatch those of plugins, sinks and policies.
--   Diagnostics sanitizeRuntimeDiagnostic of runtime_diagnostics.go.
--   Transport   runtime_transport_security.go: newRuntimeTransportPolicy, validateURL,
--               parseCanonicalRuntimeURL, validateRuntimeResponseURL.
--   Bridge      runtimeScenarioBridgeState of runtime_callback_registry.go: admitInstance in its two
--               sections, cleanInstance, beginClose and finishClose. World has the threads, Trace the
--               run of one of them, Calls the calls of one thread as functions.
--   Session     runtimeTrackingConsumeSession of the same file: start, poll, snapshot, notify, Close.
--               World has the consumer, any number of polls and the close as
--               interleaved steps.
--   Registry    runtimeCallbackRegistry of the same file: the registrations, the lookups and Close.
--   Metrics     metrics.go, and the metrics of a bridge in runtime_callback_registry.go.
--   Load        simulations.go.
--   Control     execution_control.go; Steps StopScenario and StopCurrentTest of step.go.
--   Scenario    the builders of scenario.go and validateScenarioValue of runner.go.
--   Runner      runner.go: registration and BuildContext; traffic_mix.go.
--
-- How state corresponds. A section of code under a mutex is one function of the state; a Go map is
-- a list of entries in which a later one hides an earlier one; a pointer to an instance is its
-- address in the list of all instances, and one to the state of a scenario is its address in the
-- host; a panic or an error is a value. Where code runs in several
-- goroutines, a step relation has one constructor for each section or channel operation, so that a
-- run is any interleaving of them. Unsigned subtraction wraps around as in Go.
--
-- Bounds and fuel. The loops of StrictJson over the fields of an object and the entries of an
-- array are given one round more than the text has bytes, which is enough since each round reads a
-- token or a value. The check of Settings is given 130 rounds, which is enough for a depth limit
-- of 128. Every other function is structurally recursive. The claims of the payload theorem are
-- within the widths of their Go types, as the record InRange says.
--
-- Not modelled: SHA-256, Ed25519, encoding/json, time.Parse, url.Parse, path.Clean, the table
-- unicode.Cf, strings.ToLower, strings.EqualFold and float64 are parameters. The texts of errors
-- are left out, and so are the paths in the errors of settings. Of the HTTP host, the server
-- itself is left out. The download and cache of artifacts, the launcher, the plan, results and
-- configuration are not modelled, and neither are the public wrappers that forward to these parts;
-- reflection on callbacks is left out of the builders.
pub mod Prelude
pub mod Base64
pub mod Manifest
pub mod Bridge
pub mod Session
pub mod Registry
pub mod Load
pub mod Control
pub mod Scenario
pub mod Runner
pub mod Transport
pub mod Metrics
pub mod StrictJson
pub mod Settings
pub mod Host
pub mod Diagnostics
