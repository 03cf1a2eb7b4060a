-- ===== src/Lib.antt =====
-- VoxPlatform: a speech-to-text platform on Kubernetes. The gateway (internal/gateway) receives
-- audio over HTTP and WebSocket and forwards it to Whisper; the operator
-- (operator/internal/controller, operator/api/v1alpha1) runs the model servers, checks pipelines
-- of them and runs evaluations.
--
-- Gateway/Wav.antt models buildWAV, putLE16 and putLE32 of internal/gateway/stream.go on lists
-- of bytes, with the 16-bit and 32-bit wrap-around written out; Gateway/Wav/Decode.antt holds a
-- reader of the format as the specification. Gateway/Stream.antt models the rest of that file:
-- audioBuffer and its methods (add_frame, mark_speech, mark_silence, should_flush, flush),
-- checkVAD, flushBuffer, one tick of flushLoop, and handleStream over a sequence of events (a
-- message with the VAD's answer, a close, a read error, a tick, each with Whisper's answer to
-- the file that it may send). Times and durations are natural numbers of nanoseconds. The two
-- loops share the buffer under a lock, so their interleavings are sequences of calls
-- (Gateway/Stream/Interleaving.antt); Gateway/Stream/Messages.antt is about what the client is
-- sent, Gateway/Stream/Delivery.antt about what becomes of the audio, and
-- Gateway/Stream/Latency.antt about when it is flushed. There a tick and Whisper's answer to it
-- are one step; Gateway/Stream/InFlight.antt lets the read loop go on while the flush loop waits
-- for the answer, Gateway/Stream/InFlight/Atomic.antt relates the two, and
-- Gateway/Stream/InFlight/Delivery.antt, Answers.antt, Ending.antt and Bounds.antt follow the
-- audio and the messages while files are in flight, to the end of the session.
--
-- Gateway/Http.antt has the errors and responses of internal/gateway/errors.go and what a
-- backend answers. Gateway/Proxy.antt models Transcribe and HealthCheck of proxy.go and
-- handleTranscribe and handleReady of handlers.go; Gateway/EventLog.antt the event log of
-- eventlog.go: NewEventLogger, and Log and Close of the local log on files of bytes, where a
-- closed file takes no write; Gateway/EventLog/Cloud.antt the Cloud Storage log, with
-- fetchMetadataToken; Gateway/Pipeline.antt the handler of pipeline.go, which passes on the
-- response under construction and the events so far from stage to stage, and
-- Gateway/Pipeline/Replay.antt joins it to the local log while other requests are served.
-- Gateway/Middleware.antt models the chain that Router of server.go puts around the routes, with
-- middleware.go and request_id.go; Gateway/RequestId.antt how request_id.go makes an id of
-- random bytes, which are an argument; Gateway/Config.antt LoadConfig of config.go; and
-- Gateway/Server.antt NewServer, the registrations and the dispatch of Router, and all handlers,
-- joined to the chain, so that a request can be followed from the route to the response, the log
-- and the counter. Gateway/Process.antt models cmd/gateway/main.go: what happens to the two
-- goroutines, in any order, is a list of steps. The Go package strings, the clock, the backends
-- and their JSON decoders are parameters; the events that handlePipeline logs are collected,
-- since it ignores the errors of the log.
--
-- Operator/Api.antt has the errors, replies, object keys and reconcile results that the three
-- reconcilers share, and Operator/WorkQueue.antt the queue of keys of a running controller.
-- Operator/VoiceModels.antt models the types of operator/api/v1alpha1/voicemodel_types.go and
-- the builders of operator/internal/controller/voicemodel_controller.go;
-- Operator/VoiceModels/Reconcile.antt its reconciler. Operator/Pipelines.antt models
-- inferencepipeline_types.go and inferencepipeline_controller.go: resolveStage, reconcileStages,
-- setPipelineStatus, Reconcile and mapVoiceModelToPipelines; Operator/Pipelines/Queue.antt is
-- the controller at work, as a relation on steps: VoiceModels and pipelines change, the watches
-- that SetupWithManager registers put keys into the work queue, and queued pipelines are
-- reconciled in any order. The library controller-runtime and the API server enter there as
-- hypotheses: a key is queued for every event and again after an error or a RequeueAfter, and a
-- call answers from the stored objects or fails. A reconcile is one step, and its reads see one
-- state of the VoiceModels. Operator/EvalRuns.antt models evalrun_types.go and
-- evalrun_controller.go: buildWorkflow, extractEvalReport, setStatus, submitWorkflow,
-- reconcileWorkflow and Reconcile; Operator/EvalRuns/Lifecycle.antt is the abstract lifecycle
-- that it refines, Operator/EvalRuns/History.antt, Progress.antt and Verdict.antt follow a run
-- through many reconciles. Operator/VoiceModels/Reconcile/Store.antt is a store of objects by
-- key, whose laws state what an API server that works does with the calls of a reconcile: it
-- takes all but an update that changes the immutable selector of a Deployment; Calls.antt and
-- Converge.antt beside it are about the objects that are left, and Watch.antt, Serving.antt,
-- Changes.antt and Honest.antt about the controller at work, on an API server that works, while
-- VoiceModels and the Deployments that name them as owner change. Operator/Composition.antt
-- joins the two controllers that share VoiceModels: one writes the status that the other reads,
-- and Operator/Composition/Published.antt follows it to the status that a queued pipeline
-- publishes. The modules Defaults beside the three types compare the defaults that the markers
-- in the comments of the types declare with those of the controllers. Operator/Manager.antt
-- models operator/cmd/main.go: the flags, the options of the servers, the calls in their order
-- with the exit code, and the controllers that SetupWithManager of each reconciler registers.
-- The types of a component with many of them are in its module Types.
--
-- The API server is a parameter of each reconciler: a record of functions that answer each call,
-- from a state of any type or from the calls made so far, with an object or an error. An update
-- decodes the server's object into the caller's only where the source uses the result
-- afterwards. JSON decoding, the formatting of floating-point numbers, the owner references and
-- the finalizer functions of controller-runtime are fields of these records; what a theorem
-- relies on of them is a named hypothesis. Fields of Kubernetes objects that the source neither
-- sets nor reads are left out. Logging is left out. The loops over stages, frames, parameters
-- and events are structural recursion, so there is no fuel, but for the decimal digits of a
-- number in Prelude/Texts.antt, where 20 digits cover every Go integer.
--
-- Not modelled: the durations that the middleware measures, and the registration of the metrics;
-- the metrics page of Prometheus and the upgrade to a WebSocket, which are libraries; the
-- generated deep copies and the registration of the types in operator/api/v1alpha1; and the
-- parts of the repository in other languages.
pub mod Prelude
pub mod Gateway
pub mod Operator
