-- ===== src/Lib.antt =====
-- The step runner: it compiles step files, and loads and runs the steps that they describe.
--
-- A job hands over a step file. schema/v1 compiles it to the messages of proto/step.proto. pkg/runner
-- parses a definition to a step that can run: one that runs a command, or a sequence of steps that are
-- loaded one after another. A step sees its inputs, its environment and the results of the steps
-- before it through expressions `${{ ... }}` (pkg/internal/expression), and hands on what it writes to
-- its output and export files. pkg/api/service runs such jobs for its clients, each under a name, with
-- the log that a client follows; pkg/cache and dist load the steps; the steps under dist/steps/step/oci
-- build, fetch and promote images of steps.
--
-- The files, and the code that each one models:
-- - Environment: pkg/runner/environment.go. The pointers between environments are addresses on a
--   heap, so that sharing and mutation are seen. `values_in` is `Values` with fuel for the nesting of
--   its calls; `values` gives as much as there are environments, which Environment/Reachable shows
--   to be enough for every heap that the operations build.
-- - Value: pkg/context/value.go and variable.go, and structpb.Value. A number is held as the bits of its
--   float64.
-- - Expression/Dig: pkg/internal/expression/value_type.go and expression.go. What reflection finds is
--   a data type, `Object`; a nil context is one of its constructors. structpb.NewValue and json.Marshal
--   are the record `Codec`.
-- - Expression/Interpolate: pkg/internal/expression/interpolation.go. The regular expression that finds
--   the marks is `find_all`; the loop over them is `scan`, on a record of its variables.
-- - Proto: the messages of proto/step.proto. A message that can be nil is an option or has a
--   constructor for it.
-- - Schema: schema/v1, from the decoded structs on: Inputs (inputs.go), Outputs
--   (outputs.go), Spec (spec.go), ShortReference, References (reference.go) and Steps (step.go, with the
--   loops of Compile over steps).
-- - Runner/Host: the state that runs work on, and the record of what the runner calls outside this
--   code: files, processes, the git and dist fetchers, decoders, the log.
-- - Runner/Model, Resource, StepFile, Context, Parser: the types of pkg/runner,
--   step_resource_parser.go with the Fetch of each resource, step_file.go, steps_context.go with
--   global_context.go, and step_parser.go.
-- - Runner/Run: step_result_builder.go, executable_step.go, sequence_of_steps.go and
--   lazily_loaded_step.go. `run` has fuel for how deep steps run steps, and `fetch` for how often a
--   dynamic reference is expanded, since a step may refer to itself: no fuel is enough for such a step,
--   in the program as in the model.
-- - Runner/GlobalEnv: global_env.go.
-- - Environment/FromOs: the environments made of the variables of the process.
-- - Jobs: pkg/api/internal/jobs/jobs.go. The goroutine of `Run` and the one of `Close` are events that
--   interleave: `Run` up to the step, onRunCompletion, and the deferred call; `Close` up to its select,
--   and either of the select's cases. Jobs/Opening: New with its directories, and Status.
-- - Service: pkg/api/service/service.go (Handlers), pkg/api/internal/variables and pkg/internal/syncmap.
--   A job is an address in the list of all jobs, as handlers share it by a pointer. Close is two steps,
--   before and behind its wait, and Service/Reachable has every order of requests and job events.
-- - Logs: pkg/api/internal/streamer/file/file.go. Streamer has the reader that waits, and the relation of
--   what it returns while others write; Follow has the lines of bufio.Scanner, with its bound of 64 KiB.
--   `reads_of` has fuel for a read of each byte and one of the end.
-- - Clients: pkg/api/client/basic (Basic) and extended (Extended). The service is the record `Server` of
--   its calls; an int64 is its 64-bit word. Service/Following has the handler FollowLogs on the other side.
-- - Commands: cmd/run (Flags, Run) and cmd/ci (Ci), with pkg/report (Report) and pkg/di (Container). The
--   variables of the process, files and decoders are records of their calls.
-- - Caches: pkg/cache/git and pkg/cache/dist with dist/step_finder.go, over the git library and the file
--   systems as records of their calls.
-- - Oci: dist/steps/step/oci/build and fetch. Artifacts, BuildInputs, Archives (image_factory.go),
--   ArtifactFiles (artifact.go) and Releaser build; Manifests (platform.go), Pull (client.go), Layers
--   (disk_layer_writer.go), FetchInputs (inputs.go, outputs.go) and Keychain fetch. The equality and the
--   preference of platforms are the image library's.
-- - Promote: dist/steps/step/oci/promote. Version is version.go, Pattern and ImageRef are
--   remote_image_ref.go and inputs.go, Remote is the package remote with main.go, and Repository and
--   Promoted are what promotions do to the tags of one repository.
-- - Common/Decimal: strconv.ParseUint and %d. `format_uint` has as much fuel as the number, which is more
--   than its digits.
-- - Examples: concrete data, and the theorems applied to it.
--
-- Maps are association lists in the order of a `range`, which Go leaves open; what holds for every list
-- holds for every order. A run-time panic is the error `panic`, which nothing wraps or recovers. An
-- error keeps its format, the texts that it names and the error that it wraps.
-- The outcome of a step whose command is empty is such a panic. A log file has the position of its
-- next write, which is the beginning of the file when it is opened: what is said of a log that is
-- followed is said of one that is written to at its end, as a log that New has created is.
--
-- Not modelled: the decoding of YAML, JSON, protobuf and flags, the glue of gRPC and of the proxy,
-- the other commands, what the image library and the writers of archives do, and the cancellation of a
-- context, which reaches the model only as an error of a command, a fetcher or a writer.
pub mod Common
pub mod Environment
pub mod Value
pub mod Expression
pub mod Proto
pub mod Schema
pub mod Runner
pub mod Jobs
pub mod Caches
pub mod Clients
pub mod Commands
pub mod Logs
pub mod Service
pub mod Oci
pub mod Promote
pub mod Examples
