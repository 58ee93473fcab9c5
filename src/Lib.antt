-- ===== src/Lib.antt =====
-- The admission and scale-up core of the inference budget controller, a Kubernetes operator that runs
-- language models on demand within a memory budget.
--
-- A request names a model. The proxy (internal/proxy) looks the model up, records the request in the
-- registry (internal/registry), which holds the state of each deployment and its requests in flight,
-- and starts the model's pod where it has to. To start it, the proxy asks the tracker
-- (internal/budget) whether the model's memory fits the budget of its node pool, checks the global
-- limit, and evicts idle models, oldest request first, where that makes room. Then it creates the
-- pod, allocates its memory, waits until it is ready and forwards the request. The controller
-- (internal/controller) keeps the model's status and deletes a pod that has been idle too long.
-- Large files are downloaded in chunks (internal/download), whose parts are then joined, or put together
-- from the compressed chunks of a content store (internal/xet); the header and the bounds of a GGUF
-- file are checked before it is used.
--
-- Files and code:
--   Quantity          resource.Quantity of k8s.io/apimachinery, a parameter with its documented laws
--   Budget            internal/budget/tracker.go; Budget/Usage holds RecordUsage, GetUtilization and
--                     GetOverprovisionedModels; the other children hold lemmas and theorems
--   Registry          internal/registry/registry.go
--   Proxy             the state that the proxy shares, and lookupInferenceModelByName of
--                     internal/proxy/server.go
--   Proxy/Idle        the idle tracker of internal/proxy/server.go
--   Proxy/Waiting     waitForModelReady, waitForPodReady and waitForPodDeleted of
--                     internal/proxy/handler.go
--   Proxy/Eviction    tryEvictIdleModels and tryEvictIdleModelsForGlobalLimit
--   Proxy/Deployment  canScaleUp and ensureDeployment
--   Proxy/Serving     openaiPassthroughHandler with a registry, and forwardToBackend
--   Proxy/Legacy      handleInsufficientMemory, triggerScaleUp and the path without a registry
--   Proxy/Handlers    openaiPassthroughHandler and multipartPassthroughHandler from the body on
--   Proxy/SingleFlight
--                     the mutex of ensureDeployment, as steps of concurrent calls
--   Pod               the API types that buildPod reads, from api/v1alpha1
--   Pod/Resolve       resolvePort to buildContainerArgs of internal/proxy/handler.go
--   Pod/Resources     buildResourceRequirements
--   Pod/Build         buildMainContainer, buildPodSpec and buildPod
--   Controller        the state of one reconciliation of
--                     internal/controller/inferencemodel_controller.go
--   Controller/Conditions
--                     setConditionOnModel and isScaledDown
--   Controller/Idle   handleIdleScaling and deleteIdlePod
--   Controller/Status updateStatus
--   Controller/Reconcile
--                     Reconcile from the fetch of the pod on, handleDeletion and needsDownload
--   Download          the types of internal/download/chunked.go; Download/Chunks holds
--                     computeChunks, Download/Assembly assembleChunks, Download/Retry
--                     downloadChunkWithRetry, Download/Progress ProgressTracker of
--                     progress.go, the others theorems
--   Gguf              the types of the GGUF check in internal/download/file_ops.go
--   Gguf/Reader       readGGUFString and readBytes
--   Gguf/Values       skipGGUFMetadataValue and readGGUFMetadataValue
--   Gguf/Metadata     parseGGUFMetadata
--   Gguf/Tensors      parseGGUFTensorInfos
--   Gguf/Bounds       computeTensorDataSize and validateGGUFTensorBounds
--   Gguf/Header       readGGUFFileHeader and validateGGUFHeader; Gguf/Format has the format itself
--   Xet               the types of internal/xet
--   Xet/Headers       ParseChunkHeader, Serialize and XorbIterator of xorb.go
--   Xet/Decompress    Decompress, decompressLZ4 and undoByteGrouping4 of decompress.go
--   Xet/Extract       extractChunks, fetchXorbData and reconstruct of download.go
--   Xet/Writer        reconstructToWriter and extractChunksToWriter of download.go
--   Xet/Urls          ParseHuggingFaceURL, parseHFProtocol, String and RepositoryID of file_id.go
--   Manager           the types of internal/download/manager.go, status.go and spec.go
--   Manager/Status    the methods of Status
--   Manager/Resolve   resolveFiles and shouldExclude
--   Manager/Fetch     downloadFile, tryResumeDownload, and ResumeDownloadFile of
--                     internal/huggingface/client.go
--   Manager/Verify    the markers, the manifest, VerifyFiles, VerifyFilesDeep and
--                     CheckAndVerifyReadyMarkerDetailed of internal/download/file_ops.go
--   Manager/Perform   performDownload
--   Examples          concrete data, and the theorems at it
--   Prelude           Boolean tests, lists, integers, association lists, sums
--
-- Names follow the code: a method `GetIdleEntriesSorted` is `get_idle_entries_sorted`, and its
-- receiver is the first argument; a method that changes its receiver returns the new one. A Go map is
-- an association list, whose order stands for one order of iteration. A method of the tracker or of
-- the registry holds its lock, so it is one step; a handler is one thread's sequence of such steps,
-- and Proxy/Race and Proxy/SingleFlight have several threads at once.
--
-- Bounds: an int64 sum wraps (`int64`); a time is a number of nanoseconds, and a difference of times
-- stops at 0. Most recursions are on a list; a waiting loop runs over the list of what its `select`
-- chose, with the answer that it still waits where the list ends. The nesting of GGUF arrays and the
-- chunks of a xorb have fuel, the length of the bytes: each level and each chunk takes some.
--
-- Panics: `none` is a panic of resource.MustParse or of a nil pointer. The path without a registry
-- also has the answer `panicked`, since memory was allocated before it.
--
-- Not modelled: Kubernetes, HTTP, JSON and float64 are parameters or lists of answers; the rewriting
-- of a request's body, the copying of headers and bodies, metrics and log lines are left out. Of
-- internal/download the cache's clean-up, the map of downloads with its semaphore, the download of several
-- files at once and the updates of the status in Kubernetes are not modelled; of internal/xet the requests
-- of its client and the concurrent download of several files; of internal/huggingface all but the answer
-- to a resumed download; and of the controller the part up to the fetch of the pod.
pub mod Prelude
pub mod Quantity
pub mod Budget
pub mod Registry
pub mod Proxy
pub mod Pod
pub mod Controller
pub mod Download
pub mod Gguf
pub mod Xet
pub mod Manager
pub mod Examples
