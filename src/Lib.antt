-- ===== src/Lib.antt =====
-- The AviationWX.org Bridge: a daemon that captures images of the cameras at an airport, keeps them
-- in one queue per camera on a RAM disk, and uploads them.
--
-- A capture worker (one goroutine per camera) takes an image at an interval, asks the time authority
-- for its observation time and enqueues it. The queue keeps its images as files that are named by
-- their time, thins and expires them under pressure, and pauses capture when it is full. One upload
-- worker, a coordinator with some upload goroutines, takes the images of all queues, uploads them
-- and tells the queue to remove them. Failures make cameras and uploads wait.
--
-- Prelude has the native numbers, lists, Go's integers and times (unbounded, times in nanoseconds
-- from 1970) and float64 as exact fractions, or to the bit where rounding shows. Files models what the
-- code takes from the operating system and the standard library: names as bytes and their order,
-- decimal numbers as fmt and strconv print and parse them, a directory as a list of entries, and
-- maps with string keys.
--
-- Queue models internal/queue/queue.go and types.go:
-- * Queue/Types has the records and errors, Queue/Disk the file operations, Queue/Listing the sorted
--   listing (listFilesSortedLocked, parseTimestampFromFilename, recalculateOldestLocked),
--   Queue/Health the levels (getCapacityPercentLocked, updateHealthLevelLocked);
-- * Queue/Thinning has the cleanups (EmergencyThin, emergencyThinForSpaceLocked, thinQueue,
--   ExpireOldImages), Queue/Enqueue the entry of an image (Enqueue, writeImageWithRetry),
--   Queue/Upload its exit (MarkUploaded), Queue/Dequeue the reading calls and NewQueue;
-- * Queue/Consistent, Queue/Stable, Queue/Writes, Queue/Store and Queue/Calls relate the counters to
--   the directory, Queue/Names is about the names Enqueue makes, Queue/Chronology about their order,
--   Queue/Batches about DequeueBatch, Queue/Kept and Queue/Ends about what cleanups leave,
--   Queue/Levels about the shares of the default configuration, Queue/Faults about two states that need care.
-- Queue/Manager models internal/queue/manager.go (CreateQueue, RemoveQueue, checkMemoryPressure,
-- checkFilesystemSpace, ExpireAllOldImages, the totals), Queue/Fleet is about it. What the file system
-- and the runtime report there are parameters, the base path and the tickers are left out.
-- What the operating system refuses is a function of the contents of the directory, so a run of
-- calls is any run of it; os.Stat may fail otherwise than for a file that is not there. thinQueue as a goroutine is a call of its own that follows Enqueue.
--
-- Time models internal/time: Time/Health the NTP check of types.go, with the query of a server as a
-- parameter, and Time/Authority the choice of the observation time of authority.go, with the zone
-- database as a parameter; Time/Trust is about that choice.
--
-- Scheduler models internal/scheduler but for the uploads: Scheduler/Backoff (backoff.go, types.go;
-- Scheduler/Delays is about it), Scheduler/Degraded (degraded.go) and Scheduler/Capture (capture.go:
-- NewCaptureWorker, run, capture, handleCaptureError; Scheduler/Jobs and Scheduler/Ticks are about
-- it). Scheduler/Clocks relates the time authority to the checks of Enqueue.
--
-- Uploads models internal/scheduler/upload.go: Uploads/Types the worker and its cameras (AddQueue,
-- RemoveQueue), Uploads/Failures the records of failures (recordSuccess, recordFailure,
-- handleAuthFailure), Uploads/Scheduling, Uploads/Turns and Uploads/Steps the goroutines as interleaving
-- steps (scheduleUploads, uploadWorkerRoutine, uploadWithRetry), one for each change of the files in
-- flight, the channel or activeUploads, and the uploads that go on after their deadline. Uploads/View, Uploads/Counting, Uploads/Tracking,
-- Uploads/Sending and Uploads/Flight are about
-- the files in flight, Uploads/Choice about the image that is taken, Uploads/Backoffs about waiting.
-- Queues are shared there by address, and may change between any two steps.
--
-- Update models the comparison of versions of internal/update/checker.go: Update/Versions has
-- parseVersion, compareVersions and isNewerVersion, Update/Releases is about them.
--
-- Config models internal/config: Config/Types the records, Config/Defaults what is filled in
-- (NormalizeUploadConfig, GetQuality, GetWebPassword, GetWebPort), Config/Validator validator.go,
-- Config/Store the files and what can fail with them, Config/Service service.go (NewService with
-- reload, AddCamera, UpdateCamera, DeleteCamera, UpdateGlobal, ListCameras) and Config/Migrate
-- migrate.go (MigrateFromLegacy, InitOrMigrate). Config/Entries and Config/Mirror relate the
-- files to the memory, Config/Calls is about the calls, Config/Refines about what a client sees
-- of them, Config/Loading, Config/Reopen and Config/Broken about the start on existing files,
-- Config/Migration and Config/Restart about the migration. encoding/json is a parameter, which
-- reads back what it wrote where a theorem needs that. The file of a camera is that of an id
-- without a slash, which filepath.Join leaves alone: an id as "../global" is not covered.
-- Directories can be made, and the backup of global.json is left out.
--
-- Bridge models the daemon as a whole, over the parts above: Bridge/Clients the making of camera
-- and upload clients (internal/camera/factory.go, internal/upload/factory.go),
-- Bridge/Orchestrator internal/scheduler/orchestrator.go, Bridge/Events and Bridge/Start
-- cmd/bridge/main.go (addCamera, handleConfigEvent, updateTimezone, restartSNTP; main up to the
-- web server, initOrchestrator). Bridge/Kept lifts what the methods of the orchestrator keep to
-- the start and to any sequence of events; Bridge/Keys and Bridge/Paired are about the queues and
-- workers of a camera, Bridge/Asleep and Bridge/Uploading about what is started, Bridge/Zones
-- about the time zone. An event is handled with the configuration of some moment, since listeners
-- run as goroutines; that two handlers overlap is left out. A negative interval of the
-- SNTP settings panics in the goroutine of the time check, which ends the daemon: see Bridge/Events.
--
-- Console models internal/web/server.go over Config: Console/Types the requests and replies,
-- Console/Updates and Console/Handlers the handlers, Console/Serve the routes and the password
-- (setupRoutes, authMiddleware, staticMiddleware), Console/Status the health check with getStatus
-- of cmd/bridge/main.go, whose dynamic types are constructors. Console/Access is about requests
-- without the password, Console/Kept about the files of the configuration, Console/Secrets about
-- the update of a camera, Console/Health about the health check. What a body says is a parameter;
-- the status of a worker in the map of a camera is left out.
--
-- Resource models the slots of internal/resource/limiter.go (NewLimiter, DefaultConfig, acquiring
-- and releasing): Resource/Limiter has the channels, Resource/Workers the jobs of
-- internal/scheduler/capture.go as steps between them, Resource/Bounded and Resource/Progress are
-- about these steps, a panic while an image is processed among them.
--
-- Logs models internal/logger/buffer.go: Logs/Buffer has the ring buffer, Logs/Back and
-- Logs/Latest are about what it gives. The lines reach a reader by handleLogs in
-- Console/Handlers.
--
-- Fuel is used in one place that a caller sees: the search of Enqueue for a free name has one
-- round more than there are files, which is enough while os.Stat does not fail. Loops over lists are structural.
--
-- Not modelled: adaptive throttling, the loggers but for their buffer, image scaling and the
-- measurements of system health; and the captures of the camera clients, the uploads of the SFTP
-- client and the EXIF tool, which are input, output and external programs.
pub mod Prelude
pub mod Files
pub mod Queue
pub mod Time
pub mod Scheduler
pub mod Uploads
pub mod Update
pub mod Config
pub mod Bridge
pub mod Console
pub mod Resource
pub mod Logs
