-- ===== src/Lib.antt =====
-- codemigrate moves packages of files between users through transfer nodes. The api stores a package and
-- creates jobs; the task manager hands each upload or download of a file to a node that a scheduler
-- picks; nodes report the state of their tasks; the job manager follows the reports, keeps the
-- progress of every file and tells its observers what started and what is done.
--
-- Files and the code they model (paths from the repository's root):
--   Prelude, Errors: tests, maps, numbers, the text of numbers, and Go's pair of a value and an error.
--   Unpacker: pkg/pkg.go. DefaultUnpacker names packages and files and cuts files into segments. The
--     loop of GenerateSegs runs on fuel, the file's size, since each turn takes at least a byte; the
--     outcomes for a division by zero, for a capacity too great and for a loop without end are values.
--   RoundRobin: transfer/task/roundrobin.go, the queue of units, over any type that Go compares.
--   Cydex, TaskTypes, Models: the constants and rows of pkg/models/*.go, of transfer/models/task.go,
--     and of transfer/task/task.go. Models.Engine is the database engine, a library outside the
--     repository: a record of queries and writes that the model takes as a parameter.
--   JobDetails: updateJobDetail of pkg/job.go. The method GetTotalBytes of a reported state belongs to
--     another repository and is a parameter.
--   Tracks: the tracks of pkg/job.go, a Go set being an association list of ones. Tracks.Relation
--     is the relation that they stand for.
--   Jobs: JobManager of pkg/job.go. Each method under its mutex is one step. Jobs.Cache reads jobs
--     and details, Jobs.Lifecycle creates, deletes and finishes jobs, Jobs.Handlers serves the task
--     manager's calls, Jobs.Runs strings calls together. A pointer into the cache is a value that the
--     method writes back; a goroutine that sleeps before it deletes a job is an entry of `delayed`; a
--     nil pointer that is read is the ending `nil_panic`. Observers are the lists of what they were told.
--   Nodes: transfer/node.go and transfer/models/node.go. Nodes.Rows is the database as a parameter,
--     Nodes.Sessions closes, adds and reloads nodes, Nodes.Messages handles messages, Nodes.Storage
--     adds up storage over zones whose rows are an argument. Nodes are pointers into a heap;
--     observers are lists of events that carry the zone as the observer reads it.
--   Schedulers: transfer/task/restrict.go (Restrict), nas_rr.go (Nas), default_scheduler.go with rr_upload.go
--     and file.go (Default). Which node gets an upload or a download; the parser of urls of Go's
--     library is a parameter.
--   Tasks: transfer/task/task.go. TaskManager over the node manager, the bitrates of tasks, and uploads
--     (Tasks.Dispatch) and downloads (Tasks.Downloads) that are given to nodes, which Tasks.Stopping tells
--     to stop the tasks of a job.
--   Stats: statistics/stat_transfer.go and statistics/models/transfer.go. The rates of tasks go into the
--     rows of their nodes (Stats.Runs strings the calls together), Stats.Totals adds the rows up.
--   Api: api/controllers. Api.Transfers is transfer.go: requests for uploads and downloads, from the rights of
--     the user to the response, over the job manager and the task manager. Api.Packages is pkg.go:
--     Storing and Creation insert a package, whose files the unpacker cuts, and create its jobs, Removal
--     changes receivers and deletes packages, Queries and Active show them, and
--     Freeing asks nodes to remove the files of deleted packages. Api.Zones is zone.go, node.go and
--     transfer/models/zone.go: requests that change rows and make the node manager reload.
--     Api.Statistics is statistics.go, which shows what Stats.Totals adds up. The rows that only handlers read and
--     write, and the flags of files, are parameters, the latter of a library.
--   Notify: notify/notify.go and user/models. The events that users are told of, from what the job manager
--     tells its observers; Notify.Serving is the loop that publishes or drops them.
-- `uint64` arithmetic is modulo 2 ^ 64 where a sum or product of sizes can wrap; counters stay below
-- it and are plain numbers. Clocks are arguments.
--
-- Not modelled: the web server, the decoding of requests, mail, redis and configuration files, which only
-- read and write; the controllers of logs and settings; the status of a node;
-- log lines; columns of rows that no modelled function reads; the statistics of packages; the rows of users.
mod Prelude
pub mod Errors
pub mod RoundRobin
pub mod Unpacker
pub mod Cydex
pub mod Tracks
pub mod TaskTypes
pub mod Models
pub mod JobDetails
pub mod Nodes
pub mod Schedulers
pub mod Tasks
pub mod Stats
pub mod Api
pub mod Notify
pub mod Jobs
mod Examples
