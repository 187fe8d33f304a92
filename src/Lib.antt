-- ===== src/Lib.antt =====
-- A backup proxy between Proxmox VE and an S3 bucket, with a garbage collector for that bucket.
--
-- The proxy (cmd/pmoxs3backuproxy) speaks the backup protocol to its clients and keeps chunks,
-- index files and their copies in a bucket: a chunk under chunks/ with a key made of its digest,
-- the archives of a snapshot under backups/<id>|<time>|<type>/, and a copy of each fixed index
-- under indexed/. The collector (cmd/garbagecollector) lists all of it, marks what the indexes that
-- stay refer to, and sweeps the rest. Both share internal/s3pmoxcommon.
--
-- Which file models what:
--   Prelude      Go's strings, maps, numbers, hexadecimal and decimal texts, loops with errors
--   Objects      minio.ObjectInfo, and the errors as values
--   Client       the S3 client: a parameter, with what its documentation promises as laws
--   Snapshots    internal/s3pmoxcommon/s3pmoxcommon.go and types.go: SnapshotsFromObjects,
--                GetLatestSnapshot, S3Prefix, Delete
--   Index        parseIndex and compareSum of the collector, and internal/s3pmoxcommon/indexsize.go
--   Manifest     internal/s3pmoxcommon/manifest.go
--   Gc.Keys, Gc.Expiry   the keys that the collector reads, retention and grace period
--   Gc.Plan      buildGCPlan of cmd/garbagecollector/gc.go, one function for each of its loops
--   Gc.Sweep     listObjectsFully, removeObjectsFully and executeGCPlan
--   Gc.Loaders   loadIndexFromS3, getObjectMetadata, refreshExpiredSnapshotProtection
--   Gc.Stats     cmd/garbagecollector/stats.go
--   Gc.Run       main of cmd/garbagecollector/main.go, from the first listing on
--   Gc.Process   main from its flags to its exit status
--   Proxy.Cache      cmd/pmoxs3backuproxy/cache.go
--   Proxy.Sessions   the session counts of cmd/pmoxs3backuproxy/http2.go
--   Proxy.Upload     cmd/pmoxs3backuproxy/chunk_upload.go without the flight group
--   Proxy.Flights    the flight group of that file, chunkFlightGroup
--   Proxy.Chunks     the handler of chunk uploads in ServeHTTP
--   Proxy.Writers    the index writers of ServeHTTP in cmd/pmoxs3backuproxy/main.go
--   Proxy.Invalidation   cmd/pmoxs3backuproxy/cache_invalidation.go, with its files in TokenFiles:
--                internal/s3pmoxcommon/cache_invalidation.go
--   Proxy.Signals    cmd/pmoxs3backuproxy/signal.go
--   Proxy.Reports    FillArchiveSizes and FillSnapshotCryptModes of cmd/pmoxs3backuproxy/sizes.go, and
--                the cached listing of main.go, listSnapshotsCached
--   Proxy.Backups    the bodies of backup and restore sessions, backup and restore of http2.go
--   Proxy.Logins     logins, tickets and the list of datastores: ServeHTTP and
--                ticketGC of main.go
--   Proxy.Settings   what main of cmd/pmoxs3backuproxy/main.go makes of its flags
--   Proxy.Dispatch   which handler of ServeHTTP a request reaches
--   Proxy.Handlers   the other handlers of ServeHTTP: notes and protection, closing of indexes,
--                blobs and downloads, groups, snapshots, files, deletion, statistics and
--                status; storage_class.go
--   Proxy.Sizes      the size modes and the walk of cmd/pmoxs3backuproxy/sizes.go
--   Tests        the theorems on concrete inputs
--
-- How the code is translated. A Go string is the list of its bytes. A uint64 is a natural number
-- whose wrap-around is written out, an int64 an integer. A map is an association list; the results
-- of the program do not depend on the order in which it ranges over one. An error is a value that
-- tells which error it is, without its text; a fatal error of the collector is an outcome of the run.
-- The bucket is a state of any type, on which the client's calls are functions, so a failing call may
-- have done a part of its work. Methods under a mutex are single steps; logins, which hold none, are a
-- relation of smaller ones, as are concurrent uploads, and workers that share a queue are an order of
-- its jobs. Loops are over lists that are given, but for that over the offsets of a fixed index, which
-- has fuel; one more than the size is enough for a chunk size that is not 0. A number is printed with
-- twenty digits at most, enough below 2 ^ 64.
--
-- Not modelled: HTTP, the parsing of flags, logging and timers; SHA-256, CRC-32, zstd, base64, JSON,
-- the process lock and the file system, which are parameters; the constant answers, the server and its
-- certificate, hijacked connections.
pub mod Prelude
pub mod Objects
pub mod Snapshots
pub mod Index
pub mod Client
pub mod Manifest
pub mod Gc
pub mod Proxy
pub mod Tests
