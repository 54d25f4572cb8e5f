-- ===== src/Lib.antt =====
-- gpgfs mounts a directory of OpenPGP-encrypted files as a filesystem of their plain texts. This
-- library models the parts of the program that carry its behaviour.
--
-- The parts and how they interact. `cli/cli.go` starts everything: its actions convert keys,
-- encrypt and decrypt messages, or mount a filesystem and wait for its end. `pkg/fuse` turns an
-- SSH key into an OpenPGP key, walks the source directory, decrypts what has the suffix `.gpg`,
-- and fills an inode tree with files that serve the texts from sealed memory. `pkg/config` and the
-- configuration records of the other packages say which key is used and whether telemetry is
-- served: they are completed by Default methods and checked by Validate methods when a
-- configuration is loaded. `pkg/server` carries `pkg/telemetry`. `pkg/crypto`, `pkg/sync` and
-- `pkg/reflect` are libraries of the program's own.
--
-- The files.
--   * Fuse/Preload: `pkg/fuse/fuse.go`, `Preload`. Its callback is `visit`; `mount_file`, `place`,
--     `enter_all`, `load_attr` and `add_file` are the stretches of it that follow one another. The
--     state is the inode tree and the warnings. Kept, Paths, Placed, Complete, Origin, Reading,
--     Taken, Shape, Free and Served hold the proofs: what stays, where a file goes, what one file
--     does, that no file is missed, where the texts come from, what is read, what a taken place
--     does, that the inodes form a tree, that a path stays free until its file comes, and what is
--     served in the end. Fuse/Mount: `New` and `Mount` of the same file.
--   * Fuse/File and Fuse/Attr: `pkg/fuse/file.go`, the operations of a file by their names, and
--     `Attr.Expand`. Fuse/Key: `pkg/fuse/key.go`.
--   * Fuse/Enclave, Fuse/Inodes, Fuse/Key/OpenPgp: the packages memguard, go-fuse, ssh, openpgp
--     and gopenpgp as interfaces, each a record of operations with a record of the behaviour that
--     their documentation promises.
--   * Crypto/SecretBox: `pkg/crypto/secretbox.go`. Crypto/Container: `pkg/crypto/container`, with
--     the maps of Go in a store, since containers and callers may share one.
--     Crypto/Container/Calls is a sequence of calls of one container, beside those of a mapping of
--     keys to values. Crypto/Container/Shared: the same calls by goroutines, access by access,
--     under the mutex.
--   * Sync/Semaphore: `pkg/sync/sync.go`. Reflect/Walk: `pkg/reflect/structs.go`;
--     Reflect/Walk/Scan is the walk as one scan of a list. Reflect/Kinds: the checks of
--     `pkg/reflect/reflect.go`.
--   * Config/Sections: the configuration records of `pkg/log`, `pkg/server`, `pkg/telemetry`,
--     `pkg/fuse` and `pkg/config`, one round of each Default loop and the Validate methods;
--     Config/Loop is the loop, Config/Defaults and Config/Whole are where it ends. Config/Tree:
--     the defaults and the validation of a configuration with all that is below it, as revip's
--     walk applies them. Config/Load: `Default`, `Load` and `Validate` of `pkg/config/config.go`,
--     with revip as an interface. Log: `pkg/log/log.go`; Log/Std: `pkg/log/std.go`. Bus:
--     `pkg/bus/bus.go` and the Update methods.
--   * Server: the middleware that `New` of `pkg/server/server.go` puts around a handler
--     (`pkg/server/middleware`) and `DefaultHTTPErrorHandler`, as functions of handlers.
--     Server/Size and Server/Metrics: `telemetry_middleware.go`, the size of a request and the
--     registration of the metrics, with the names of `pkg/telemetry/collector`. Server/Logger:
--     `logger.go`. Server/Cors: `cors_middleware.go`. Server/Http: the options of an HTTP server.
--     Server/New: what `New` sets up. Server/Swagger: `swagger.go`.
--   * Telemetry: `pkg/telemetry/server.go` and its provider in `cli/cli.go`. Telemetry/Registry:
--     `pkg/telemetry/registry/registry.go`.
--   * Cli/Host, Cli/Message, Cli/Convert: the actions on keys and messages of `cli/cli.go`, over a
--     state of files and standard streams; Cli/Message/Mounted puts them beside the mount. Cli/Mount: the two providers of `MountAction`, over
--     Fuse/Key, Fuse/Mount and Fuse/Preload. Cli/Mount/Action: all providers that it calls, in the
--     order of the arguments, over Cli/Settings, Telemetry and Cli/Mount. Cli/Shutdown: its event
--     loop as a relation of steps. Cli/Settings: the actions on configurations and the providers
--     of the configuration and the logger, over Config/Load and Log. Cli/Commands: the tables of
--     flags and commands. Cli/Wiring: the types that `Before` and `MountAction` give to the
--     container and ask of it. Cli/Profile: `cli/pprof.go`, its goroutines as a relation of steps.
--   * Std: the packages strings, filepath, strconv and base64 of Go, as far as they are used.
--     Base: shared names and lemmas. Tests: instances of the interfaces, and the theorems at
--     concrete inputs.
--
-- Conventions. A call ends with a value, an error or a panic (`Result`). Strings are their bytes.
-- Numbers are the native ones; an int64 sum is written with its wrap-around (Base/Int). A nil
-- pointer is `none`.
--
-- Bounds and fuel. The Default loops run on fuel, and the theorems give the number of rounds that
-- is enough for every configuration: one more than there are fields to fill. `NewSemaphore` runs
-- on fuel, enough when it is more than the limit, since each round fills one place of the buffer.
-- The conversion of a chain of keys runs on fuel, enough when it is more than the length of the
-- text. Trimming white space runs on the length of the text, since each round takes a byte or
-- more. All other loops are recursions on their data. Most theorems on reads are stated for
-- offsets and lengths whose sum is below 2^63.
--
-- Not modelled: the log lines below the level of a warning, but for those of requests, and the
-- identifiers in them, the division of nanoseconds into seconds, the plain values that `Before`
-- gives to the container, and the vendored packages, the container among them, whose calls are
-- parameters, as are `url.Parse` and the names that prometheus' own collectors take. Wiping memory
-- is not visible in the models.
pub mod Base
pub mod Std
pub mod Log
pub mod Bus
pub mod Fuse
pub mod Crypto
pub mod Sync
pub mod Config
pub mod Reflect
pub mod Cli
pub mod Server
pub mod Telemetry
pub mod Tests
