-- ===== src/Lib.antt =====
-- familiar-fleet: a client that enrolls a node with a fleet, keeps one runtime of the fleet active
-- on it, and runs the Herdr server, a callback sshd and a reverse tunnel there.
--
-- Host is the machine. A `World` has the files that the program finds outside its state directory
-- (`outside`), the entries of the state directory (`entries`, by path), the temporary files, and a
-- schedule that answers each system call: grant, refuse, or kill, where the process is gone at
-- once. An operation is an `Io` action with the outcome ok, err or crash. Text, FilePath and Base
-- hold the functions of Go's library that the code calls, over lists of bytes.
--
-- Descriptor is internal/client/runtimedesc.go: `validate` is `RuntimeDescriptor.Validate`.
-- Store is internal/runtime/store.go: `pointer`, `validate`, `status`, `ready`, `activate`,
-- `rollback` and `replace_symlink` are the functions of those names; Store/Provenance has `Applied`
-- (`read_applied`) and `RecordApplied` (`record_applied_runtime`), Store/GcRoots has
-- `RegisterGCRoot` and `PruneGCRoots`.
-- Applier is internal/client/runtimeapply.go with `Build` and `Smoke` of the store: `apply` is
-- `Apply` (`satisfied_by`, then `vet` and `commit`, the parts of it before and from `Activate` on),
-- `true_up` is `TrueUp`. The executables that it runs are the parameter `Tools`. Applier/SmokeEnv
-- is `smokeEnv`.
-- Session is internal/client/herdrsession.go and the part of internal/client/supervise.go on the
-- Herdr server: what the machine answers is given as `Events`, and a run returns its result and the
-- commands that it gave. `waiting` is a `select` in which no channel is ready yet.
-- Session/Sshd has the rest of internal/client/supervise.go: `startSSHD`, `child.stop`,
-- `waitHerdrReady` and `RunTunnel`; `stuck` and `waiting` say that the events leave it in a
-- `select`.
-- Session/Child has the ways in which processes are started, and the kernel's process groups as far
-- as `child.stop` uses them. Session/Supervisor is `RunInteractive` from the running server on, and
-- `RunTunnel`: the main goroutine, `tunnelLoop` and the processes as one step relation. `Main` and
-- `Tunnel` say where the two goroutines are, MainMoves and TunnelMoves what each of them does, and
-- a `Step` of Steps is one such move, which it makes between two points at which another may run,
-- or an event outside. SIGTERM and SIGKILL are one signal there, and a process that got it may exit
-- at any later step. Stopped, Ending and Reconnecting have what is reached, Invariant and Ranks
-- what that rests on.
-- Tunnel is the reconnecting loop and `backoff` of internal/client/supervise.go, in nanoseconds.
-- State is internal/client/state.go: paths, enrollments, public keys and the regular expressions.
-- State/Files has `LoadState`, `SaveState` and `atomicWrite`, Endpoint has `CanonicalEndpoint`.
-- Config is internal/client/config.go: the files of sshd, the arguments of ssh, and the quoting.
-- Config/Directives has a parser of sshd's configuration, which expands no %-token and leaves the
-- forced command as it stands; Config/Forwarding has the arguments that ssh is to be given.
-- Enroll is internal/client/enroll.go: `enroll` is `Enroll`, `read_token` is `ReadToken`,
-- Enroll/Keys has `EnsureKey`.
-- OAuth is internal/client/oauth.go: `discover_oidc`, `exchange_code` and `validate_id_token_nonce`
-- are the functions of those names. OAuth/Start is `Connect` up to the opened browser, OAuth/Flow
-- is `Connect` from there on, as a step relation of the main goroutine and the two handlers over
-- what they share; the last five fields of a `Flow` are history. OAuth/Flow/Stages has the
-- abstract machine, of which the steps are moves, OAuth/Flow/Requests the requests of the exchange,
-- and OAuth/Flow/Ending the end of its time.
-- PaneShell is internal/client/paneshell.go: `merged` has the lines of the result of
-- `MergeHerdrConfig`; PaneShell/Launcher has the generated scripts, as lines.
-- Environment is internal/client/herdrenv.go: `server_env` is the environment of the server, and
-- Environment/Prepare has `PrepareHerdrEnvironment`.
-- Cli is cmd/familiar-fleet/main.go: `parse_invocation` is `parseInvocation` with the rules of
-- package flag, Cli/HostKey has `applyHostKey`, Cli/Binary `FindBinary`, and Cli/Node has `run`:
-- its result says which call it ends in, with the arguments of that call.
-- Tiamat is internal/client/tiamat.go.
-- Examples runs the definitions on concrete inputs.
--
-- Numbers: Go's int is ℤ where a negative value can arrive, and ℕ elsewhere. No value of the
-- modelled code nears the width of an int. No function runs on fuel but the printing of a number,
-- which has one unit for each digit and one more.
--
-- Not modelled: the content of the JSON files is kept as the record that it encodes, in
-- applied.json with the text that encoding/json leaves of a text (Text/Json); white space is ASCII
-- white space; the parents of a directory that is made exist; the names of temporary files are not
-- used by any other file; nothing but the program changes its state directory. A file is filled by
-- one call for each write of the source. os.RemoveAll is one call. The modes of directories are
-- not kept. The parameters are net.ParseIP, filepath.Abs and EvalSymlinks, exec.LookPath,
-- runtime.GOOS, net/url with strings.ToLower of its parts (`Urls`), encoding/json (`Codec`), the
-- HTTP client, ssh-keygen, the executables, randomness, and what stands outside the state
-- directory. Logging and progress, the pages, the handling of signals and what a shell makes of
-- the generated scripts are left out. In the steps of `Connect` the wait for `responseSent`, which
-- ends by itself after a second, the shutdown of the server and the race of the access token are
-- left out. `run` ends where `RunInteractive`, `RunHerdr`, `RunTunnel`, `Connect` or
-- `StopHerdrSession` begin.
pub mod Base
pub mod Cli
pub mod Text
pub mod FilePath
pub mod Descriptor
pub mod Host
pub mod Store
pub mod Applier
pub mod Session
pub mod Endpoint
pub mod State
pub mod Enroll
pub mod OAuth
pub mod Config
pub mod PaneShell
pub mod Environment
pub mod Tiamat
pub mod Tunnel
pub mod Examples
