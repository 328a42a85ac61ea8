-- ===== src/Lib.antt =====
-- The update client of Mender: its daemon, a state machine over a database that survives reboots.
--
-- The daemon (app/daemon.go) asks its controller (app/mender.go) for one transition after another.
-- A transition runs the state scripts on leaving the old state, stores the new state in the
-- database (datastore/, over store/dbstore.go) if it is one of an update, runs the scripts on
-- entering it, and then its handler (app/state.go), which returns the next state. Handlers call the
-- installers of the payloads, the server's API and the deployment log. After a reboot the first
-- state loads what was stored last and decides where the update goes on.
--
-- The same installers serve the standalone mode (app/standalone.go), where the command line installs,
-- commits and rolls back. The installer of root file systems (installer/dual_rootfs_device.go) writes
-- to the partition that does not run, through a chain of writers (installer/block_device.go), and
-- tells the boot loader which one to start, over U-Boot's environment (installer/bootenv.go). Other
-- payloads are installed by update modules (installer/modules.go): programs that are called for each
-- step, and that take the files of a payload from pipes. State scripts are run by statescript/executor.go. Requests to
-- the server fail over from one server to the next and renew the token (client/client.go,
-- app/mender.go, app/auth.go), and a download that breaks is resumed (client/update_resumer.go).
--
-- Which file models what:
--   Prelude              shared names, Boolean tests, errors and results
--   Text                 texts as code points, and what is used of Go's strings and strconv
--   Bytes                lists of bytes: their parts and lengths
--   Datastore/StateData  datastore/statedata.go: the stored structs and their methods
--   Datastore/Db         store/dbstore.go, datastore/dbkeys.go: entries, reads, writes, transactions
--   Datastore/Persist    datastore/datastore.go: StoreStateData, LoadStateData, LoadProvides
--   Datastore/Atomic     one store or load, with faults of the database
--   Datastore/Counting   the store count that detects loops
--   Datastore/Reload     what is loaded after storing, and from databases of other versions
--   Datastore/Fields     the names of the states and the list of requested reboots
--   Client/Backoff       GetExponentialBackoffTime of client/client.go
--   Client/Resumer       client/update_resumer.go; below it its steps (Step), the content that it
--                        delivers (Content, Delivery) and its end (End)
--   Client/Update        client/client_update.go
--   Installer/BootEnv    BootEnvReadWriter of installer/bootenv.go
--   Installer/UBoot      UBootEnv of installer/bootenv.go; Accepted is about writes to it
--   Installer/Partitions installer/partitions.go; Found and Inactive say which partition is found
--   Installer/DualRootfs installer/dual_rootfs_device.go
--   Installer/BlockDevice
--                        the writers of installer/block_device.go, LimitedWriteCloser of
--                        utils/limited_writer.go, and StoreUpdate of
--                        installer/dual_rootfs_device.go; below it Open, and what the device holds
--                        (Frame, Refines, Image) and when an image is stored (Succeeds)
--   Installer/Module/*   installer/modules.go: Call (the calls and their replies, Reply), Tree (the
--                        tree of a payload, Built), Factory, and Download
--   Installer/Module/Download
--                        the loop of a download; below it System (the loop and its client as steps),
--                        Invariant (what always holds), Told and Report (a download without an
--                        error) and Blocked (how it stops)
--   Statescript/Name, Statescript/Launcher, Statescript/Executor
--                        statescript/executor.go, readVersion of statescript/store.go; Retry is
--                        about one script, Order and All about those of a state
--   App/Error            app/error.go
--   App/Transition       app/transition.go: the transitions and the names of their scripts
--   App/State            the state types of app/state.go, with Id, Transition and Update
--   App/World            StateContext, the controller's state, and the calls to the outside
--   App/Depends          verifyArtifactDependencies of app/mender.go, ElemInSlice of
--                        utils/compare.go; App/Depends/Correct says when it passes
--   App/Handle/*         the handlers of app/state.go: Errors (HandleError, waiting, reporting),
--                        Init, Idle, Download, Install, Commit, Report, Reboot
--   App/Authorization    app/auth.go, Bootstrap, loadAuth and reauthorize of app/mender.go; Token
--                        and Authorized are about the token
--   App/Authorization/Request
--                        Do and tryDo of client/client.go, nextServerIterator and Authorize of
--                        app/mender.go; Failover is about the servers that are asked
--   App/Authorization/Check
--                        CheckUpdate of app/mender.go, with GetScheduledUpdate as a parameter;
--                        Scheduled fills it from Client/Update, and Refused is
--                        about a server that refuses
--   App/Standalone/*     app/standalone.go, datastore/standalone_data.go: Device (state and calls),
--                        Finish (rollback, failure, cleanup), Restore, Install; Outcome, Ending and
--                        Waiting say what is left in the database
--   App/Transit          transitionState of app/mender.go, and Handle
--   App/Daemon           MenderDaemon.Run of app/daemon.go
--   App/Diagram          the state diagram, with the proofs for the handlers in Diagram/Early,
--                        Diagram/Late and Diagram/Total
--   App/Broken, App/Committing, App/Payloads, App/Recovery, App/Retry, App/Success
--                        giving up, committing, the loops over payloads, the states behind a commit,
--                        the number of reports and their end (Retry/Ends), and what a claim of
--                        success rests on
--   App/DeploymentLogger app/deployment_logger.go; Rotation says which files are kept
--   Examples             test data, and runs of the theorems on it
--
-- How code is read. A handler is a function from the world to an outcome: a result with the next
-- world, or a Go panic. What a handler writes through its receiver is written into the current state
-- of the world. A state holds its update, as the pointer to it is handed from state to state.
-- Whatever lies outside (installers, server, log files, executor of the scripts, clock, waiting) is
-- a call: the environment is a parameter that answers each call from the list of all calls before
-- it, so it stands for any behaviour. The database is a record with one entry for each key; each
-- operation on it may fail, as a function from the number of the operation says, and a transaction
-- that fails leaves no change. encoding/json is a parameter with the one law that a marshalled
-- record is unmarshalled to itself. Errors keep the values that the code compares with; all others
-- are texts that nothing depends on.
--
-- Bounds. Versions, counts, indices, times and durations are natural numbers: the code only adds to
-- them from 0, times are nanoseconds from the zero time, and no clock reaches 2 ^ 63 of them;
-- the configured intervals are not below 0, where a negative one panics in time.NewTicker; a
-- Version or a StateDataStoreCount below 0 in the database is not modelled. No
-- loop of the daemon, of its handlers, of the standalone mode or of a request runs on fuel: they are
-- over payloads, entries, tries, servers or, for the daemon's loop without end, given signals. Three
-- other loops run on fuel. A script is run again until its time for retries is over: each wait takes
-- a nanosecond at least, so that time and 2 are enough. A download is resumed until the backoff gives
-- up, after 3 k + 3 tries if k doublings of a minute reach the maximal wait: 6 k + 8 steps are
-- enough. And the sector size of a device is doubled up to a mebibyte: twenty steps are enough for a
-- size of a byte at least, and for a size of 0 the loop does not end, here and in the code.
-- The settings of the scripts' times are seconds not below 0, and a download's length is known, as
-- FetchUpdate checks.
--
-- Parameters. fw_printenv only reads, and what fw_setenv does with its lines is any function. The commands mount and stat and
-- the links of the file system are answers of the system that do not change while a process runs.
-- Directories, files and processes of scripts, the server's responses and replies, and the keys are
-- answers of an environment that knows all events before. The open file of a device has a fixed
-- size; each of its operations may fail, and may have handled some of its bytes when it does. What an
-- update module writes and how it ends, and the join of paths, are parameters, and so are the files
-- of its tree. The loop of its download, its client, the process and the routines that stream into
-- files are steps in any order; a channel without a buffer passes a value in one step, and cancelling
-- a stream is taken to end. The names of log files are listed in reverse order, as they are sorted.
--
-- Not modelled: a nil map is not told apart from an empty one, texts of log lines are left out, and
-- entries of a Go map come in a given order. The inventory, the encoding of messages and TLS, writes
-- to UBI volumes, the files of the store of scripts, key and directory stores,
-- configuration and command line are not modelled beyond the calls that are made to them. To the
-- state machine, the authorization, the check for an update and the run of scripts are calls with any
-- answer.
pub mod Prelude
pub mod Text
pub mod Bytes
pub mod Datastore
pub mod Client
pub mod Statescript
pub mod Installer
pub mod App
pub mod Examples
