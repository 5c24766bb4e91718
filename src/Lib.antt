-- ===== src/Lib.antt =====
-- A model of redo, the build system, as functions and theorems.
--
-- The program decides which targets of a build are out of date, runs their .do scripts in parallel
-- and records in an sqlite database what each target depended on. Modelled are parts of these files:
--
-- * redo_core/src/state.rs (Store): rows and records of files in Store/Rows, the SQL statements as
--   functions on tables in Store/Tables, transactions in Store/Transactions, stamps in
--   Store/Stamps, the methods of File in Store/Files, Lock in Store/Locks.
-- * redo_core/src/deps.rs (Deps): isdirty in Deps, PlanCache and isdirty_readonly in Deps/Plan. An
--   independent description of an up-to-date file is Deps/Fresh.
-- * redo_core/src/cycles.rs (Cycles).
-- * redo_core/src/paths.rs (Paths): std::path in Paths/Components, the lexical normalisations in
--   Paths/Normalize, the search for a .do file in Paths/DoFiles.
-- * redo_core/src/action_cache.rs (ActionCache): the keys of actions in ActionCache/Keys and
--   ActionCache/Contents, the collection of old objects in ActionCache/Gc, metadata, lookup and store
--   in ActionCache/Meta.
-- * redo_core/src/remote_cache.rs (Remote): the configuration in Remote/Url, messages in Remote/Http
--   and Remote/Json, the calls in Remote/Client and Remote/Download.
-- * bins/src/redo_cache_server.rs (Remote/Server): the handlers in Remote/Server/Handlers, handle_one
--   in Remote/Server/Serve. What the server promises is Remote/Server/Spec, and what its files mean
--   is Remote/Server/Views.
-- * redo_core/src/jobserver.rs (Jobserver): the tokens of a process and one round of waiting in
--   Jobserver, the loops in Jobserver/Loops, setup in Jobserver/Setup.
-- * redo_core/src/builder.rs (Builder): parsers of dependency files and the strict read trace in
--   Builder/Trace, find_do_for_target in Builder/Script, the lock ids of pools in Builder/Pool, their
--   directive and the search for a slot in Builder/Directive, the shuffle in Builder/Shuffle,
--   build_one in Builder/Start and what it records of a run in Builder/Build.
-- * redo_core/src/env.rs (Env): the settings and what is inherited of them in Env, find_base in
--   Env/Find.
-- * bins/src/redo.rs (Plan): the plan of a build, with the words of scripts in Plan/Words, the
--   scope in Plan/Scope and the counts in Plan/Count.
-- * the small programs of bins/src (Commands): redo-always, redo-ifcreate and redo-stamp in
--   Commands/Target, redo-sources, redo-targets and redo-whichdo in Commands/Listing, the arguments
--   of redo-ifchange in Commands/Ifchange.
--
-- The walks of Deps call the methods of Store/Files, which call the statements of Store/Tables
-- through the transactions; names and stamps use Paths. `start` of Jobserver asks the transactions
-- whether they are flushed, which is its argument here.
--
-- Texts are lists of characters. Row ids, run ids and file ids are natural numbers, since sqlite
-- gives positive ones. The operating system, sqlite and the crate pathdiff enter as the record
-- World of Store/Files: the file system is fixed during a call, in it a file is there or is not (a look
-- that fails for another reason is not modelled), canonicalize, diff_paths and the
-- choice of a new row id are functions. An sqlite statement is assumed to succeed; a table keeps
-- its rows in a list, and a query gives them in that order. Floats are not modelled: the
-- modification time of a file is the text that the program prints of it.
--
-- The two walks over dependencies take fuel, one more than the number of rows of the table Files:
-- that is enough, since the list `already_checked` never holds an id twice.
--
-- The loops of the job server take a list of turns: what select, waitpid and the pipes answer in
-- each round. A loop that runs out of turns ends in an error of its own. A start may fail at its pipe or
-- at its fork. Writes to the token pipes are assumed to succeed: what is lost if the write in
-- `release` fails is not modelled, nor are signals, alarms and the descriptors of the pipes.
--
-- The remote cache: bytes are numbers, the codec of UTF-8 and SHA-256 are parameters. A connection of
-- the client is a function on the state of the server. The server is the one that is built for
-- systems other than Linux, where /v1/exec runs nothing; its calls on files succeed, but for the
-- rename, whose result is an argument, and a temporary file with its rename is one write. A loop over
-- header lines has one more turn than there are bytes. A download may break off behind the opening of
-- its file.
--
-- The action cache: what is fed to SHA-256 is one list of bytes, and a file is stored by writing its
-- content and its metadata at once; the removals of a collection succeed.
--
-- build_one works on a disk and a connection: the calls that change the disk are a record of
-- functions, and the run of the .do file by the job server is one function on both. It does not wait
-- for a slot of a pool. Not modelled are the builds of several targets at a time, the printing of
-- logs, the viewers and the tracer, which are mostly calls of the operating system and output.
--
-- The plan of a build reads lines as `read_line` gives them. Its search has one turn for each entry of
-- the manifest and one more: that is enough, since a name is put into the queue once. Words of a script
-- have one more turn than there are bytes. The environment of a process is a function from names.
pub mod Base
pub mod Builder
pub mod Commands
pub mod Cycles
pub mod Deps
pub mod Env
pub mod Jobserver
pub mod Paths
pub mod Plan
pub mod Remote
pub mod ActionCache
pub mod Store
mod Tests
