-- ===== src/Lib.antt =====
-- nix-redox: the core of snix-redox, the Nix store for Redox, and of the remote debugging stub.
--
-- The store (snix-redox/src/store.rs) computes closures of store paths over the metadata database
-- (snix-redox/src/pathinfo.rs), keeps roots, and collects garbage. The stored daemon serves the
-- store as a scheme, whose paths snix-redox/src/stored/resolve.rs parses. The profiled daemon
-- serves the union of a profile's packages and keeps the profiles on disk
-- (snix-redox/src/profiled/). The build proxy lets a builder read and write only what the allow
-- list of its derivation holds (snix-redox/src/build_proxy/allow_list.rs). The debugging stub
-- (src/gdbstub) translates packets of gdb into operations on a traced process.
--
-- Base: what the parts share. Rust's `Result`, texts as lists of bytes, operations of `str` and
-- `Path`, `BTreeMap` and `BTreeSet` as ordered association lists and lists.
-- Nar: the entries of file manifests (snix-redox/src/nar.rs).
-- PathInfo: `PathInfoDb`, the metadata files by the hash part of their paths.
-- Store.Closure: `compute_closure`. Store.Roots: `GcRoots` and the live set. Store.Gc:
-- `garbage_collect` over a machine, the database together with the paths on disk.
-- Resolve: `parse_scheme_path`, `to_filesystem_path` and `list_store_paths`.
-- Stored: `StoreDaemon` of snix-redox/src/stored/mod.rs, with what it answers from manifests.
-- AllowList: `AllowList`, `clean_path` and `build_allow_list`.
-- Profile.Mapping: `ProfileMapping`, one profile in memory. Profile.Persistence: `ProfileStore`, all
-- profiles in memory and in the files under their directory. Profile.Handles: `HandleTable` of
-- snix-redox/src/profiled/handles.rs. Profile.Scheme: `ProfileDaemon::new` and the requests of
-- snix-redox/src/profiled/scheme.rs, which run over the store and the handle table; closing a control
-- handle carries out its command. Profile.Catalog and Profile.Refinement: the profiles as a table from
-- a profile and a package name to a store path, and the daemon's commands and restarts over it.
-- System: the generations of snix-redox/src/system.rs, their manifests (with the sections that are used
-- here) and directories. System.Selector: which generations to delete. System.Timestamps: their times.
-- System.Roots: the roots `gen-{id}-{name}`, which Store.Roots keeps. System.Deletion:
-- `delete_generations` and `system_gc`, which then runs Store.Gc.
-- Activation: `plan` of snix-redox/src/activate.rs over two manifests. Activation.Order: `topo_sort`.
-- Activation.Files: the checks on the paths and modes of managed files.
-- Flake: installables and lock files, by snix-redox/src/flake.rs.
-- GdbStub: Hex has the hexadecimal texts, Registers the register file (src/gdbstub/src/regs.rs),
-- Target the breakpoints and stop events, Packets the handler and the session loop.
--
-- An operation that changes state takes the state and returns it, with a `Result` where the source
-- has one; what a failure had changed before stays changed. An error keeps its kind and its
-- subject, not its wording. A profile whose name is no plain directory name, such as `..`, is
-- written outside the directories that a restart lists. Memory and disk agree where the profiles
-- directory holds directories only, under names that can be listed, and each is loaded as what
-- memory holds under its name. A store path can be a symbolic link, of which the machine says
-- where it leads. A map in memory is an ordered association list whether the source has a BTreeMap
-- or a HashMap, and a HashSet is the list of its elements.
--
-- Parameters stand for what is not in the repository: `digest` for the parser of store paths of
-- nix-compat, `known` for the derivations that snix knows, `exists` and `read_dir` for the file
-- system, `preload` for the worker thread that reads files, `parse` for the JSON reader of
-- commands, `entry` for the buffer of directory entries, `Proc` for the kernel's files of a
-- process. A file with JSON is what serde makes of it.
--
-- The time `now` is a parameter, and so is `binaries`, the count of the files in the directories
-- of packages. `closure_loop` is a search with fuel. Its bound, the root with all references of
-- all metadata files, is enough, because no reference is followed twice. `lower_hex` has fuel for
-- the 16 digits of a 64-bit number. `alloc_loop` has one round more than there are open handles,
-- and a round passes over at most one of them: this is enough while fewer handles are open than
-- there are ids. Where all are, the source loops for ever and the model answers none. Counters and
-- sizes wrap at 2 ^ 32 and 2 ^ 64 as in a release build. `to_decimal` has fuel for as many digits
-- as the number is large. `sort_loop` has as many rounds as there are names and one: a name enters
-- the queue when its last dependency goes. `resolve_follows` has its calls as fuel, for which no
-- bound is enough, since the source may never return.
--
-- Not modelled: the archives and their extraction, the requests of the stored daemon and of the
-- proxy, the loops around sockets, the switching of generations, the steps of an activation and
-- rebuilds, installation, caches and the network, evaluation, builds, and the command line, which
-- are input and output around libraries or wait for their turn; failures of the file system while
-- the directories of generations are read or removed, or roots are listed or added; the vendored
-- patches, which are other projects.
pub mod Base
pub mod Nar
pub mod PathInfo
pub mod Store
pub mod System
pub mod Activation
pub mod Flake
pub mod Stored
pub mod Resolve
pub mod AllowList
pub mod Profile
pub mod GdbStub
