-- ===== src/Store.antt =====
-- snix-redox/src/store.rs: closures of store paths, GC roots and the garbage collector.
-- `digest` stands for the parser of store paths of nix-compat, as in PathInfo.
pub mod Examples
pub mod Closure
pub mod Roots
pub mod Gc
