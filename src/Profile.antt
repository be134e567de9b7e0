-- ===== src/Profile.antt =====
-- snix-redox/src/profiled/: the profile daemon, its mappings, their persistence, its handles and its
-- scheme. The clock, the file system and the JSON reader are parameters, or data that they are read into.
mod Examples
pub mod Handles
pub mod Catalog
pub mod Mapping
pub mod Persistence
pub mod Refinement
pub mod Scheme
