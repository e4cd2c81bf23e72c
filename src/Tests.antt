-- ===== src/Tests.antt =====
-- Runs of the definitions and of the theorems on concrete inputs. The sketch of the tests keeps the
-- hashes themselves; a hash of a text is its length.
pub mod Exact
pub mod Samples
pub mod Streams
pub mod Dedups
pub mod Snapshots
pub mod Exports
pub mod Parsers
pub mod Reloads
pub mod Servers
pub mod Scrapes
pub mod Races
pub mod Starts
