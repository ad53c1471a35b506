-- ===== src/Lib.antt =====
-- A model of the Hakutaku asset package format and of the state behind its runtime, with proofs.
--
-- Parts of the program, and the modules that model them:
--   crates/core/src/error.rs    Wire/Errors    `Error`, `Result`, and `?` as a do block
--   crates/core/src/format.rs   Wire/Buffers   byte readers and writers, little-endian words
--                               Format         headers, records and pages, a module for each
--   crates/core/src/cache.rs    Cache          `ClockCache`
--   crates/core/src/format.rs   Paths          `validate_canonical_path`
--                               Catalog        `Catalog`: `parse` and its checks, the accessors
--                               CatalogData    `CatalogData::encode`
--                               Utf8           `str::from_utf8`, as these read paths with it
--   crates/pack/src/packer.rs   PathIndex      `build_path_slots`, and `Catalog::find_file` of
--                                              crates/core/src/format.rs, which reads its table
--   crates/core/src/crypto.rs   Crypto         nonces, authenticated data, derived keys, signatures
--   crates/core/src/package.rs  Probation      `second_normal_access`
--   crates/pack/src/build_cache.rs  BuildCache  the file of known chunks: `parse`, `save`, `get`
--   crates/pack/src/source.rs    Source         `classify`
--   crates/pack/src/planner.rs   Planner        `plan_directory`, `plan_directory_after_pack`
--   crates/pack/src/error.rs     PackErrors     `Error`, and `?` as a do block
-- A function keeps its name from the source. A record's `parse` is `parse` of the record's module,
-- split at its `checked_slice`; `encode` and `encode_into` list the same writes in the same order.
--
-- Byte slices are lists of numbers, and a number that Rust bounds by its type is bounded by a
-- hypothesis (`IsValid`, `IsByte`). A `usize` has 64 bits. Hash maps are association lists. The
-- bounded loops recur on the rounds left; the loop of `insert` that makes room has one round more
-- than there are slots, and each of its rounds empties one. A probe of the path index goes once
-- round the table, as in the code; the comparison of two files has a round for each byte that is left,
-- and each of its rounds compares at least one. The BLAKE3 hashes and the test of an Ed25519 signature
-- are parameters, and so are the bytes that the readers of the planner yield.
--
-- Not modelled: file-system access, AES-GCM, BLAKE3, Ed25519 and Zstandard (third-party code), the
-- read path of the package reader behind the catalog, the writing of segments, key files, the command
-- line and the graphical interface.
pub mod Prelude
pub mod Wire
pub mod Format
pub mod Cache
pub mod Utf8
pub mod Paths
pub mod PathIndex
pub mod Catalog
pub mod Crypto
pub mod BuildCache
pub mod PackErrors
pub mod Source
pub mod Planner
pub mod CatalogData
pub mod Probation
