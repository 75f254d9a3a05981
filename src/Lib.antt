-- ===== src/Lib.antt =====
-- A verification library for build-graph, a tool that extracts the graph of a Rust workspace (crates,
-- files, items, and the relations between them) and answers bounded queries about it.
--
-- The parts and the files that model them:
--
--   src/graph.rs     The graph store. Graph/Ids has the node ids and `crate_of_id`; Graph/Model has
--                    nodes, edges and the document on disk; Graph/Ops has `struct Graph` and each of
--                    its methods under its name. A graph is a pair of ordered maps, as in the source:
--                    nodes by id, edges by (source, target, relation).
--   src/fragment.rs, src/merge.rs
--                    Merge: what one crate's build script writes, and `merge_fragments`, which builds
--                    a graph of such fragments with the store's operations.
--   src/query.rs     Query: the index over a document (Query/Index), the ranking (Query/Rank), and
--                    `find` (Query/Find), `refs` (Query/Resolve, Query/Gather, Query/Refs) and `context`
--                    (Query/Context), each over an index and over a document.
--   src/scip.rs      Scip/Rollup: the roll-up of references from members to their owners. The cache and
--                    the set of visited ids are passed through `enclosing_owners` explicitly.
--                    Scip/Ingest: `ingest`, from the documents of an index to `calls` and `uses` edges.
--                    Scip/Layer: `add_references_layer` from the point where the index is read.
--   src/export.rs    Export: the keys of definition identities, the status of a layer report, and the
--                    content fingerprint. A byte string is a list of numbers below 256; the u64 of the
--                    fingerprint wraps at 2 ^ 64.
--   src/cache.rs, src/main.rs
--                    Update: the cache of the run before, which crates are extracted again, and what is
--                    dropped of the old graph for them (`expand_dirty_namespaces`, `drop_crates`).
--   src/metadata.rs  Crates: `add_crate_layer`, from cargo's metadata to crate nodes and the dependencies
--                    between them; stripping the root off a path is a parameter.
--   src/report.rs    Report: the text of the plain-language report, and its counts.
--   src/qserve.rs    Serve: what the resident server answers to a request, before it is rendered.
--   src/compiler_semantic.rs, src/compiler_context.rs, src/compiler_test_harness.rs
--                    Compiler/Semantic: the pages and the stream of one compilation and their validators;
--                    Compiler/Context and Compiler/Harness: the observations of the session and the test
--                    harness that a stream may carry. `?` is the bind of Base/Results.
--   src/compiler_occurrence.rs
--                    Compiler/Occurrence: the occurrences of one compilation and their validator.
--   src/compiler_invocation.rs
--                    Compiler/Sized: the bounded measurement of a value's JSON. serde's serializer is a
--                    parameter, the pieces that a value gives the writer. Compiler/Json: JSON values and
--                    the check of their texts and paths. Compiler/Invocation: the records of compiler
--                    runs, of build scripts and of Cargo's launches, their validators, and the attachment
--                    that joins them with the occurrences and the semantic streams.
--   src/held_callback_control.rs
--                    Control: the limit that two control files share, and `read_body`, over a list of what
--                    the system does at each read.
--   src/output.rs    Output: the files that `write_graph_with_title` leaves in a directory, `find_graph` and
--                    `read_graph`. A directory is a map from names to bytes; a write happens whole or not at
--                    all, and the temporary file of `write_atomic` is not seen.
--   src/driver_refs.rs
--                    DriverRefs: the locator and `read_reference_edges`, over the names and the texts of the
--                    edge files. Lines are 64-bit integers of either sign.
--   src/depinfo.rs   Depinfo: `DepIndex::build` over the files of the `deps/` directories, and
--                    `add_crate_files`. The reading of a dep-info file and its fingerprint are left out.
--
-- Base holds what they share: tests, orders, lists, text, sorting, and BTreeMap as a sorted
-- association list (Base/OrdMap). HashMap is modelled by the same maps, since the code never reads
-- the order of one; a HashSet is a list of what was inserted.
--
-- Conventions. Text is a list of code points; `len()` of a string is its length in UTF-8. The full
-- Unicode lowercase mapping is data of the standard library and is an instance argument. A parser or
-- a program that the repository does not contain is a parameter. The fields confidence_score and
-- weight of an edge are only ever written as 1.0 and are counted in units of that 1.0. A `&mut self`
-- method returns the new value. An index of rust-analyzer and the metadata of cargo, whose types are
-- not in the repository, are records with the fields that the code reads.
--
-- Bounds and fuel. Every loop is recursion on the list it runs over, but for the following. The levels
-- of `refs` are counted down from the depth clamped to 1..5, as in the source. The digits of a number
-- n are produced in n + 1 rounds at most, and a round divides by ten.
-- `enclosing_owners` recurses on fuel: a call for an id that has owners visits one more of them, so
-- one call for each such id and one more are enough; `none` stands for running out of fuel only.
-- `read_body` recurses on the turns that the system takes; `none` stands for running out of turns.
-- Lines of an index are `i32` and those of the edge files `i64` (Base/Lines), of either sign; their
-- `+ 1` and `- 1` wrap around at the ends, as in a release build.
--
-- Not modelled: serialisation to JSON, the file system beyond the files of a directory, sockets,
-- processes (cargo, rustdoc, rust-analyzer, the rustc driver), the HTML viewer and the editor
-- integrations.
pub mod Base
pub mod Graph
pub mod Merge
pub mod Query
pub mod Scip
pub mod DriverRefs
pub mod Export
pub mod Update
pub mod Crates
pub mod Depinfo
pub mod Report
pub mod Serve
pub mod Compiler
pub mod Control
pub mod Output
