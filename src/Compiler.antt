-- ===== src/Compiler.antt =====
-- What the observers of compiler runs record and what their readers accept: the size bounds, the
-- observations of one compiler session and of its test harness, the occurrences and the semantic
-- stream of one compilation, the records of invocations, and the control files of a callback.
pub mod Texts
pub mod Sized
pub mod Occurrence
pub mod Semantic
pub mod Invocation
pub mod Json
mod Examples
pub mod Context
pub mod Harness
