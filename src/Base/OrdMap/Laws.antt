-- ===== src/Base/OrdMap/Laws.antt =====
-- The laws of ordered maps.
pub mod Lookup
pub mod Entries
pub mod Once
pub use build_graph.Base.OrdMap.Laws.Lookup.{
  lookup-insert, lookup-or_insert, lookup-retain, Above, IsSorted, Above-trans, lookup-Above,
  insert-IsSorted, or_insert-IsSorted, retain-IsSorted, eq_of_lookups,
}
pub use build_graph.Base.OrdMap.Laws.Entries.{
  All-insert, All-or_insert, All-retain, All-lookup, insert_all-IsSorted, All-insert_all,
  insert_all-values, insert-insert, insert-lookup, contains_key-or_insert, or_insert_present,
  All-contains_key, length-or_insert,
}
