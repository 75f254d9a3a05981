-- ===== src/Compiler/Occurrence/Sound.antt =====
-- What an occurrence record that `validate` accepts is (src/compiler_occurrence.rs).
use mathlib.Core.List.{Memᴰ}
use mathlib.Core.List.Memᴰ
use build_graph.Base.{
  All-map, ltb, All, ℕ, ◌+◌, ◌≤◌, ◌≡◌, inl, inr, false, not, some, List, [], ◌∷◌, arith, nat_ord,
  text_ord, pair_ord, option_ord,
}
use build_graph.Base.Numbered.{IsUnique}
use build_graph.Base.Seen.{try_fold-IsSeen, IsSeen}
use build_graph.Base.OrdMap.Laws.Once.{try_fold-recorded}
use build_graph.Base.Results.{ok_or, ok, try_fold, >>=-eq-ok, reject_if-eq-ok, try_fold-All}
use build_graph.Compiler.Occurrence.{
  max_occurrence_bytes, max_source_total_bytes, ReferenceOccurrence, DefinitionOccurrence,
  OccurrenceInput, CompilerOccurrences, definition_ord, input_ord, root_ord, reference_ord,
}
use build_graph.Compiler.Occurrence.Validate.{
  is_bad_envelope, no_inventory, source_total, InputKey, add_occurrence, key_of, add_definition,
  Inventory, validate_occurrences,
}
use build_graph.Compiler.Sized.{fits_cap, Serialize}
use build_graph.Base.OrdMap.{values, lookup, OrdMap}
use build_graph.Compiler.Occurrence.Rows.{
  validate_definition-AreNames, add_occurrence-IsLinked, IsLinked, AreNames, add_definition-IsAdded,
  IsAdmitted,
}
use Prim.Native.String.{String}

-- The bytes of the buffers together
abbrev pub bytes_of : List OccurrenceInput → ℕ
bytes_of [] = 0
bytes_of (i ∷ is) = i.bytes + bytes_of is

-- What an accepted record of occurrences is
pub record IsObserved (o : CompilerOccurrences) : Type 0 where
  pub admitted : All (IsAdmitted o) o.definitions
  pub names : All AreNames o.definitions
  pub unique_definitions : IsUnique o.definitions
  pub linked : All (IsLinked o.definitions) o.references
  pub unique_references : IsUnique o.references
  pub buffers :
      (inputs : OrdMap InputKey OccurrenceInput) × ((d : DefinitionOccurrence)
        → Memᴰ d o.definitions
        → lookup (key_of d.input) inputs ≡ some d.input)
      × (bytes_of (values inputs) ≤ max_source_total_bytes)

source_total-eq :
    (n : ℕ) (is : List OccurrenceInput) (t : ℕ) → source_total n is ≡ some t → t ≡ n + bytes_of is
unfolding source_total
source_total-eq n [] t h = ground arith
source_total-eq n (i ∷ is) t h = ground (arith, source_total-eq (n + i.bytes) is t)

within_total :
    (is : List OccurrenceInput) (total : ℕ) (message : String)
    → ok_or (source_total 0 is) message ≡ ok total
    → ltb max_source_total_bytes total ≡ false
    → bytes_of is ≤ max_source_total_bytes
within_total is total message summed few = ground (arith, source_total-eq 0 is total)

known-mem :
    {seen definitions : List DefinitionOccurrence}
    → IsSeen [] definitions seen
    → (d : DefinitionOccurrence) → Memᴰ d seen
    → Memᴰ d definitions
known-mem s d m = elim ((s.known d).0 m) [
  | inl nowhere ↦ absurd (Memᴰ.not-nil nowhere)
  | inr there ↦ there
]

IsLinked-known :
    {seen definitions : List DefinitionOccurrence}
    → IsSeen [] definitions seen
    → (e : ReferenceOccurrence) → IsLinked seen e
    → IsLinked definitions e
IsLinked-known seen e l = record {
  from = known-mem seen e.source l.from;
  to = known-mem seen e.target l.to;
  relation = l.relation;
  buffer = l.buffer;
  valid_range = l.valid_range;
}

-- The tests that an accepted record has passed
record IsPassed (o : CompilerOccurrences) (v : Inventory) (refs : List ReferenceOccurrence)
    : Type 0 where
  inventory : try_fold (add_definition o) no_inventory o.definitions ≡ ok v
  within : bytes_of (values v.inputs) ≤ max_source_total_bytes
  references : try_fold (add_occurrence v.seen) [] o.references ≡ ok refs

validate_occurrences-IsPassed :
    ⦃s : Serialize CompilerOccurrences⦄ (o : CompilerOccurrences)
    → validate_occurrences o ≡ ok tt
    → (v : Inventory) × (refs : List ReferenceOccurrence) × IsPassed o v refs
unfolding validate_occurrences
validate_occurrences-IsPassed o h =
    let (_, h1) = reject_if-eq-ok (is_bad_envelope o) _ _ h in
    let (_, h2) = reject_if-eq-ok (not (fits_cap o max_occurrence_bytes)) _ _ h1 in
    let (v, inventory, h3) =
      >>=-eq-ok (try_fold (add_definition o) no_inventory o.definitions) _ h2 in
    let (total, summed, h4) =
      >>=-eq-ok (ok_or (source_total 0 (values v.inputs)) "source buffer budget exceeded") _ h3 in
    let (few, h5) = reject_if-eq-ok (ltb max_source_total_bytes total) _ _ h4 in
    let (refs, references, _) = >>=-eq-ok (try_fold (add_occurrence v.seen) [] o.references) _ h5 in
    (
      v,
      refs,
      record {
        inventory = inventory;
        within = within_total (values v.inputs) total _ summed few;
        references = references;
      },
    )

-- A record of occurrences that `validate` accepts has distinct definitions and distinct
-- references. Each definition is valid, in the package of the first one, carries the id that the
-- graph gives the same item and the key that the export gives it, and reports the gap of unknown
-- generator lineage when its file is a generated one. Each reference is a call or a use between two
-- of these definitions, read in the buffer of its source. Definitions in the same file agree on its
-- size and content, and the buffers together are at most 32 MiB.
pub validate_occurrences-IsObserved :
    ⦃s : Serialize CompilerOccurrences⦄ (o : CompilerOccurrences)
    → validate_occurrences o ≡ ok tt
    → IsObserved o
validate_occurrences-IsObserved o h =
    let (v, refs, passed) = validate_occurrences-IsPassed o h in
    let seen =
      try_fold-IsSeen (add_definition o) (λ v. v.seen)
        (λ v d v' h. (add_definition-IsAdded o v d v' h).seen) no_inventory o.definitions v
        passed.inventory in
    let admitted =
      try_fold-All (add_definition o) (IsAdmitted o)
        (λ v d v' h. (add_definition-IsAdded o v d v' h).admitted) no_inventory o.definitions v
        passed.inventory in
    let linked =
      try_fold-All (add_occurrence v.seen) (IsLinked v.seen)
        (λ refs e refs' h. (add_occurrence-IsLinked v.seen refs e refs' h).0) [] o.references refs
        passed.references in
    record {
      admitted = admitted;
      names = All-map (λ d a. validate_definition-AreNames d a.valid) o.definitions admitted;
      unique_definitions = seen.unique;
      linked = All-map (λ e. IsLinked-known seen e) o.references linked;
      unique_references =
          (try_fold-IsSeen (add_occurrence v.seen) (λ r. r)
            (λ refs e refs' h. (add_occurrence-IsLinked v.seen refs e refs' h).1) [] o.references
            refs passed.references).unique;
      buffers = (
        v.inputs,
        try_fold-recorded (add_definition o) (λ d. key_of d.input) (λ d. d.input) (λ v. v.inputs)
            (λ v d v' h. (add_definition-IsAdded o v d v' h).inputs) no_inventory o.definitions v
            passed.inventory,
        passed.within,
      );
    }
