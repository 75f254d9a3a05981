-- ===== src/Compiler/Occurrence/Rows.antt =====
-- What the rows of an accepted occurrence record are (src/compiler_occurrence.rs), and how their
-- definitions are named elsewhere (src/graph.rs, src/export.rs).
use mathlib.Core.List.{Memᴰ}
use build_graph.Base.{
  or-right, mem_of_any, Bool-cases, Ord, is_some_and, eq_of_==, or-false, not-false, head?, any,
  ◌≡◌, refl, ap, ◌∙◌, subst, ◌⊎◌, inl, inr, true, false, not, ◌&&◌, ◌||◌, some, List, ◌∷◌, arith,
  Text, txt, ◌==◌, nat_ord, text_ord, pair_ord, option_ord,
}
use build_graph.Base.OrdMap.Laws.Once.{conflicts}
use build_graph.Base.Results.{ok, >>-eq-ok, reject_if-eq-ok, ok_inj}
use build_graph.Compiler.Occurrence.{
  ReferenceOccurrence, target_root, DefinitionOccurrence, CompilerOccurrences, definition_ord,
  input_ord, root_ord, reference_ord,
}
use build_graph.Compiler.Occurrence.Validate.{
  definition_key, legacy_id, label, is_bad_definition, is_bad_reference, validate_range,
  add_occurrence, is_lineage_gap, key_of, add_definition, Inventory, validate_definition,
}
use build_graph.Graph.Ids.{norm, item_id}
use build_graph.Export.{hex, key}
use build_graph.Base.OrdMap.{insert}

-- A definition that may stand in `o`: it is valid, in the package of the first one, and a
-- generated buffer is accounted for.
pub record IsAdmitted (o : CompilerOccurrences) (d : DefinitionOccurrence) : Type 0 where
  pub valid : validate_definition d ≡ ok tt
  pub package_known :
      (f : DefinitionOccurrence) → head? o.definitions ≡ some f → f.package_name ≡ d.package_name
  pub lineage : d.input.root ≡ target_root → any is_lineage_gap o.gaps ≡ true

-- One round of the loop over the definitions
pub record IsAdded (o : CompilerOccurrences) (v : Inventory) (d : DefinitionOccurrence)
    (v' : Inventory) : Type 0 where
  pub admitted : IsAdmitted o d
  pub seen : (any (λ e. e == d) v.seen ≡ false) × (v'.seen ≡ d ∷ v.seen)
  pub inputs :
      (conflicts (key_of d.input) d.input v.inputs ≡ false)
      × (v'.inputs ≡ insert (key_of d.input) d.input v.inputs)

pub add_definition-IsAdded :
    (o : CompilerOccurrences) (v : Inventory) (d : DefinitionOccurrence) (v' : Inventory)
    → add_definition o v d ≡ ok v'
    → IsAdded o v d v'
unfolding add_definition
add_definition-IsAdded o v d v' h =
    let (valid, h1) = >>-eq-ok (validate_definition d) _ h in
    let (same, h2) =
      reject_if-eq-ok
        (is_some_and (head? o.definitions) (λ f. not (f.package_name == d.package_name))) _ _ h1 in
    let (new, h3) = reject_if-eq-ok (any (λ e. e == d) v.seen) _ _ h2 in
    let (fine, h4) = reject_if-eq-ok (conflicts (key_of d.input) d.input v.inputs) _ _ h3 in
    let (known, h5) =
      reject_if-eq-ok (d.input.root == target_root && not (any is_lineage_gap o.gaps)) _ _ h4 in
    let end = ok_inj _ h5 refl in
    record {
      admitted = record {
        valid = valid;
        package_known = λ f e. eq_of_== f.package_name d.package_name (ground (arith, e, same));
        lineage = λ e. ground (arith, rw e at known);
      };
      seen = (new, ap (λ w. w.seen) end);
      inputs = (fine, ap (λ w. w.inputs) end);
    }

-- A reference of `o`: it links two of its definitions, and stands in the source's buffer.
pub record IsLinked (definitions : List DefinitionOccurrence) (e : ReferenceOccurrence)
    : Type 0 where
  pub from : Memᴰ e.source definitions
  pub to : Memᴰ e.target definitions
  pub relation : (e.relation ≡ txt "calls") ⊎ (e.relation ≡ txt "uses")
  pub buffer : e.input ≡ e.source.input
  pub valid_range : validate_range e.range ≡ ok tt

mem_of_test :
    {K : Type 0} ⦃o : Ord K⦄ (x : K) (xs : List K) → any (λ d. d == x) xs ≡ true → Memᴰ x xs
mem_of_test x xs h =
    let (d, there, same) = mem_of_any (λ d. d == x) xs h in
    subst (λ y. Memᴰ y xs) (eq_of_== d x same) there

calls_or_uses :
    (r : Text)
    → not (r == txt "calls" || r == txt "uses") ≡ false
    → (r ≡ txt "calls") ⊎ (r ≡ txt "uses")
calls_or_uses r h = elim (Bool-cases (r == txt "calls")) [
  | inl calls ↦ inl (eq_of_== r (txt "calls") calls)
  | inr other ↦
      let either = not-false (r == txt "calls" || r == txt "uses") h in
      inr (eq_of_== r (txt "uses") (or-right (r == txt "calls") (r == txt "uses") other either))
]

pub add_occurrence-IsLinked :
    (definitions : List DefinitionOccurrence) (refs : List ReferenceOccurrence)
    (e : ReferenceOccurrence) (refs' : List ReferenceOccurrence)
    → add_occurrence definitions refs e ≡ ok refs'
    → IsLinked definitions e × ((any (λ r. r == e) refs ≡ false) × (refs' ≡ e ∷ refs))
unfolding add_occurrence
add_occurrence-IsLinked definitions refs e refs' h =
    let (good, h1) = reject_if-eq-ok (is_bad_reference definitions refs e) _ _ h in
    let (range, h2) = >>-eq-ok (validate_range e.range) _ h1 in
    let (from, r1) = or-false (not (any (λ d. d == e.source) definitions)) _ good in
    let (to, r2) = or-false (not (any (λ d. d == e.target) definitions)) _ r1 in
    let (new, r3) = or-false (any (λ r. r == e) refs) _ r2 in
    let (relation, r4) =
      or-false (not (e.relation == txt "calls" || e.relation == txt "uses")) _ r3 in
    let (_, r5) = or-false (not (e.confidence == txt "EXTRACTED")) _ r4 in
    let (_, r6) = or-false (not (e.confidence_score == 1)) _ r5 in
    let (_, buffer) = or-false (not (e.weight == 1)) _ r6 in
    (
      record {
        from = mem_of_test e.source definitions (not-false _ from);
        to = mem_of_test e.target definitions (not-false _ to);
        relation = calls_or_uses e.relation relation;
        buffer = eq_of_== e.input e.source.input (not-false _ buffer);
        valid_range = range;
      },
      (new, ok_inj _ h2 refl),
    )

-- The names of a valid definition are those of the graph and of the export.
pub record AreNames (d : DefinitionOccurrence) : Type 0 where
  pub node : d.legacy_id ≡ item_id d.package_name d.def_path d.kind
  pub identity :
      d.definition_key
      ≡ key (record { package_name = d.package_name; def_path = d.def_path; kind = d.kind })

legacy_id-eq-item_id :
    (d : DefinitionOccurrence)
    → legacy_id d.package_name d.def_path d.kind ≡ item_id d.package_name d.def_path d.kind
unfolding legacy_id item_id norm
legacy_id-eq-item_id d = refl

definition_key-eq-key :
    (d : DefinitionOccurrence)
    → definition_key d.package_name d.def_path d.kind
      ≡ key (record { package_name = d.package_name; def_path = d.def_path; kind = d.kind })
unfolding definition_key key hex
definition_key-eq-key d = refl

pub validate_definition-AreNames :
    (d : DefinitionOccurrence) → validate_definition d ≡ ok tt → AreNames d
unfolding validate_definition
validate_definition-AreNames d h =
    let (good, _) = reject_if-eq-ok (is_bad_definition d) _ _ h in
    let (_, r1) = or-false (not (label d.package_name)) _ good in
    let (_, r2) = or-false (not (label d.def_path)) _ r1 in
    let (_, r3) = or-false (not (label d.kind)) _ r2 in
    let (named, r4) =
      or-false (not (d.definition_key == definition_key d.package_name d.def_path d.kind)) _ r3 in
    let (known, _) =
      or-false (not (d.legacy_id == legacy_id d.package_name d.def_path d.kind)) _ r4 in
    record {
      node = eq_of_== _ _ (not-false _ known) ∙ legacy_id-eq-item_id d;
      identity = eq_of_== _ _ (not-false _ named) ∙ definition_key-eq-key d;
    }
