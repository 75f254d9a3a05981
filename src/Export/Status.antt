-- ===== src/Export/Status.antt =====
-- The status of a layer says what its packages' outcomes are (src/export.rs).
use build_graph.Base.{
  all, All, ◌≡◌, refl, ◌≢◌, ◌↔◌, true, false, List, [], ◌∷◌, arith, nat_ord, text_ord, pair_ord,
  option_ord,
}
use build_graph.Export.{
  Layer, is_skipped, is_complete, from_packages, PackageReport, ExtractionStatus,
}

abbrev pub AllOf : ExtractionStatus → List PackageReport → Type 0
AllOf status = All (λ p. p.status ≡ status)

is_complete-eq : (s : ExtractionStatus) → is_complete s ≡ true → s ≡ ExtractionStatus.complete
is_complete-eq ExtractionStatus.complete h = refl
is_complete-eq ExtractionStatus.skipped h = ground arith
is_complete-eq ExtractionStatus.partial h = ground arith

is_skipped-eq : (s : ExtractionStatus) → is_skipped s ≡ true → s ≡ ExtractionStatus.skipped
is_skipped-eq ExtractionStatus.complete h = ground arith
is_skipped-eq ExtractionStatus.skipped h = refl
is_skipped-eq ExtractionStatus.partial h = ground arith

all-is_complete :
    (ps : List PackageReport)
    → (all (λ p. is_complete p.status) ps ≡ true) ↔ AllOf ExtractionStatus.complete ps
all-is_complete [] = (λ h. tt, λ h. refl)
all-is_complete (p ∷ ps) =
    let rest = all-is_complete ps in
    (λ h. (is_complete-eq p.status (ground arith), rest.0 (ground arith)), λ a. rw a.0 (rest.1 a.1))

all-is_skipped :
    (ps : List PackageReport)
    → (all (λ p. is_skipped p.status) ps ≡ true) ↔ AllOf ExtractionStatus.skipped ps
all-is_skipped [] = (λ h. tt, λ h. refl)
all-is_skipped (p ∷ ps) =
    let rest = all-is_skipped ps in
    (λ h. (is_skipped-eq p.status (ground arith), rest.0 (ground arith)), λ a. rw a.0 (rest.1 a.1))

skipped_first : (p : PackageReport) → is_skipped p.status ≡ true → is_complete p.status ≡ false
skipped_first p h = rw (is_skipped-eq p.status h) refl

-- A layer is reported as skipped exactly when every package was skipped, also when there is none, and
-- as complete exactly when there is a package and every one is complete.
pub from_packages_status :
    (layer : Layer) (packages : List PackageReport)
    → (((from_packages layer packages).status ≡ ExtractionStatus.skipped)
        ↔ AllOf ExtractionStatus.skipped packages)
      × (((from_packages layer packages).status ≡ ExtractionStatus.complete)
          ↔ ((packages ≢ []) × AllOf ExtractionStatus.complete packages))
unfolding from_packages
from_packages_status layer [] = ((λ h. tt, λ a. refl), (λ h. ground arith, λ a. absurd (a.0 refl)))
from_packages_status layer (p ∷ ps) =
    let skips = all-is_skipped (p ∷ ps) in
    let completes = all-is_complete (p ∷ ps) in
    (
      (λ h. skips.0 (ground arith), λ a. ground (arith, skips.1 a)),
      (
        λ h. (λ e. ground arith, completes.0 (ground arith)),
        λ a. ground (arith, completes.1 a.1, skipped_first p),
      ),
    )
