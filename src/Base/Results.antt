-- ===== src/Base/Results.antt =====
-- Rust's `Result`, `?` as a bind, and the shape `if test { return Err(e); }`.
use Prim.Native.String.{String}
use mathlib.Core.Path.{◌≡◌, refl, subst, sym, ap}
use mathlib.Core.Logic.{◌⊎◌, inl, inr}
use mathlib.Core.Bool.{Bool, true, false}
use mathlib.Core.Option.{Option, none, some}
use mathlib.Core.List.{List, [], ◌∷◌, ◌++◌, append-nil, append_assoc}
use build_graph.Base.Lists.{All}

pub data Result {ℓ κ} (A : Type ℓ) (E : Type κ) : Type (ℓ ⊔ κ) where
  ok : A → Result A E
  err : E → Result A E

-- The result of a check: nothing, or the message of the error.
abbrev pub Checked : Type 0
Checked = Result (Unit {0}) String

infixl 5 ◌>>=◌ ◌>>◌
abbrev pub ◌>>=◌ {ℓ κ μ} :
    {A : Type ℓ} {B : Type κ} {E : Type μ} → Result A E → (A → Result B E) → Result B E
ok value >>= next = next value
err problem >>= next = err problem

abbrev pub ◌>>◌ {κ μ} : {B : Type κ} {E : Type μ} → Result (Unit {0}) E → Result B E → Result B E
first >> rest = first >>= λ done. rest

-- `if test { return Err(e); }`
abbrev pub reject_if {κ} : {E : Type κ} → Bool → E → Result (Unit {0}) E
reject_if true e = err e
reject_if false e = ok tt

-- `.ok_or(e)?`
abbrev pub ok_or {ℓ κ} : {A : Type ℓ} {E : Type κ} → Option A → E → Result A E
ok_or none e = err e
ok_or (some a) e = ok a

-- `.map_err(|_| e)?`
abbrev pub with_error {ℓ κ μ} : {A : Type ℓ} {E : Type κ} {F : Type μ} → F → Result A E → Result A F
with_error e (ok a) = ok a
with_error e (err _) = err e

abbrev pub is_ok {ℓ κ} : {A : Type ℓ} {E : Type κ} → Result A E → Bool
is_ok (ok a) = true
is_ok (err e) = false

-- `for x in xs { f(x)?; }`
abbrev pub try_each {ℓ κ} :
    {A : Type ℓ} {E : Type κ} → (A → Result (Unit {0}) E) → List A → Result (Unit {0}) E
try_each f [] = ok tt
try_each f (x ∷ xs) = f x >> try_each f xs

pub ok_inj {ℓ κ} :
    {A : Type ℓ} {E : Type κ} (r : Result A E) {a b : A} → r ≡ ok a → r ≡ ok b → a ≡ b
ok_inj r h k = cc

pub Result-cases {ℓ κ} :
    {A : Type ℓ} {E : Type κ} (r : Result A E) → ((a : A) × (r ≡ ok a)) ⊎ ((e : E) × (r ≡ err e))
Result-cases (ok a) = inl (a, refl)
Result-cases (err e) = inr (e, refl)

-- `for x in xs { s = f(s, x)?; }`
abbrev pub try_fold {ℓ κ μ} :
    {A : Type ℓ} {S : Type κ} {E : Type μ} → (S → A → Result S E) → S → List A → Result S E
try_fold f s [] = ok s
try_fold f s (x ∷ xs) = f s x >>= λ s'. try_fold f s' xs

module _ {ℓ κ μ} {A : Type ℓ} {B : Type κ} {E : Type μ} where
  -- A chain that succeeds has succeeded in each of its steps.
  pub >>=-eq-ok :
      (first : Result A E) (next : A → Result B E) {b : B}
      → (first >>= next) ≡ ok b
      → (value : A) × (first ≡ ok value) × (next value ≡ ok b)
  >>=-eq-ok (ok value) next done = (value, refl, done)
  >>=-eq-ok (err problem) next done = cc

module _ {κ μ} {B : Type κ} {E : Type μ} where
  pub >>-eq-ok :
      (m : Result (Unit {0}) E) (k : Result B E) {b : B}
      → (m >> k) ≡ ok b
      → (m ≡ ok tt) × (k ≡ ok b)
  >>-eq-ok (ok tt) k h = (refl, h)
  >>-eq-ok (err e) k h = cc

  -- A test that lets a chain go on was false.
  pub reject_if-eq-ok :
      (test : Bool) (e : E) (k : Result B E) {b : B}
      → (reject_if test e >> k) ≡ ok b
      → (test ≡ false) × (k ≡ ok b)
  reject_if-eq-ok true e k h = cc
  reject_if-eq-ok false e k h = (refl, h)

-- The same for a test that ends its chain
pub last_reject_if-eq-ok {κ} :
    {E : Type κ} (test : Bool) (e : E) → reject_if test e ≡ ok tt → test ≡ false
last_reject_if-eq-ok true e h = cc
last_reject_if-eq-ok false e h = refl

pub try_each-eq-ok {ℓ κ} :
    {A : Type ℓ} {E : Type κ} (f : A → Result (Unit {0}) E) (xs : List A)
    → try_each f xs ≡ ok tt
    → All (λ x. f x ≡ ok tt) xs
try_each-eq-ok f [] h = tt
try_each-eq-ok f (x ∷ xs) h =
    let (here, rest) = >>-eq-ok (f x) (try_each f xs) h in (here, try_each-eq-ok f xs rest)

-- What every step keeps, of the items done so far and the state, holds at the end of a loop that
-- runs through.
module _ {ℓ κ μ ν} {A : Type ℓ} {S : Type κ} {E : Type μ} (f : S → A → Result S E)
    (P : List A → S → Type ν)
    (step : (done : List A) (s : S) (x : A) (s' : S)
      → f s x ≡ ok s'
      → P done s
      → P (done ++ (x ∷ [])) s') where
  pub try_fold-keeps :
      (done xs : List A) (s s' : S) → try_fold f s xs ≡ ok s' → P done s → P (done ++ xs) s'
  try_fold-keeps done [] s s' h p =
      subst (λ l. P l s') (sym (append-nil done)) (subst (P done) (ok_inj (ok s) refl h) p)
  try_fold-keeps done (x ∷ xs) s s' h p =
      let (t, here, rest) = >>=-eq-ok (f s x) (λ s'. try_fold f s' xs) h in
      subst (λ l. P l s') (append_assoc done (x ∷ []) xs)
        (try_fold-keeps (done ++ (x ∷ [])) xs t s' rest (step done s x t here p))

pub try_fold-append {ℓ κ μ} :
    {A : Type ℓ} {S : Type κ} {E : Type μ} (f : S → A → Result S E) (xs ys : List A) (s t u : S)
    → try_fold f s xs ≡ ok t
    → try_fold f t ys ≡ ok u
    → try_fold f s (xs ++ ys) ≡ ok u
try_fold-append f [] ys s t u h k =
    subst (λ m. try_fold f m ys ≡ ok u) (sym (ok_inj (ok s) refl h)) k
try_fold-append f (x ∷ xs) ys s t u h k =
    let (m, here, rest) = >>=-eq-ok (f s x) (λ s'. try_fold f s' xs) h in
    rw here (try_fold-append f xs ys m t u rest k)

-- What every step of a loop asks of its item holds of all items.
module _ {ℓ κ μ ν} {A : Type ℓ} {S : Type κ} {E : Type μ} (f : S → A → Result S E) (P : A → Type ν)
    (step : (s : S) (x : A) (s' : S) → f s x ≡ ok s' → P x) where
  pub try_fold-All : (s : S) (xs : List A) (s' : S) → try_fold f s xs ≡ ok s' → All P xs
  try_fold-All s [] s' h = tt
  try_fold-All s (x ∷ xs) s' h =
      let (t, here, rest) = >>=-eq-ok (f s x) (λ s'. try_fold f s' xs) h in
      (step s x t here, try_fold-All t xs s' rest)

pub ok_or-some {ℓ κ} :
    {A : Type ℓ} {E : Type κ} (o : Option A) (e : E) {a : A} → ok_or o e ≡ ok a → o ≡ some a
ok_or-some none e h = cc
ok_or-some (some a) e h = ap some (ok_inj (ok a) refl h)
