-- ===== src/Depinfo/Newest.antt =====
-- The index holds the newest file of each crate (src/depinfo.rs).
use build_graph.Base.{
  unwrap_or, eq_of_==, Option-cases, Bool-cases, ltb, ℕ, ◌≤◌, ◌≡◌, refl, sym, ap, ◌∙◌, subst, ◌⊎◌,
  inl, inr, false, Option, none, some, List, [], ◌∷◌, arith, Text, ◌==◌, nat_ord, text_ord,
  pair_ord, option_ord, if◌then◌else◌,
}
use build_graph.Base.OrdMap.{OrdMap, lookup, insert}
use build_graph.Base.OrdMap.Laws.{lookup-insert}
use build_graph.Depinfo.{Offer, offer, take_offers, forget_times, build_index, dir_offers, Entry}
use mathlib.Core.List.{Memᴰ}
use mathlib.Core.Option

abbrev Times : Type 0
Times = OrdMap Text (Text × ℕ)

-- The slot of `k` holds `found`, which is not older than `t`.
abbrev HasSince : ℕ → Text → Times → Type 0
HasSince t k m = (p : Text) × (u : ℕ) × (lookup k m ≡ some (p, u)) × (t ≤ u)

newer : Option (Text × ℕ) → Text × ℕ → Text × ℕ
newer none found = found
newer (some slot) found = if ltb slot.1 found.1 then found else slot

lookup-offer_same :
    (k : Text) (found : Text × ℕ) (m : Times)
    → lookup k (offer (k, found) m) ≡ some (newer (lookup k m) found)
unfolding offer newer
lookup-offer_same k (path, mtime) m =
    let inserted : lookup k (insert k (path, mtime) m) ≡ some (path, mtime) =
      ground (arith, lookup-insert k k (path, mtime) m, text_ord.same k) in
    elim (Option-cases (lookup k m)) [
      | inl e ↦ rw (e, offer, newer) inserted
      | inr (slot, e) ↦ elim (Bool-cases (ltb slot.1 mtime)) [
        | inl b ↦ rw (e, offer, newer, b) inserted
        | inr b ↦ rw (e, offer, newer, b) e
      ]
    ]

lookup-offer_other :
    (key k : Text) (found : Text × ℕ) (m : Times)
    → (key == k) ≡ false
    → lookup k (offer (key, found) m) ≡ lookup k m
unfolding offer
lookup-offer_other key k (path, mtime) m other =
    let inserted : lookup k (insert key (path, mtime) m) ≡ lookup k m =
      lookup-insert key k (path, mtime) m ∙ rw (other) refl in
    elim (Option-cases (lookup key m)) [
      | inl e ↦ rw (e, offer) inserted
      | inr (slot, e) ↦ elim (Bool-cases (ltb slot.1 mtime)) [
        | inl b ↦ rw (e, offer, b) inserted
        | inr b ↦ rw (e, offer, b) refl
      ]
    ]

newer-since :
    (t : ℕ) (old : Text × ℕ) (found : Text × ℕ) → t ≤ old.1 → t ≤ (newer (some old) found).1
unfolding newer
newer-since t old found le = elim (Bool-cases (ltb old.1 found.1)) [
  | inl b ↦ rw (b) (ground arith)
  | inr b ↦ rw (b) le
]

newer-found : (old : Option (Text × ℕ)) (found : Text × ℕ) → found.1 ≤ (newer old found).1
unfolding newer
newer-found none found = omega arith
newer-found (some slot) found = elim (Bool-cases (ltb slot.1 found.1)) [
  | inl b ↦ rw (b) (omega arith)
  | inr b ↦ rw (b) (ground arith)
]

offer-HasSince :
    (t : ℕ) (k : Text) (o : Offer) (m : Times) → HasSince t k m → HasSince t k (offer o m)
offer-HasSince t k (key, found) m (p, u, at, le) = elim (Bool-cases (key == k)) [
  | inr other ↦ (p, u, lookup-offer_other key k found m other ∙ at, le)
  | inl same ↦
      let f = newer (some (p, u)) found in
      (
        f.0,
        f.1,
        subst (λ x. lookup k (offer (x, found) m) ≡ some f) (sym (eq_of_== key k same))
            (lookup-offer_same k found m ∙ ap (λ x. some (newer x found)) at),
        newer-since t (p, u) found le,
      )
]

take_offers-keeps :
    (t : ℕ) (k : Text) (m : Times) (os : List Offer)
    → HasSince t k m
    → HasSince t k (take_offers m os)
unfolding take_offers
take_offers-keeps t k m [] h = h
take_offers-keeps t k m (o ∷ os) h = take_offers-keeps t k (offer o m) os (offer-HasSince t k o m h)

take_offers-HasSince :
    (k p : Text) (t : ℕ) (m : Times) (os : List Offer)
    → Memᴰ (k, (p, t)) os
    → HasSince t k (take_offers m os)
unfolding take_offers
take_offers-HasSince k p t m [] none_there = elim none_there [ ]
take_offers-HasSince k p t m (o ∷ os) (Memᴰ.head e) =
    let f = newer (lookup k m) (p, t) in
    take_offers-keeps t k (offer o m) os (
      f.0,
      f.1,
      subst (λ x. lookup k (offer x m) ≡ some f) e (lookup-offer_same k (p, t) m),
      newer-found (lookup k m) (p, t),
    )
take_offers-HasSince k p t m (o ∷ os) (Memᴰ.tail n) = take_offers-HasSince k p t (offer o m) os n

newer-either :
    (old : Option (Text × ℕ)) (found : Text × ℕ)
    → (newer old found ≡ found) ⊎ (old ≡ some (newer old found))
unfolding newer
newer-either none found = inl refl
newer-either (some slot) found = elim (Bool-cases (ltb slot.1 found.1)) [
  | inl b ↦ inl (rw (b) refl)
  | inr b ↦ inr (rw (b) refl)
]

same_offer :
    (key k : Text) (found f : Text × ℕ) → key ≡ k → f ≡ found → ◌≡◌ {A = Offer} (k, f) (key, found)
same_offer key k found f at_k e =
    subst (λ x. ◌≡◌ {A = Offer} (k, f) (x, found)) (sym at_k)
      (subst (λ x. ◌≡◌ {A = Offer} (k, f) (k, x)) e refl)

take_offers-origin :
    (k : Text) (f : Text × ℕ) (m : Times) (os : List Offer)
    → lookup k (take_offers m os) ≡ some f
    → (lookup k m ≡ some f) ⊎ Memᴰ (k, f) os
unfolding take_offers
take_offers-origin k f m [] h = inl h
take_offers-origin k f m ((key, found) ∷ os) h =
    elim (take_offers-origin k f (offer (key, found) m) os h) [
      | inr later ↦ inr (Memᴰ.tail later)
      | inl now ↦ elim (Bool-cases (key == k)) [
        | inr other ↦ inl (sym (lookup-offer_other key k found m other) ∙ now)
        | inl same ↦
            let at_k : key ≡ k = eq_of_== key k same in
            let at : lookup k (offer (key, found) m) ≡ some (newer (lookup k m) found) =
              subst (λ x. lookup k (offer (x, found) m) ≡ some (newer (lookup k m) found))
                (sym at_k) (lookup-offer_same k found m) in
            elim (newer-either (lookup k m) found) [
              | inl new ↦ inr (
                  Memᴰ.head (
                    same_offer key k found f at_k
                      (ap (λ x. unwrap_or x found) (sym now ∙ at ∙ ap some new))))
              | inr old ↦ inl (old ∙ sym at ∙ now)
            ]
      ]
    ]

lookup-forget_times :
    (k : Text) (m : Times)
    → lookup k (forget_times m) ≡ Option.map (λ (f : Text × ℕ). f.0) (lookup k m)
unfolding lookup
lookup-forget_times k [] = refl
lookup-forget_times k ((key, f) ∷ m) = elim (Bool-cases (key == k)) [
  | inl same ↦ rw (same) refl
  | inr other ↦ rw (other) (lookup-forget_times k m)
]

from_offers :
    (k : Text) (f : Text × ℕ) (os : List Offer)
    → lookup k (take_offers [] os) ≡ some f
    → Memᴰ (k, f) os
unfolding lookup
from_offers k f os h = elim (take_offers-origin k f [] os h) [
  | inl nothing ↦ absurd (cc nothing)
  | inr m ↦ m
]

time_of : Option (Text × ℕ) → ℕ
time_of none = 0
time_of (some f) = f.1

newest_le :
    (v : ℕ) (p : Text) (t : ℕ) (p' : Text) (t' : ℕ) (slot : Option (Text × ℕ))
    → slot ≡ some (p, t)
    → slot ≡ some (p', t')
    → v ≤ t'
    → v ≤ t
unfolding time_of
newest_le v p t p' t' slot a b le = subst (λ n. v ≤ n) (ap time_of (sym b ∙ a)) le

-- A crate name under which some dep-info file is offered is in the index, with the path of a file
-- that is offered under that name and that is no older than any other file offered under it.
pub build_index-newest :
    (dirs : List (Option (List Entry))) (k q : Text) (u : ℕ)
    → Memᴰ (k, (q, u)) (dir_offers dirs)
    → (p : Text) × (t : ℕ) × (lookup k (build_index dirs) ≡ some p)
      × Memᴰ (k, (p, t)) (dir_offers dirs)
      × ((r : Text) (v : ℕ) → Memᴰ (k, (r, v)) (dir_offers dirs) → v ≤ t)
unfolding build_index
build_index-newest dirs k q u offered =
    let os = dir_offers dirs in
    let (p, t, at, le) = take_offers-HasSince k q u [] os offered in
    (
      p,
      t,
      lookup-forget_times k (take_offers [] os) ∙ ap (λ x. Option.map (λ (f : Text × ℕ). f.0) x) at,
      from_offers k (p, t) os at,
      λ r v m.
          let (p', t', at', le') = take_offers-HasSince k r v [] os m in
          newest_le v p t p' t' (lookup k (take_offers [] os)) at at' le',
    )
