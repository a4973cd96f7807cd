-- ===== src/Redaction/Secrecy.antt =====
-- What a view does not depend on.
use Prim.Native.Nat.{Ordering}
use ironstate.Prelude.{
  ◌≡◌, ◌≢◌, refl, sym, ◌∙◌, ap, inl, inr, true, false, [], ◌∷◌, Option, none, some, Bool-cases,
}
use ironstate.Redaction.{
  Order, Conceal, PerPrincipal, Owned, get, insert, update, redact_entries, redact_for,
  redact_owned,
}
use ironstate.Redaction.Views.{IsOrder}

module _ {P T : Type 0} (c : Conceal T) (order : Order P) (viewer : P) where
  -- The same keys, the same residues, and the same values where the key is the viewer's.
  abbrev pub AreAlike : PerPrincipal P T → PerPrincipal P T → Type 0
  AreAlike [] [] = Unit
  AreAlike ((j, x) ∷ m) ((k, y) ∷ n) =
      (j ≡ k) × (order.eq j viewer ≡ true → x ≡ y) × (c.conceal x ≡ c.conceal y) × AreAlike m n
  AreAlike _ _ = ⊥

  redact_entries-AreAlike :
      (m n : PerPrincipal P T) (own : Option T) (others : PerPrincipal P c.Concealed)
      → AreAlike m n
      → redact_entries c order viewer m own others ≡ redact_entries c order viewer n own others
  unfolding redact_entries
  redact_entries-AreAlike [] [] own others h = refl
  redact_entries-AreAlike [] (y ∷ n) own others h = absurd h
  redact_entries-AreAlike (x ∷ m) [] own others h = absurd h
  redact_entries-AreAlike ((j, x) ∷ m) ((k, y) ∷ n) own others (same, value, residue, rest) =
      elim (Bool-cases (order.eq j viewer)) [
        | inl own_key ↦
            let also : order.eq k viewer ≡ true =
              ap (λ i. order.eq i viewer) (sym same) ∙ own_key in
            rw (own_key, redact_entries)
              (rw (also, redact_entries)
                (rw (value own_key) (redact_entries-AreAlike m n (some y) others rest)))
        | inr other ↦
            let also : order.eq k viewer ≡ false = ap (λ i. order.eq i viewer) (sym same) ∙ other in
            rw (other, redact_entries)
              (rw (also, redact_entries)
                (rw (residue, same)
                  (redact_entries-AreAlike m n own (insert order k (c.conceal y) others) rest)))
      ]

  alike_self : (m : PerPrincipal P T) → AreAlike m m
  alike_self [] = tt
  alike_self ((k, x) ∷ m) = (refl, λ e. refl, refl, alike_self m)

  update-AreAlike :
      IsOrder order
      → (f : T → T) (principal : P) → principal ≢ viewer
      → (m : PerPrincipal P T)
      → ((x : T) → get order m principal ≡ some x → c.conceal (f x) ≡ c.conceal x)
      → AreAlike (update order f m principal) m
  unfolding update get
  update-AreAlike lawful f principal other [] keeps = tt
  update-AreAlike lawful f principal other ((k, x) ∷ m) keeps =
      by_order (update-AreAlike lawful f principal other m) (order.cmp principal k) refl
    where
      by_order :
          (((y : T) → get order m principal ≡ some y → c.conceal (f y) ≡ c.conceal y)
            → AreAlike (update order f m principal) m)
          → (o : Ordering) → order.cmp principal k ≡ o
          → AreAlike (update order f ((k, x) ∷ m) principal) ((k, x) ∷ m)
      by_order later Ordering.lt h = rw (h, update) (alike_self ((k, x) ∷ m))
      by_order later Ordering.eq h =
          rw (h, update)
            (
              refl,
              λ e. absurd (other (lawful.cmp_eq principal k h ∙ (lawful.eq_iff k viewer).0 e)),
              keeps x (rw (h, get) refl),
              alike_self m,
            )
      by_order later Ordering.gt h =
          rw (h, update) (refl, λ e. refl, refl, later (λ y found. keeps y (rw (h, get) found)))

  -- Under a lawful order, a write to the value of another principal that keeps its residue does
  -- not show in the view of the viewer.
  pub redact_for-update :
      IsOrder order
      → (f : T → T) (principal : P) → principal ≢ viewer
      → (m : PerPrincipal P T)
      → ((x : T) → get order m principal ≡ some x → c.conceal (f x) ≡ c.conceal x)
      → redact_for c order viewer (update order f m principal) ≡ redact_for c order viewer m
  unfolding redact_for
  redact_for-update lawful f principal other m keeps =
      redact_entries-AreAlike (update order f m principal) m none []
        (update-AreAlike lawful f principal other m keeps)

  -- Two owned values with one owner and one residue show the same to everyone but the owner.
  pub redact_owned-secret :
      (x y : Owned P T)
      → x.owner ≡ y.owner
      → order.eq x.owner viewer ≡ false
      → c.conceal x.value ≡ c.conceal y.value
      → redact_owned c order x viewer ≡ redact_owned c order y viewer
  unfolding redact_owned
  redact_owned-secret x y owner other residue =
      let also : order.eq y.owner viewer ≡ false =
        ap (λ i. order.eq i viewer) (sym owner) ∙ other in
      rw (other, also, residue) refl
