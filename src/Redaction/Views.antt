-- ===== src/Redaction/Views.antt =====
-- What the view of a store holds: the viewer's own value, and the residues of all others in key order.
use Prim.Native.Nat.{Ordering}
use ironstate.Prelude.{
  ◌≡◌, ◌↔◌, refl, sym, ◌∙◌, ap, subst, inl, inr, true, false, false≢true, All-append, [], ◌∷◌, ◌++◌,
  Option, none, some, All, Bool-cases, append_assoc, append-nil, if◌then◌else◌,
}
use ironstate.Redaction.{
  Order, Conceal, PerPrincipal, get, insert, conceal_all, redact_entries, redact_for,
}

-- What Rust asks of `Eq` and `Ord`.
pub record IsOrder {P : Type 0} (order : Order P) : Type 0 where
  pub eq_iff : (a b : P) → (order.eq a b ≡ true) ↔ (a ≡ b)
  pub cmp_self : (a : P) → order.cmp a a ≡ Ordering.eq
  pub cmp_eq : (a b : P) → order.cmp a b ≡ Ordering.eq → a ≡ b
  pub cmp_flip : (a b : P) → order.cmp a b ≡ Ordering.lt → order.cmp b a ≡ Ordering.gt
  pub cmp_trans :
      (a b c : P)
      → order.cmp a b ≡ Ordering.lt
      → order.cmp b c ≡ Ordering.lt
      → order.cmp a c ≡ Ordering.lt

module _ {P T : Type 0} (order : Order P) where
  -- Every key is above.
  abbrev pub Above : P → PerPrincipal P T → Type 0
  Above key m = All (λ p. order.cmp key p.0 ≡ Ordering.lt) m

  -- The entries of an ordered map.
  abbrev pub IsSorted : PerPrincipal P T → Type 0
  IsSorted [] = Unit
  IsSorted ((key, value) ∷ m) = Above key m × IsSorted m

  -- The entries of the others.
  abbrev pub without : P → PerPrincipal P T → PerPrincipal P T
  without viewer [] = []
  without viewer ((key, value) ∷ m) =
      let rest = without viewer m in if order.eq key viewer then rest else (key, value) ∷ rest

module _ {P T : Type 0} (order : Order P) where
  -- Every key is below.
  abbrev Below : P → PerPrincipal P T → Type 0
  Below key m = All (λ p. order.cmp key p.0 ≡ Ordering.gt) m

  insert_last :
      (key : P) (value : T) (m : PerPrincipal P T)
      → Below key m
      → insert order key value m ≡ m ++ ((key, value) ∷ [])
  unfolding insert
  insert_last key value [] h = refl
  insert_last key value ((k, v) ∷ m) (above, h) =
      rw (above, insert) (ap (λ l. (k, v) ∷ l) (insert_last key value m h))

module _ {P T : Type 0} (c : Conceal T) (order : Order P) (lawful : IsOrder order)
    (viewer : P) where
  get-Above : (key : P) (m : PerPrincipal P T) → Above order key m → get order m key ≡ none
  unfolding get
  get-Above key [] h = refl
  get-Above key ((k, v) ∷ m) (below, h) = rw (below, get) refl

  abbrev or_else : Option T → Option T → Option T
  or_else none own = own
  or_else (some value) own = some value

  -- The value of the viewer, when the first key is or is not the viewer's.
  get_mine :
      (key : P) (value : T) (m : PerPrincipal P T)
      → Above order key m
      → order.eq key viewer ≡ true
      → (get order ((key, value) ∷ m) viewer ≡ some value) × (get order m viewer ≡ none)
  unfolding get
  get_mine key value m above same =
      let key_viewer : key ≡ viewer = (lawful.eq_iff key viewer).0 same in
      let here : order.cmp viewer key ≡ Ordering.eq =
        subst (λ k. order.cmp viewer k ≡ Ordering.eq) (sym key_viewer) (lawful.cmp_self viewer) in
      (rw (here, get) refl, subst (λ k. get order m k ≡ none) key_viewer (get-Above key m above))

  Above-trans :
      (low key : P) (m : PerPrincipal P T)
      → order.cmp low key ≡ Ordering.lt
      → Above order key m
      → Above order low m
  Above-trans low key [] h above = tt
  Above-trans low key ((k, v) ∷ m) h (first, above) =
      (lawful.cmp_trans low key k h first, Above-trans low key m h above)

  get_other :
      (key : P) (value : T) (m : PerPrincipal P T) (o : Ordering)
      → order.cmp viewer key ≡ o
      → Above order key m
      → order.eq key viewer ≡ false
      → get order ((key, value) ∷ m) viewer ≡ get order m viewer
  unfolding get
  get_other key value m Ordering.lt h above other =
      rw (h, get) (sym (get-Above viewer m (Above-trans viewer key m h above)))
  get_other key value m Ordering.eq h above other =
      let same = (lawful.eq_iff key viewer).1 (sym (lawful.cmp_eq viewer key h)) in
      absurd (false≢true (sym other ∙ same))
  get_other key value m Ordering.gt h above other = rw (h, get) refl

  -- The keys done are below all that are to come.
  abbrev IsDone : PerPrincipal P c.Concealed → PerPrincipal P T → Type 0
  IsDone others m = All (λ p. Below order p.0 others) m

  IsDone-snoc :
      (key : P) (residue : c.Concealed) (others : PerPrincipal P c.Concealed) (m : PerPrincipal P T)
      → Above order key m
      → IsDone others m
      → IsDone (others ++ ((key, residue) ∷ [])) m
  IsDone-snoc key residue others [] above done = tt
  IsDone-snoc key residue others ((k, v) ∷ m) (first, above) (below, done) = (
    All-append (λ p. order.cmp k p.0 ≡ Ordering.gt) others ((key, residue) ∷ []) below
        (lawful.cmp_flip key k first, tt),
    IsDone-snoc key residue others m above done,
  )

  redact_entries_lem :
      (m : PerPrincipal P T) (own : Option T) (others : PerPrincipal P c.Concealed)
      → IsSorted order m
      → IsDone others m
      → redact_entries c order viewer m own others ≡ record {
        mine = or_else (get order m viewer) own;
        others = others ++ conceal_all c (without order viewer m);
      }
  unfolding redact_entries get conceal_all
  redact_entries_lem [] own others sorted done =
      ap (λ l. record { mine = own; others = l }) (sym (append-nil others))
  redact_entries_lem ((key, value) ∷ m) own others (above, sorted) (below, done) =
      elim (Bool-cases (order.eq key viewer)) [
        | inl same ↦
            let (found, gone) = get_mine key value m above same in
            rw (same, redact_entries)
              (rw (found) (redact_entries_lem m (some value) others sorted done ∙ rw (gone) refl))
        | inr other ↦
            let residue = c.conceal value in
            let grown = others ++ ((key, residue) ∷ []) in
            let skipped = get_other key value m (order.cmp viewer key) refl above other in
            rw (other, redact_entries)
              (rw (skipped, insert_last order key residue others below)
                (redact_entries_lem m own grown sorted (IsDone-snoc key residue others m above done)
                  ∙ rw
                      (append_assoc others ((key, residue) ∷ [])
                        (conceal_all c (without order viewer m)))
                      refl))
      ]

  IsDone-nil : (m : PerPrincipal P T) → IsDone [] m
  IsDone-nil [] = tt
  IsDone-nil ((k, v) ∷ m) = (tt, IsDone-nil m)

  or_else-none : (o : Option T) → or_else o none ≡ o
  or_else-none none = refl
  or_else-none (some x) = refl

  -- Under a lawful order, the view of an ordered store for a viewer is the own value of the
  -- viewer, if there is one, and the residues of all other entries, in key order.
  pub redact_for_lem :
      (m : PerPrincipal P T)
      → IsSorted order m
      → redact_for c order viewer m
        ≡ record { mine = get order m viewer; others = conceal_all c (without order viewer m) }
  unfolding redact_for
  redact_for_lem m sorted =
      redact_entries_lem m none [] sorted (IsDone-nil m)
      ∙ ap (λ o. record { mine = o; others = conceal_all c (without order viewer m) })
          (or_else-none (get order m viewer))
