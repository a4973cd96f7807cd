-- ===== src/Redaction.antt =====
-- What one principal sees of another's state (app/crates/ironstate-aggregate/src/redaction.rs). The
-- ordered map is the list of its entries in key order; the order of principals is a parameter.
pub mod Views
pub mod Secrecy
mod Tests
use Prim.Native.Nat.{Ordering}
use ironstate.Prelude.{
  ℕ, Bool, true, false, List, [], ◌∷◌, Option, none, some, length, is_some, if◌then◌else◌,
}
use ironstate.Aggregate.{AggregateRules, Aggregate}
use ironstate.StableHash.{StableHash, CanonicalEncoder, write_len, encode_entries}

-- `PartialEq` and `Ord`
pub record Order (P : Type 0) : Type 0 where
  pub eq : P → P → Bool
  pub cmp : P → P → Ordering

-- The trait `Conceal`.
pub record Conceal (T : Type 0) : Type 1 where
  pub Concealed : Type 0
  pub conceal : T → Concealed

-- The trait `OwnerRedact`.
pub record OwnerRedact (P T : Type 0) : Type 1 where
  pub View : Type 0
  pub redact_for : T → P → View

-- The trait `View`.
pub record View (P S : Type 0) : Type 1 where
  pub Output : Type 0
  pub view_for : S → P → Output

-- `impl View for Aggregate`
abbrev pub aggregate_view :
    {R : AggregateRules} {P : Type 0} → View P R.State → View P (Aggregate R)
aggregate_view v = record { Output = v.Output; view_for = λ a viewer. v.view_for a.state viewer }

abbrev pub PerPrincipal : Type 0 → Type 0 → Type 0
PerPrincipal P T = List (P × T)

module _ {P T : Type 0} (order : Order P) where
  unfoldable pub get : PerPrincipal P T → P → Option T
  get [] principal = none
  get ((key, value) ∷ entries) principal = elim (order.cmp principal key) [
    | Ordering.lt ↦ none
    | Ordering.eq ↦ some value
    | Ordering.gt ↦ get entries principal
  ]

  -- A write through `get_mut`.
  unfoldable pub update : (T → T) → PerPrincipal P T → P → PerPrincipal P T
  update f [] principal = []
  update f ((key, value) ∷ entries) principal = elim (order.cmp principal key) [
    | Ordering.lt ↦ (key, value) ∷ entries
    | Ordering.eq ↦ (key, f value) ∷ entries
    | Ordering.gt ↦ (key, value) ∷ update f entries principal
  ]

  -- The entries after `insert`, whose result is what `get` gave before.
  unfoldable pub insert : P → T → PerPrincipal P T → PerPrincipal P T
  insert principal value [] = (principal, value) ∷ []
  insert principal value ((key, old) ∷ entries) = elim (order.cmp principal key) [
    | Ordering.lt ↦ (principal, value) ∷ (key, old) ∷ entries
    | Ordering.eq ↦ (key, value) ∷ entries
    | Ordering.gt ↦ (key, old) ∷ insert principal value entries
  ]

  unfoldable pub remove : P → PerPrincipal P T → PerPrincipal P T
  remove principal [] = []
  remove principal ((key, value) ∷ entries) = elim (order.cmp principal key) [
    | Ordering.lt ↦ (key, value) ∷ entries
    | Ordering.eq ↦ entries
    | Ordering.gt ↦ (key, value) ∷ remove principal entries
  ]

  abbrev pub contains_key : PerPrincipal P T → P → Bool
  contains_key m principal = is_some (get m principal)

pub record PerPrincipalView (P : Type 0) {T : Type 0} (c : Conceal T) : Type 0 where
  pub mine : Option T
  pub others : PerPrincipal P c.Concealed

pub record Owned (P T : Type 0) : Type 0 where
  pub owner : P
  pub value : T

pub data OwnedView {T : Type 0} (c : Conceal T) : Type 0 where
  mine : T → OwnedView c
  concealed : c.Concealed → OwnedView c

module _ {P T : Type 0} (c : Conceal T) where
  -- `Conceal for PerPrincipal`
  unfoldable pub conceal_all : PerPrincipal P T → PerPrincipal P c.Concealed
  conceal_all [] = []
  conceal_all ((key, value) ∷ entries) = (key, c.conceal value) ∷ conceal_all entries

  module _ (order : Order P) (viewer : P) where
    -- The loop of `redact_for`.
    unfoldable pub redact_entries :
        PerPrincipal P T → Option T → PerPrincipal P c.Concealed → PerPrincipalView P c
    redact_entries [] own others = record { mine = own; others = others }
    redact_entries ((key, value) ∷ entries) own others = elim (order.eq key viewer) [
      | true ↦ redact_entries entries (some value) others
      | false ↦ redact_entries entries own (insert order key (c.conceal value) others)
    ]

    -- `PerPrincipal::redact_for`
    unfoldable pub redact_for : PerPrincipal P T → PerPrincipalView P c
    redact_for m = redact_entries m none []

  -- `Owned::redact_for`
  unfoldable pub redact_owned : Order P → Owned P T → P → OwnedView c
  redact_owned order x viewer =
      if order.eq x.owner viewer then mine x.value else concealed (c.conceal x.value)

  abbrev pub owner_redact : Order P → OwnerRedact P (PerPrincipal P T)
  owner_redact order = record {
    View = PerPrincipalView P c;
    redact_for = λ m viewer. redact_for order viewer m;
  }

-- `StableHash` for `PerPrincipal`.
abbrev pub per_principal :
    {P T : Type 0} → StableHash P → StableHash T → StableHash (PerPrincipal P T)
per_principal p t = record { encode = λ m enc. encode_entries p t m (write_len (length m) enc) }
