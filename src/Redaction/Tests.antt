-- ===== src/Redaction/Tests.antt =====
-- Hands of cards, of which the others see the number.
use Prim.Native.Nat.{compare}
use ironstate.Prelude.{ℕ, suc, ◌+◌, ◌≡◌, ◌==◌, refl, ap, List, [], ◌∷◌, some, length, arith}
use ironstate.Redaction.{
  Order, Conceal, PerPrincipal, Owned, get, insert, update, remove, conceal_all, redact_entries,
  redact_for, redact_owned, OwnedView, concealed,
}
use ironstate.Redaction.Views.{IsOrder, without, redact_for_lem}
use ironstate.Redaction.Secrecy.{redact_for-update}

abbrev players : Order ℕ
players = record { eq = ◌==◌; cmp = compare }

players-IsOrder : IsOrder players
players-IsOrder = record {
  eq_iff = λ a b. (λ h. ground arith, λ h. ground arith);
  cmp_self = λ a. ground arith;
  cmp_eq = λ a b h. ground arith;
  cmp_flip = λ a b h. ground arith;
  cmp_trans = λ a b c h k. ground arith;
}

abbrev Hand : Type 0
Hand = List ℕ

abbrev hand_size : Conceal Hand
hand_size = record { Concealed = ℕ; conceal = length }

abbrev hands : PerPrincipal ℕ Hand
hands = (0, 7 ∷ 8 ∷ []) ∷ (1, 9 ∷ []) ∷ (4, []) ∷ []

seen_by_one :
    redact_for hand_size players 1 hands
    ≡ record { mine = some (9 ∷ []); others = (0, 2) ∷ (4, 0) ∷ [] }
unfolding redact_for redact_entries insert
seen_by_one = refl

replaced : insert players 1 (5 ∷ []) hands ≡ (0, 7 ∷ 8 ∷ []) ∷ (1, 5 ∷ []) ∷ (4, []) ∷ []
unfolding insert
replaced = refl

removed : remove players 1 hands ≡ (0, 7 ∷ 8 ∷ []) ∷ (4, []) ∷ []
unfolding remove
removed = refl

redact_for_lem_example : redact_for hand_size players 1 hands ≡ record {
  mine = get players hands 1;
  others = conceal_all hand_size (without players 1 hands);
}
redact_for_lem_example =
    redact_for_lem hand_size players players-IsOrder 1 hands
      ((refl, (refl, tt)), ((refl, tt), (tt, tt)))

one_higher : Hand → Hand
one_higher [] = []
one_higher (card ∷ cards) = (card + 1) ∷ one_higher cards

length-one_higher : (hand : Hand) → length (one_higher hand) ≡ length hand
unfolding one_higher
length-one_higher [] = refl
length-one_higher (card ∷ cards) = ap suc (length-one_higher cards)

redact_for-update_example :
    redact_for hand_size players 1 (update players one_higher hands 0)
    ≡ redact_for hand_size players 1 hands
redact_for-update_example =
    redact_for-update hand_size players 1 players-IsOrder one_higher 0 (λ e. omega arith) hands
      (λ hand found. length-one_higher hand)

abbrev left_hand : Owned ℕ Hand
left_hand = record { owner = 3; value = 7 ∷ [] }

hidden : redact_owned hand_size players left_hand 1 ≡ concealed 1
unfolding redact_owned
hidden = refl

shown : redact_owned hand_size players left_hand 3 ≡ OwnedView.mine (7 ∷ [])
unfolding redact_owned
shown = refl
