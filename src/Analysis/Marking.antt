-- ===== src/Analysis/Marking.antt =====
-- What marking the targets of one state does.
use mathlib.Core.List.{Memᴰ}
use mathlib.Core.List.Memᴰ
use ironstate.Prelude.{
  ℕ, zero, suc, ◌+◌, ◌<◌, ◌≡◌, refl, sym, ◌∙◌, ap, subst, ◌⊎◌, inl, inr, Bool, true, false, List,
  [], ◌∷◌, some, arith, length, get_elem?,
}
use ironstate.Analysis.{set, mark_outs}

abbrev pub IsSeen : List Bool → ℕ → Type 0
IsSeen seen i = get_elem? seen i ≡ some true

-- How many are not seen yet.
abbrev pub unseen : List Bool → ℕ
unseen [] = 0
unseen (true ∷ xs) = unseen xs
unseen (false ∷ xs) = suc (unseen xs)

pub get_elem?-total :
    {A : Type 0} (xs : List A) (i : ℕ) → i < length xs → (x : A) × (get_elem? xs i ≡ some x)
get_elem?-total [] i h = absurd (omega arith)
get_elem?-total (x ∷ xs) zero h = (x, refl)
get_elem?-total (x ∷ xs) (suc i) h = get_elem?-total xs i (omega arith)

seen_or_new :
    (seen : List Bool) (j : ℕ)
    → j < length seen
    → (get_elem? seen j ≡ some true) ⊎ (get_elem? seen j ≡ some false)
seen_or_new [] j h = absurd (omega arith)
seen_or_new (true ∷ xs) zero h = inl refl
seen_or_new (false ∷ xs) zero h = inr refl
seen_or_new (x ∷ xs) (suc j) h = seen_or_new xs j (omega arith)

pub get_elem?-lt :
    {A : Type 0} (xs : List A) (i : ℕ) (x : A) → get_elem? xs i ≡ some x → i < length xs
get_elem?-lt [] i x h = absurd (cc)
get_elem?-lt (y ∷ xs) zero x h = omega arith
get_elem?-lt (y ∷ xs) (suc i) x h = let below = get_elem?-lt xs i x h in omega arith

pub length-set : (seen : List Bool) (j : ℕ) → length (set seen j) ≡ length seen
length-set [] j = refl
length-set (x ∷ xs) zero = refl
length-set (x ∷ xs) (suc j) = ap suc (length-set xs j)

pub set-IsSeen_self : (seen : List Bool) (j : ℕ) → j < length seen → IsSeen (set seen j) j
set-IsSeen_self [] j h = absurd (omega arith)
set-IsSeen_self (x ∷ xs) zero h = refl
set-IsSeen_self (x ∷ xs) (suc j) h = set-IsSeen_self xs j (omega arith)

pub set-IsSeen : (seen : List Bool) (j i : ℕ) → IsSeen seen i → IsSeen (set seen j) i
set-IsSeen [] j i h = h
set-IsSeen (x ∷ xs) zero zero h = refl
set-IsSeen (x ∷ xs) zero (suc i) h = h
set-IsSeen (x ∷ xs) (suc j) zero h = h
set-IsSeen (x ∷ xs) (suc j) (suc i) h = set-IsSeen xs j i h

pub IsSeen-set : (seen : List Bool) (j i : ℕ) → IsSeen (set seen j) i → (i ≡ j) ⊎ IsSeen seen i
IsSeen-set [] j i h = inr h
IsSeen-set (x ∷ xs) zero zero h = inl refl
IsSeen-set (x ∷ xs) zero (suc i) h = inr h
IsSeen-set (x ∷ xs) (suc j) zero h = inr h
IsSeen-set (x ∷ xs) (suc j) (suc i) h = elim (IsSeen-set xs j i h) [
  | inl same ↦ inl (ap suc same)
  | inr old ↦ inr old
]

pub unseen-set :
    (seen : List Bool) (j : ℕ)
    → get_elem? seen j ≡ some false
    → suc (unseen (set seen j)) ≡ unseen seen
unseen-set [] j h = absurd (cc)
unseen-set (true ∷ xs) zero h = absurd (cc)
unseen-set (false ∷ xs) zero h = refl
unseen-set (true ∷ xs) (suc j) h = unseen-set xs j h
unseen-set (false ∷ xs) (suc j) h = ap suc (unseen-set xs j h)

-- What was seen and stacked stays so; the targets are seen; what is new is a target and is stacked;
-- and each one stacked is one fewer unseen.
pub record Marked (outs : List ℕ) (seen : List Bool) (stack : List ℕ) : Type 0 where
  pub seen' : List Bool
  pub stack' : List ℕ
  pub result : mark_outs outs seen stack ≡ some (seen', stack')
  pub size : length seen' ≡ length seen
  pub still_seen : (i : ℕ) → IsSeen seen i → IsSeen seen' i
  pub still_stacked : (i : ℕ) → Memᴰ i stack → Memᴰ i stack'
  pub outs_seen : (i : ℕ) → Memᴰ i outs → IsSeen seen' i
  pub seen_before : (i : ℕ) → IsSeen seen' i → IsSeen seen i ⊎ (Memᴰ i stack' × Memᴰ i outs)
  pub stacked_before : (i : ℕ) → Memᴰ i stack' → Memᴰ i stack ⊎ IsSeen seen' i
  pub balance : unseen seen' + length stack' ≡ unseen seen + length stack

seen_target :
    (j : ℕ) (outs : List ℕ) (seen : List Bool) (stack : List ℕ)
    → get_elem? seen j ≡ some true
    → Marked outs seen stack
    → Marked (j ∷ outs) seen stack
unfolding mark_outs
seen_target j outs seen stack found m = record {
  seen' = m.seen';
  stack' = m.stack';
  result = rw (found, mark_outs) m.result;
  size = m.size;
  still_seen = m.still_seen;
  still_stacked = m.still_stacked;
  outs_seen = λ i mem. elim (Memᴰ.cases_cons mem) [
    | inl same ↦ m.still_seen i (ap (get_elem? seen) same ∙ found)
    | inr later ↦ m.outs_seen i later
  ];
  seen_before = λ i h. elim (m.seen_before i h) [
    | inl old ↦ inl old
    | inr (on_stack, target) ↦ inr (on_stack, Memᴰ.tail target)
  ];
  stacked_before = m.stacked_before;
  balance = m.balance;
}

new_target :
    (j : ℕ) (outs : List ℕ) (seen : List Bool) (stack : List ℕ)
    → get_elem? seen j ≡ some false
    → Marked outs (set seen j) (j ∷ stack)
    → Marked (j ∷ outs) seen stack
unfolding mark_outs
new_target j outs seen stack found m =
    let here : IsSeen (set seen j) j = set-IsSeen_self seen j (get_elem?-lt seen j false found) in
    let on_stack : Memᴰ j m.stack' = m.still_stacked j (Memᴰ.head refl) in
    record {
      seen' = m.seen';
      stack' = m.stack';
      result = rw (found, mark_outs) m.result;
      size = m.size ∙ length-set seen j;
      still_seen = λ i h. m.still_seen i (set-IsSeen seen j i h);
      still_stacked = λ i h. m.still_stacked i (Memᴰ.tail h);
      outs_seen = λ i mem. elim (Memᴰ.cases_cons mem) [
        | inl same ↦ subst (IsSeen m.seen') (sym same) (m.still_seen j here)
        | inr later ↦ m.outs_seen i later
      ];
      seen_before = λ i h. elim (m.seen_before i h) [
        | inl marked ↦ elim (IsSeen-set seen j i marked) [
          | inl same ↦ inr (Memᴰ.cast same on_stack, Memᴰ.head same)
          | inr old ↦ inl old
        ]
        | inr (stacked, target) ↦ inr (stacked, Memᴰ.tail target)
      ];
      stacked_before = λ i h. elim (m.stacked_before i h) [
        | inl below ↦ elim (Memᴰ.cases_cons below) [
          | inl same ↦ inr (subst (IsSeen m.seen') (sym same) (m.still_seen j here))
          | inr old ↦ inl old
        ]
        | inr marked ↦ inr marked
      ];
      balance = omega (arith, m.balance, unseen-set seen j found);
    }

pub mark_outs-Marked :
    (outs : List ℕ) (seen : List Bool) (stack : List ℕ)
    → ((j : ℕ) → Memᴰ j outs → j < length seen)
    → Marked outs seen stack
unfolding mark_outs
mark_outs-Marked [] seen stack below = record {
  seen' = seen;
  stack' = stack;
  result = refl;
  size = refl;
  still_seen = λ i h. h;
  still_stacked = λ i h. h;
  outs_seen = λ i h. elim h [ ];
  seen_before = λ i h. inl h;
  stacked_before = λ i h. inl h;
  balance = refl;
}
mark_outs-Marked (j ∷ outs) seen stack below =
    elim (seen_or_new seen j (below j (Memᴰ.head refl))) [
      | inl found ↦
          seen_target j outs seen stack found
            (mark_outs-Marked outs seen stack (λ i h. below i (Memᴰ.tail h)))
      | inr found ↦ new_target j outs seen stack found (
          mark_outs-Marked outs (set seen j) (j ∷ stack)
            (λ i h. subst (λ n. i < n) (sym (length-set seen j)) (below i (Memᴰ.tail h))))
    ]
