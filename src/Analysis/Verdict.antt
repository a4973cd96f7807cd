-- ===== src/Analysis/Verdict.antt =====
-- What the report of `analyze` means.
use ironstate.Prelude.{
  ℕ, zero, suc, ◌<◌, ◌≡◌, refl, sym, ◌∙◌, ap, ◌↔◌, ◌⊎◌, inl, inr, Bool, true, false, not, ◌&&◌,
  ◌||◌, List, [], ◌∷◌, ◌++◌, map, any, some, arith, length, get_elem?, String, if◌then◌else◌,
}
use ironstate.Analysis.Report.{
  Node, dead_claims, Claim, unreachable, reach_claims, deadlocks, inescapables, unused_claims,
  is_empty, Message,
}
use ironstate.Analysis.Marking.{IsSeen}

-- No claim is an error.
abbrev pub IsQuiet : List Claim → Type 0
IsQuiet claims = any (λ c. c.is_error) claims ≡ false

or-false : (a b : Bool) → ((a || b) ≡ false) ↔ ((a ≡ false) × (b ≡ false))
or-false true b = (λ h. cc, λ h. h.0)
or-false false b = (λ h. (refl, h), λ h. h.1)

pub append-IsQuiet : (xs ys : List Claim) → IsQuiet (xs ++ ys) ↔ (IsQuiet xs × IsQuiet ys)
append-IsQuiet [] ys = (λ h. (refl, h), λ h. h.1)
append-IsQuiet (x ∷ xs) ys =
    let rest = append-IsQuiet xs ys in
    let both = or-false x.is_error (any (λ c. c.is_error) (xs ++ ys)) in
    let left = or-false x.is_error (any (λ c. c.is_error) xs) in
    (
      λ h. (left.1 ((both.0 h).0, (rest.0 (both.0 h).1).0), (rest.0 (both.0 h).1).1),
      λ h. both.1 ((left.0 h.0).0, rest.1 ((left.0 h.0).1, h.1)),
    )

module _ {A B : Type 0} (f : A → B) where
  pub length-map : (xs : List A) → length (map f xs) ≡ length xs
  length-map [] = refl
  length-map (x ∷ xs) = ap suc (length-map xs)

  pub get_elem?-map :
      (xs : List A) (i : ℕ) (y : B)
      → get_elem? (map f xs) i ≡ some y
      → (x : A) × (get_elem? xs i ≡ some x) × (f x ≡ y)
  get_elem?-map [] i y h = absurd (cc)
  get_elem?-map (x ∷ xs) zero y h = (x, refl, cc)
  get_elem?-map (x ∷ xs) (suc i) y h = get_elem?-map xs i y h

  pub map-get_elem? :
      (xs : List A) (i : ℕ) (x : A) → get_elem? xs i ≡ some x → get_elem? (map f xs) i ≡ some (f x)
  map-get_elem? [] i x h = absurd (cc)
  map-get_elem? (y ∷ xs) zero x h = let same : y ≡ x = cc h in ap (λ z. some (f z)) same
  map-get_elem? (y ∷ xs) (suc i) x h = map-get_elem? xs i x h

seen_all :
    (x : Bool) (seen : List Bool) (n : ℕ)
    → x ≡ true
    → ((i : ℕ) → i < n → IsSeen seen i)
    → (i : ℕ) → i < suc n
    → IsSeen (x ∷ seen) i
seen_all x seen n h all zero lt = ap some h
seen_all x seen n h all (suc i) lt = all i (omega (arith, lt))

-- Every variant is marked exactly if none is listed as unreachable.
pub unreachable-nil :
    (ns : List Node) (seen : List Bool)
    → length seen ≡ length ns
    → (unreachable ns seen ≡ []) ↔ ((i : ℕ) → i < length ns → IsSeen seen i)
unfolding unreachable
unreachable-nil [] seen h = (λ e i lt. absurd (omega arith), λ all. refl)
unreachable-nil (n ∷ ns) [] h = absurd (omega (arith, h))
unreachable-nil (n ∷ ns) (true ∷ seen) h =
    let rest = unreachable-nil ns seen (omega (arith, h)) in
    (
      λ e. seen_all true seen (length ns) refl (rest.0 e),
      λ all. rest.1 (λ i lt. all (suc i) (omega (arith, lt))),
    )
unreachable-nil (n ∷ ns) (false ∷ seen) h =
    (λ e. absurd (cc), λ all. absurd (let bad = all 0 (omega arith) in cc))

pub reach_claims-IsQuiet :
    (n : ℕ) (initial : String) (names : List String)
    → IsQuiet (reach_claims n initial names) ↔ (names ≡ [])
unfolding reach_claims
reach_claims-IsQuiet n initial [] = (λ h. refl, λ h. refl)
reach_claims-IsQuiet n initial (x ∷ names) = (λ h. cc, λ h. absurd (cc))

pub dead_claims-IsQuiet : (ds : List Message) → IsQuiet (dead_claims ds) ↔ (ds ≡ [])
unfolding dead_claims
dead_claims-IsQuiet [] = (λ h. refl, λ h. refl)
dead_claims-IsQuiet (d ∷ ds) = (λ h. cc, λ h. absurd (cc))

pub unused_claims-IsQuiet : (names : List String) → IsQuiet (unused_claims names)
unfolding unused_claims
unused_claims-IsQuiet [] = refl
unused_claims-IsQuiet (x ∷ names) = refl

-- A state that is terminal, or has an edge and a way to a terminal state.
abbrev pub Escapes : Node → Bool → Type 0
Escapes node c = (node.terminal ≡ true) ⊎ ((is_empty node.outs ≡ false) × (c ≡ true))

abbrev pub AllEscape : List Node → List Bool → Type 0
AllEscape [] can = Unit
AllEscape (node ∷ ns) [] = ⊥
AllEscape (node ∷ ns) (c ∷ can) = Escapes node c × AllEscape ns can

node-Escapes :
    (terminal empty c : Bool)
    → (((not terminal && empty) ≡ false) × ((not terminal && (not c && not empty)) ≡ false))
      ↔ ((terminal ≡ true) ⊎ ((empty ≡ false) × (c ≡ true)))
node-Escapes true empty c = (λ h. inl refl, λ h. (refl, refl))
node-Escapes false true c = (λ h. cc, λ h. elim h [ inl bad ↦ cc | inr (bad, t) ↦ cc ])
node-Escapes false false true = (λ h. inr (refl, refl), λ h. (refl, refl))
node-Escapes false false false = (λ h. cc, λ h. elim h [ inl bad ↦ cc | inr (t, bad) ↦ cc ])

flagged :
    (b : Bool) (c : Claim) (rest : List Claim)
    → c.is_error ≡ true
    → IsQuiet (if b then c ∷ rest else rest) ↔ ((b ≡ false) × IsQuiet rest)
flagged true c rest h =
    (λ q. let bad : true ≡ false = sym h ∙ ((or-false c.is_error _).0 q).0 in cc, λ q. cc)
flagged false c rest h = (λ q. (refl, q), λ q. q.1)

-- No deadlock and no inescapable state is reported exactly if every state escapes.
pub escapes :
    (ns : List Node) (can : List Bool)
    → length can ≡ length ns
    → (IsQuiet (deadlocks ns) × IsQuiet (inescapables ns can)) ↔ AllEscape ns can
unfolding deadlocks inescapables
escapes [] can h = (λ q. tt, λ q. (refl, refl))
escapes (node ∷ ns) [] h = absurd (omega (arith, h))
escapes (node ∷ ns) (c ∷ can) h =
    let rest = escapes ns can (omega (arith, h)) in
    let stuck = flagged (not node.terminal && is_empty node.outs) _ (deadlocks ns) refl in
    let lost =
      flagged (not node.terminal && (not c && not (is_empty node.outs))) _ (inescapables ns can)
        refl in
    let here = node-Escapes node.terminal (is_empty node.outs) c in
    (
      λ q. (here.0 ((stuck.0 q.0).0, (lost.0 q.1).0), rest.0 ((stuck.0 q.0).1, (lost.0 q.1).1)),
      λ e. (stuck.1 ((here.1 e.0).0, (rest.1 e.1).0), lost.1 ((here.1 e.0).1, (rest.1 e.1).1)),
    )
