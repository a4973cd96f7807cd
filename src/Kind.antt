-- ===== src/Kind.antt =====
-- Event kinds, the labels by which a state gates events (app/crates/ironstate/src/kind.rs).
use ironstate.Prelude.{String, Bool, List, Option, none, some, any, str_eq}

-- A newtype over a string constant.
abbrev pub Kind : Type 0
Kind = String

-- `kinds.contains(kind)`
abbrev pub contains : List Kind → Kind → Bool
contains kinds kind = any (λ other. str_eq other kind) kinds

unfoldable pub intersects : List Kind → List Kind → Bool
intersects a b = any (λ x. contains b x) a

-- The test `matches!(event.kinds(), Some(ek) if intersects(expected, ek))`, which the machine, the
-- metadata, the analysis and the aggregate all make of a restricted state.
unfoldable pub accepts : List Kind → Option (List Kind) → Bool
accepts expected none = Bool.false
accepts expected (some kinds) = intersects expected kinds
