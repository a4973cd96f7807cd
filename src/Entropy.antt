-- ===== src/Entropy.antt =====
-- Journaled entropy (app/crates/ironstate-aggregate/src/entropy.rs).
-- A source is a state type with its operations; a position is a 64-bit word.
pub mod Seeded
pub mod Draws
use ironstate.Prelude.{ℕ, Option, some}

-- The required methods of the trait `EntropySource`.
pub record EntropySource (Source : Type 0) : Type 0 where
  pub draw_u64 : Source → ℕ × Source
  pub seek : ℕ → Source → Source
  pub draws : Source → ℕ
  pub probe : Source → Source

-- `CtxEntropy`: the mutable borrow that `entropy_mut` hands out is a read and a write back.
pub record CtxEntropy (Ctx Source : Type 0) : Type 0 where
  pub source : EntropySource Source
  pub entropy : Ctx → Option Source
  pub with_entropy : Source → Ctx → Ctx

-- `DeterministicCtx` and `OwnedDeterministicCtx`, which differ in who owns the source.
pub record DeterministicCtx (Source Actor : Type 0) : Type 0 where
  pub entropy : Source
  pub actor : Actor
  pub now : ℕ

module _ {Source Actor : Type 0} (source : EntropySource Source) where
  unfoldable pub probing : DeterministicCtx Source Actor → DeterministicCtx Source Actor
  probing ctx = record ctx { entropy = source.probe ctx.entropy }

  -- `impl CtxEntropy` for both.
  abbrev pub deterministic : CtxEntropy (DeterministicCtx Source Actor) Source
  deterministic = record {
    source = source;
    entropy = λ ctx. some ctx.entropy;
    with_entropy = λ s ctx. record ctx { entropy = s };
  }
