-- ===== src/Entropy/Seeded.antt =====
-- `SeededEntropy`, the seekable source over ChaCha12
-- (app/crates/ironstate-aggregate/src/entropy.rs). The generator is the crate `rand_chacha`, which
-- is a parameter.
use ironstate.Prelude.{ℕ, ◌%◌, ◌^◌, List}
use ironstate.Entropy.{EntropySource}

-- The bytes of a `Seed`.
abbrev pub Seed : Type 0
Seed = List ℕ

-- `rand_chacha::ChaCha12Rng`, as far as it is called.
pub record ChaCha (Rng : Type 0) : Type 0 where
  pub from_seed : Seed → Rng
  pub set_word_pos : ℕ → Rng → Rng
  pub get_word_pos : Rng → ℕ
  pub next_u64 : Rng → ℕ × Rng

pub record SeededEntropy (Rng : Type 0) : Type 0 where
  pub rng : Rng
  pub seed : Seed

module _ {Rng : Type 0} (chacha : ChaCha Rng) where
  -- `SeededEntropy::at`
  unfoldable pub seeded_at : Seed → ℕ → SeededEntropy Rng
  seeded_at seed pos = record { rng = chacha.set_word_pos pos (chacha.from_seed seed); seed = seed }

  unfoldable pub from_seed : Seed → SeededEntropy Rng
  unfolding seeded_at
  from_seed seed = seeded_at seed 0

  unfoldable pub draw_u64 : SeededEntropy Rng → ℕ × SeededEntropy Rng
  draw_u64 e = let (word, rng) = chacha.next_u64 e.rng in (word, record e { rng = rng })

  unfoldable pub seek : ℕ → SeededEntropy Rng → SeededEntropy Rng
  seek pos e = record e { rng = chacha.set_word_pos pos e.rng }

  -- The word position is cast to 64 bits.
  unfoldable pub draws : SeededEntropy Rng → ℕ
  draws e = chacha.get_word_pos e.rng % 2 ^ 64

  unfoldable pub probe : SeededEntropy Rng → SeededEntropy Rng
  unfolding seeded_at draws
  probe e = seeded_at e.seed (draws e)

  abbrev pub seeded : EntropySource (SeededEntropy Rng)
  seeded = record { draw_u64 = draw_u64; seek = seek; draws = draws; probe = probe }
