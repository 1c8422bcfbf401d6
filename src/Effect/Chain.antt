-- ===== src/Effect/Chain.antt =====
-- The chain of two effects as an operation of its own: what `yield*` does in the providers of the
-- resources, whose long chains proofs go through step by step.
use alchemy_alibaba.Prelude.{◌≡◌}
use alchemy_alibaba.Effect.{ok, Effect, continue, continue-steps}

module _ {W E A B : Type 0} where
  infixl 10 ◌>>=◌ ◌>>◌
  unfoldable pub ◌>>=◌ : Effect W E A → (A → Effect W E B) → Effect W E B
  ◌>>=◌ m f s = continue f (m s)

  abbrev pub ◌>>◌ : Effect W E A → Effect W E B → Effect W E B
  m >> n = m >>= λ _. n

  -- The two parts of a chain that succeeds.
  pub chain-steps :
      (m : Effect W E A) (f : A → Effect W E B) (s : W) {b : B} {u : W}
      → (m >>= f) s ≡ (ok b, u)
      → (a : A) × (t : W) × (f a t ≡ (ok b, u)) × (m s ≡ (ok a, t))
  unfolding ◌>>=◌
  chain-steps m f s h = continue-steps f (m s) h
