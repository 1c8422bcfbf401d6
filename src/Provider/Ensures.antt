-- ===== src/Provider/Ensures.antt =====
-- Postconditions of effects that succeed, and the rules that go through a chain of steps.
use alchemy_alibaba.Prelude.{◌≡◌, Bool, true, false, if◌then◌else◌}
use alchemy_alibaba.Effect.{ok, Effect, raise}
use alchemy_alibaba.Effect.Chain.{◌>>=◌, chain-steps}

module _ {W E A : Type 0} where
  -- Whenever the effect succeeds, its value and the world after it are in `Q`.
  pub record Ensures (Q : A → W → Type 0) (m : Effect W E A) : Type 0 where
    pub holds_after : {s u : W} {a : A} → m s ≡ (ok a, u) → Q a u

  -- A value that the effect produces in some world.
  pub record Produced (m : Effect W E A) (a : A) : Type 0 where
    pub from : W
    pub to : W
    pub produces : m from ≡ (ok a, to)

  pub raise-Ensures : {Q : A → W → Type 0} (e : E) → Ensures Q (raise e)
  raise-Ensures e = record { holds_after = λ h. cc }

  pub Ensures-imp :
      {P Q : A → W → Type 0} {m : Effect W E A}
      → ((a : A) (u : W) → P a u → Q a u)
      → Ensures P m
      → Ensures Q m
  Ensures-imp f p = record { holds_after = λ {s} {u} {a} h. f a u (p.holds_after h) }

  pub if-Ensures :
      {Q : A → W → Type 0} {m n : Effect W E A} (b : Bool)
      → Ensures Q m
      → Ensures Q n
      → Ensures Q (if b then m else n)
  if-Ensures true p q = p
  if-Ensures false p q = q

module _ {W E A B : Type 0} {Q : B → W → Type 0} where
  bind_after :
      {f : A → Effect W E B} (m : Effect W E A)
      → ((a : A) → Produced m a → Ensures Q (f a))
      → (s : W) {u : W} {b : B} → (m >>= f) s ≡ (ok b, u)
      → Q b u
  bind_after {f} m later s h =
      let (a, t, after, first) = chain-steps m f s h in
      (later a (record { from = s; to = t; produces = first })).holds_after after

  -- A chain ensures what the rest ensures for the values that the first step produces.
  pub bind-Ensures :
      {f : A → Effect W E B} (m : Effect W E A)
      → ((a : A) → Produced m a → Ensures Q (f a))
      → Ensures Q (m >>= f)
  bind-Ensures m later = record { holds_after = λ {s} h. bind_after m later s h }
