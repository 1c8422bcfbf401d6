-- ===== src/Effect/Retry.antt =====
-- The runs of a retried effect, and what `retry` returns for each of them.
use alchemy_alibaba.Prelude.{ℕ, zero, suc, ◌≡◌, refl, Bool, true, false, Bool-cases, inl, inr}
use alchemy_alibaba.Effect.{Result, ok, fail, Effect, Runtime, IsRuntime, retry_after}

module _ {W E A : Type 0} (rt : Runtime W) (again : E → Bool) (m : Effect W E A) where
  -- A result after which nothing is tried again.
  pub data IsFinal : Result E A → Type 0 where
    done : {a : A} → IsFinal (ok a)
    fatal : {e : E} → again e ≡ false → IsFinal (fail e)

  -- At most `k + 1` runs, with the pauses `delay` between them, end in a result and a world.
  pub data Attempted (r : Result E A) (u : W) : (ℕ → E → W → ℕ) → ℕ → W → Type 0 where
    settled :
        {delay : ℕ → E → W → ℕ} {k : ℕ} {s : W} → m s ≡ (r, u) → IsFinal r → Attempted r u delay k s
    used_up : {delay : ℕ → E → W → ℕ} {s : W} → m s ≡ (r, u) → Attempted r u delay 0 s
    tried :
        {delay : ℕ → E → W → ℕ} {k : ℕ} {s t : W} {e : E}
        → m s ≡ (fail e, t)
        → again e ≡ true
        → Attempted r u (λ j. delay (suc j)) k (rt.sleep (delay 0 e t) t)
        → Attempted r u delay (suc k) s

  module _ (L : IsRuntime rt) where
    pub retry-Attempted :
        (delay : ℕ → E → W → ℕ) (k : ℕ) (s : W)
        → let y = rt.retry E A delay k again m s in Attempted y.0 y.1 delay k s
    retry-Attempted delay zero s = rw (L.retry_none E A delay again m s) (used_up refl)
    retry-Attempted delay (suc k) s =
        rw (L.retry_more E A delay k again m s)
          (step (m s) refl (λ t. retry-Attempted (λ j. delay (suc j)) k t))
      where
        step :
            (x : Result E A × W)
            → m s ≡ x
            → ((t : W)
                → let z = rt.retry E A (λ j. delay (suc j)) k again m t in
                  Attempted z.0 z.1 (λ j. delay (suc j)) k t)
            → let y =
                retry_after
                  (λ e t. rt.sleep (delay 0 e t) t)
                  again
                  (rt.retry E A (λ j. delay (suc j)) k again m)
                  x in
              Attempted y.0 y.1 delay (suc k) s
        step (ok a, t) h rest = settled h done
        step (fail e, t) h rest = elim (Bool-cases (again e)) [
          | inl y ↦ rw y (tried h y (rest (rt.sleep (delay 0 e t) t)))
          | inr n ↦ rw n (settled h (fatal n))
        ]
