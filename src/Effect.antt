-- ===== src/Effect.antt =====
-- The `Effect` values of the program: a computation over a world `W` that fails with an `E` or
-- returns an `A`, and leaves the world that its requests have changed in both cases. What the
-- library decides about time (`Effect.repeat`, `Effect.retry`, `Effect.timeoutOrElse`) is the
-- interface `Runtime`, with its documented behaviour in `IsRuntime`.
pub mod Chain
pub mod Repeat
pub mod Retry
use alchemy_alibaba.Prelude.{refl, ℕ, suc, ◌≡◌, ◌⊎◌, Bool, if◌then◌else◌}

pub data Result (E A : Type 0) : Type 0 where
  ok : A → Result E A
  fail : E → Result E A

abbrev pub Effect : Type 0 → Type 0 → Type 0 → Type 0
Effect W E A = W → Result E A × W

module _ {W E A : Type 0} where
  -- `Effect.succeed`, `Effect.fail`
  abbrev pub succeed : A → Effect W E A
  succeed a s = (ok a, s)

  abbrev pub raise : E → Effect W E A
  raise e s = (fail e, s)

module _ {W E A B : Type 0} where
  abbrev pub continue : (A → Effect W E B) → Result E A × W → Result E B × W
  continue f (ok a, s) = f a s
  continue f (fail e, s) = (fail e, s)

  infixl 10 ◌>>=◌ ◌>>◌
  abbrev pub ◌>>=◌ : Effect W E A → (A → Effect W E B) → Effect W E B
  ◌>>=◌ m f s = continue f (m s)

  abbrev pub ◌>>◌ : Effect W E A → Effect W E B → Effect W E B
  m >> n = m >>= λ _. n

  -- `Effect.map`
  abbrev pub fmap : (A → B) → Effect W E A → Effect W E B
  fmap f m = m >>= λ a. succeed (f a)

module _ {W E A : Type 0} where
  abbrev pub catching : (E → Bool) → (E → Effect W E A) → Result E A × W → Result E A × W
  catching test handler (ok a, s) = (ok a, s)
  catching test handler (fail e, s) = if test e then handler e s else (fail e, s)

  -- `Effect.catchIf`: only the errors that pass the test are handled.
  abbrev pub catch_if : (E → Bool) → (E → Effect W E A) → Effect W E A → Effect W E A
  catch_if test handler m s = catching test handler (m s)

module _ {W E F A B : Type 0} where
  abbrev pub matching : (E → Effect W F B) → (A → Effect W F B) → Result E A × W → Result F B × W
  matching on_failure on_success (ok a, s) = on_success a s
  matching on_failure on_success (fail e, s) = on_failure e s

  -- `Effect.matchEffect`
  abbrev pub match_effect : (E → Effect W F B) → (A → Effect W F B) → Effect W E A → Effect W F B
  match_effect on_failure on_success m s = matching on_failure on_success (m s)

-- The parts of two equal outcomes.
module _ {W E A : Type 0} where
  pub ok_injective :
      {a b : A} {s t : W} → ◌≡◌ {A = Result E A × W} (ok a, s) (ok b, t) → (a ≡ b) × (s ≡ t)
  ok_injective h = (cc, cc)

  pub fail_injective :
      {a b : E} {s t : W} → ◌≡◌ {A = Result E A × W} (fail a, s) (fail b, t) → (a ≡ b) × (s ≡ t)
  fail_injective h = (cc, cc)

-- The two parts of a chain that succeeds.
module _ {W E A B : Type 0} where
  pub continue-steps :
      (f : A → Effect W E B) (x : Result E A × W) {b : B} {u : W}
      → continue f x ≡ (ok b, u)
      → (a : A) × (t : W) × (f a t ≡ (ok b, u)) × (x ≡ (ok a, t))
  continue-steps f (fail e, t) h = cc
  continue-steps f (ok a, t) h = (a, t, h, refl)

-- The operations of the library that let time pass. Durations are milliseconds, and a `times` is
-- the number of runs after the first.
pub record Runtime (W : Type 0) : Type 1 where
  -- What the world becomes while the program waits.
  pub sleep : ℕ → W → W
  -- `Schedule.jittered`: a delay, varied at random.
  pub jittered : ℕ → W → ℕ
  -- `Effect.repeat({ schedule: Schedule.spaced(d), times, until })`
  pub repeat : (E A : Type 0) → ℕ → ℕ → (A → Bool) → Effect W E A → Effect W E A
  -- `Effect.retry({ schedule, times, while })`: the schedule gives the pause from the number of
  -- retries made, the error and the world.
  pub retry : (E A : Type 0) → (ℕ → E → W → ℕ) → ℕ → (E → Bool) → Effect W E A → Effect W E A
  -- `Effect.timeoutOrElse({ duration, orElse })`
  pub timeout_or_else : (E A : Type 0) → ℕ → Effect W E A → Effect W E A → Effect W E A

module _ {W E A : Type 0} where
  -- What follows a run of a repeated effect: the end, or a pause and the rest.
  abbrev pub repeat_after : (W → W) → (A → Bool) → Effect W E A → Result E A × W → Result E A × W
  repeat_after pause until rest (ok a, s) = if until a then (ok a, s) else rest (pause s)
  repeat_after pause until rest (fail e, s) = (fail e, s)

  -- What follows a run of a retried effect.
  abbrev pub retry_after : (E → W → W) → (E → Bool) → Effect W E A → Result E A × W → Result E A × W
  retry_after pause again rest (ok a, s) = (ok a, s)
  retry_after pause again rest (fail e, s) = if again e then rest (pause e s) else (fail e, s)

-- What the library documents of those operations: `repeat` stops at the first value that passes
-- its test, at the first failure and when its times are used; `retry` stops at the first value, at
-- the first error that fails its test and when its times are used; a timeout gives the result of
-- the effect, or interrupts it in some world and runs the alternative.
pub record IsRuntime {W : Type 0} (rt : Runtime W) : Type 1 where
  pub repeat_none :
      (E A : Type 0) (d : ℕ) (until : A → Bool) (m : Effect W E A) (s : W)
      → rt.repeat E A d 0 until m s ≡ m s
  pub repeat_more :
      (E A : Type 0) (d n : ℕ) (until : A → Bool) (m : Effect W E A) (s : W)
      → rt.repeat E A d (suc n) until m s
        ≡ repeat_after (rt.sleep d) until (rt.repeat E A d n until m) (m s)
  pub retry_none :
      (E A : Type 0) (pause : ℕ → E → W → ℕ) (again : E → Bool) (m : Effect W E A) (s : W)
      → rt.retry E A pause 0 again m s ≡ m s
  pub retry_more :
      (E A : Type 0) (pause : ℕ → E → W → ℕ) (n : ℕ) (again : E → Bool) (m : Effect W E A) (s : W)
      → rt.retry E A pause (suc n) again m s
        ≡ retry_after
            (λ e t. rt.sleep (pause 0 e t) t)
            again
            (rt.retry E A (λ k. pause (suc k)) n again m)
            (m s)
  pub timeout_cases :
      (E A : Type 0) (d : ℕ) (alternative m : Effect W E A) (s : W)
      → (rt.timeout_or_else E A d alternative m s ≡ m s)
        ⊎ ((t : W) × (rt.timeout_or_else E A d alternative m s ≡ alternative t))
