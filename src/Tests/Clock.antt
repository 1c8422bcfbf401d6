-- ===== src/Tests/Clock.antt =====
-- A runtime that can be run: a world with a clock and the answers that are still to come.
use alchemy_alibaba.Prelude.{ℕ, zero, suc, ◌+◌, refl, inl, Bool, List, [], ◌∷◌}
use alchemy_alibaba.Effect.{Result, Effect, Runtime, IsRuntime, repeat_after, retry_after}

pub record Scripted (X : Type 0) : Type 0 where
  pub now : ℕ
  pub answers : List X

abbrev pub pause : {X : Type 0} → ℕ → Scripted X → Scripted X
pause d s = record { now = s.now + d; answers = s.answers }

module _ {X E A : Type 0} where
  abbrev pub repeat_rounds : ℕ → ℕ → (A → Bool) → Effect (Scripted X) E A → Effect (Scripted X) E A
  repeat_rounds d zero until m s = m s
  repeat_rounds d (suc n) until m s = repeat_after (pause d) until (repeat_rounds d n until m) (m s)

  abbrev pub retry_rounds :
      (ℕ → E → Scripted X → ℕ) → ℕ → (E → Bool) → Effect (Scripted X) E A → Effect (Scripted X) E A
  retry_rounds delay zero again m s = m s
  retry_rounds delay (suc n) again m s =
      retry_after (λ e t. pause (delay 0 e t) t) again (retry_rounds (λ k. delay (suc k)) n again m)
        (m s)

-- Nothing takes longer than its timeout here.
abbrev pub clock : (X : Type 0) → Runtime (Scripted X)
clock X = record {
  sleep = pause;
  jittered = λ d s. d;
  repeat = λ E A d n until m. repeat_rounds d n until m;
  retry = λ E A delay n again m. retry_rounds delay n again m;
  timeout_or_else = λ E A d alternative m. m;
}

pub clock_lawful : (X : Type 0) → IsRuntime (clock X)
clock_lawful X = record {
  repeat_none = λ E A d until m s. refl;
  repeat_more = λ E A d n until m s. refl;
  retry_none = λ E A delay again m s. refl;
  retry_more = λ E A delay n again m s. refl;
  timeout_cases = λ E A d alternative m s. inl refl;
}

-- The next answer of the script, and the last resort when it is used up.
abbrev pub answer : {E A : Type 0} → Result E A → Effect (Scripted (Result E A)) E A
answer default s = elim s.answers [
  | [] ↦ (default, s)
  | x ∷ rest ↦ (x, record { now = s.now; answers = rest })
]

abbrev pub script : {X : Type 0} → List X → Scripted X
script xs = record { now = 0; answers = xs }
