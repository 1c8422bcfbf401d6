-- ===== src/Effect/Repeat.antt =====
-- The runs of a repeated effect, and what `repeat` returns for each of them.
use alchemy_alibaba.Prelude.{
  ℕ, zero, suc, ◌+◌, ◌-◌, ◌≤◌, ◌≡◌, refl, ◌∙◌, ap, ◌⊎◌, inl, inr, Bool, true, false, arith,
  Bool-cases, subst,
}
use alchemy_alibaba.Effect.{Result, ok, fail, Effect, Runtime, IsRuntime, repeat_after}

module _ {E A : Type 0} (until : A → Bool) where
  -- A result after which nothing is repeated.
  pub data Ends : Result E A → Type 0 where
    passed : {a : A} → until a ≡ true → Ends (ok a)
    failed : {e : E} → Ends (fail e)

  repeat_after-Ends :
      {W : Type 0} {r : Result E A} (pause : W → W) (rest : Effect W E A) (t : W)
      → Ends r
      → repeat_after pause until rest (r, t) ≡ (r, t)
  repeat_after-Ends pause rest t (passed h) = rw h
  repeat_after-Ends pause rest t failed = refl

  pub not-Ends : {a : A} → until a ≡ false → ¬ Ends (ok a)
  not-Ends h (passed p) = cc

module _ {W E A : Type 0} (rt : Runtime W) (d : ℕ) (until : A → Bool) (m : Effect W E A) where
  -- `n` runs whose values fail the test, each followed by a pause, lead from one world to another.
  pub data Passes : W → ℕ → W → Type 0 where
    none_yet : {s : W} → Passes s 0 s
    one_more :
        {s t u : W} {a : A} {n : ℕ}
        → m s ≡ (ok a, t)
        → until a ≡ false
        → Passes (rt.sleep d t) n u
        → Passes s (suc n) u

  -- The last of at most `k + 1` runs gave `r` in the world `u`.
  pub record Outcome (k : ℕ) (s : W) (r : Result E A) (u : W) : Type 0 where
    pub spent : ℕ
    pub at : W
    pub passes : Passes s spent at
    pub last : m at ≡ (r, u)
    pub stop : (Ends until r × (spent ≤ k)) ⊎ (spent ≡ k)

  Outcome-later :
      {k : ℕ} {s t : W} {a : A} {r : Result E A} {u : W}
      → m s ≡ (ok a, t)
      → until a ≡ false
      → Outcome k (rt.sleep d t) r u
      → Outcome (suc k) s r u
  Outcome-later {k} h fails o = record {
    spent = suc o.spent;
    at = o.at;
    passes = one_more h fails o.passes;
    last = o.last;
    stop = elim o.stop [ inl (e, le) ↦ inl (e, omega arith) | inr e ↦ inr (ap suc e) ];
  }

  Outcome-first :
      (k : ℕ) {s : W} {r : Result E A} {u : W} → m s ≡ (r, u) → Ends until r → Outcome k s r u
  Outcome-first k {s} h stops = record {
    spent = 0;
    at = s;
    passes = none_yet;
    last = h;
    stop = inl (stops, omega arith);
  }

  -- Every number of repetitions from every world has an outcome.
  pub repeat_cases : (k : ℕ) (s : W) → (r : Result E A) × (u : W) × Outcome k s r u
  repeat_cases zero s = (
    (m s).0,
    (m s).1,
    record { spent = 0; at = s; passes = none_yet; last = refl; stop = inr refl },
  )
  repeat_cases (suc k) s = step (m s) refl (repeat_cases k)
    where
      step :
          (x : Result E A × W)
          → m s ≡ x
          → ((t : W) → (r : Result E A) × (u : W) × Outcome k t r u)
          → (r : Result E A) × (u : W) × Outcome (suc k) s r u
      step (fail e, t) h later = (fail e, t, Outcome-first (suc k) h failed)
      step (ok a, t) h later = elim (Bool-cases (until a)) [
        | inl p ↦ (ok a, t, Outcome-first (suc k) h (passed p))
        | inr q ↦ let (r, u, o) = later (rt.sleep d t) in (r, u, Outcome-later h q o)
      ]

  abbrev repeated : ℕ → Effect W E A
  repeated k = rt.repeat E A d k until m

  module _ (L : IsRuntime rt) where
    repeat-Passes :
        {s t : W} {n : ℕ} (k j : ℕ) → j ≡ n + k → Passes s n t → repeated j s ≡ repeated k t
    repeat-Passes {t} k j e none_yet = ap (λ i. repeated i t) (omega arith)
    repeat-Passes {s} k zero e (one_more h fails rest) = absurd (omega arith)
    repeat-Passes {s} k (suc j) e (one_more h fails rest) =
        L.repeat_more E A d j until m s ∙ rw (h, fails) (repeat-Passes k j (omega arith) rest)

    repeat-Ends :
        (k : ℕ) {s t : W} {r : Result E A} → m s ≡ (r, t) → Ends until r → repeated k s ≡ (r, t)
    repeat-Ends zero {s} e stops = L.repeat_none E A d until m s ∙ e
    repeat-Ends (suc k) {s} {t} e stops =
        L.repeat_more E A d k until m s
        ∙ rw e (repeat_after-Ends until (rt.sleep d) (repeated k) t stops)

    -- An outcome is what `repeat` returns.
    pub repeat-eq_of_Outcome :
        {k : ℕ} {s : W} {r : Result E A} {u : W} → Outcome k s r u → repeated k s ≡ (r, u)
    repeat-eq_of_Outcome {k} {s} o = elim o.stop [
      | inl (stops, h) ↦
          repeat-Passes (k - o.spent) k (omega arith) o.passes
          ∙ repeat-Ends (k - o.spent) o.last stops
      | inr h ↦ repeat-Passes 0 k (omega arith) o.passes ∙ L.repeat_none E A d until m o.at ∙ o.last
    ]

  -- A value that fails the test is returned only when the times are used.
  pub spent_of_unended :
      {k : ℕ} {s : W} {r : Result E A} {u : W} (o : Outcome k s r u) {a : A}
      → r ≡ ok a
      → until a ≡ false
      → o.spent ≡ k
  spent_of_unended o e h = elim o.stop [
    | inl (stops, _) ↦ absurd (not-Ends until h (subst (Ends until) e stops))
    | inr full ↦ full
  ]

  pub spent-le : {k : ℕ} {s : W} {r : Result E A} {u : W} (o : Outcome k s r u) → o.spent ≤ k
  spent-le o = elim o.stop [ inl (_, h) ↦ h | inr h ↦ omega arith ]
