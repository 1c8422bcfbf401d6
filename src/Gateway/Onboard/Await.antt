-- ===== src/Gateway/Onboard/Await.antt =====
-- `waitFor` of packages/rds-access/src/gateway/onboard.ts: read until a value is as wanted.
use Prim.Native.String.{◌++◌ as ◌<>◌}
use alchemy_alibaba.Prelude.{
  ℕ, zero, suc, ◌-◌, String, Bool, true, false, ◌≡◌, ◌↔◌, refl, subst, if◌then◌else◌, Bool-cases,
  inl, inr,
}
use alchemy_alibaba.Effect.{Result, ok, fail, Effect, continue, ◌>>=◌, Runtime, ok_injective}
use alchemy_alibaba.Gateway.Model.{AccessError}
use alchemy_alibaba.Gateway.Route.{failure}

module _ {W A : Type 0} (rt : Runtime W) (label : String) (read : Effect W AccessError A)
    (test : A → Bool) where
  abbrev not_converged : AccessError
  not_converged = failure (
      label
      <> " did not converge in time. Rerun to inspect the current state; every step is safe to repeat.")

  -- The loop, with the attempts left and the latest value; the pause is 2 seconds.
  unfoldable converge : ℕ → A → Effect W AccessError A
  converge zero latest s = if test latest then (ok latest, s) else (fail not_converged, s)
  converge (suc left) latest s =
      let more = continue (converge left) (read (rt.sleep 2000 s)) in
      if test latest then (ok latest, s) else more

  -- `waitFor`
  unfoldable pub await_value : ℕ → Effect W AccessError A
  unfolding converge
  await_value max_attempts = read >>= converge (max_attempts - 1)

  -- Some read within the attempts sees a value as wanted, after reads that saw others.
  pub data Reached (v : A) (u : W) : ℕ → W → Type 0 where
    now : {left : ℕ} {s : W} → read s ≡ (ok v, u) → test v ≡ true → Reached v u left s
    later :
        {left : ℕ} {s t : W} {w : A}
        → read s ≡ (ok w, t)
        → test w ≡ false
        → Reached v u left (rt.sleep 2000 t)
        → Reached v u (suc left) s

  converge-Reached :
      (left : ℕ) (s : W) {v : A} {u : W} (x : Result AccessError A × W)
      → read s ≡ x
      → continue (converge left) x ≡ (ok v, u)
      → Reached v u left s
  unfolding converge
  converge-Reached left s (fail e, t) r h = cc
  converge-Reached zero s {v} {u} (ok w, t) r h = elim (Bool-cases (test w)) [
    | inl y ↦
        let (a, b) = ok_injective (rw y at h) in now (rw (r, a, b)) (subst (λ z. test z ≡ true) a y)
    | inr n ↦ cc (rw n at h)
  ]
  converge-Reached (suc left) s {v} {u} (ok w, t) r h = elim (Bool-cases (test w)) [
    | inl y ↦
        let (a, b) = ok_injective (rw y at h) in now (rw (r, a, b)) (subst (λ z. test z ≡ true) a y)
    | inr n ↦
        later r n
          (converge-Reached left (rt.sleep 2000 t) (read (rt.sleep 2000 t)) refl (rw n at h))
  ]

  Reached-converge :
      (left : ℕ) (s : W) {v : A} {u : W}
      → Reached v u left s
      → continue (converge left) (read s) ≡ (ok v, u)
  unfolding converge
  Reached-converge zero s (now r h) = rw (r, h)
  Reached-converge (suc left) s (now r h) = rw (r, h)
  Reached-converge (suc left) s (later {t = t} r h rest) =
      rw (r, h) (Reached-converge left (rt.sleep 2000 t) rest)

  -- `waitFor` of the onboarding returns a value exactly when some read within the attempts sees it
  -- as wanted, after reads that succeeded and saw other values: a failed read ends it at once.
  pub await_value-iff_Reached :
      (max_attempts : ℕ) (s : W) (v : A) (u : W)
      → (await_value max_attempts s ≡ (ok v, u)) ↔ Reached v u (max_attempts - 1) s
  unfolding await_value
  await_value-iff_Reached max_attempts s v u = (
    λ h. converge-Reached (max_attempts - 1) s (read s) refl h,
    λ r. Reached-converge (max_attempts - 1) s r,
  )
