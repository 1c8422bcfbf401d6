-- ===== src/Lifecycle/Delete.antt =====
-- `requestOrContinueDelete` of src/internal/lifecycle.ts: a rejected delete counts as accepted when
-- a fresh read shows that the resource is gone or going.
use alchemy_alibaba.Prelude.{
  ◌≡◌, refl, Bool, true, false, Option, none, some, if◌then◌else◌, Bool-cases, inl, inr, subst, ◌↔◌,
}
use alchemy_alibaba.Effect.{Result, ok, fail, Effect, succeed, raise, ◌>>=◌, match_effect, continue}

abbrev pub gone_or_deleting : {V : Type 0} → (V → Bool) → Option V → Bool
gone_or_deleting deleting none = true
gone_or_deleting deleting (some v) = deleting v

module _ {W E R V : Type 0} where
  unfoldable pub request_or_continue_delete :
      Effect W E R → Effect W E (Option V) → (V → Bool) → Effect W E (Option R)
  request_or_continue_delete request read deleting =
      match_effect
        (λ request_error. read >>= λ value.
          if gone_or_deleting deleting value then succeed none else raise request_error)
        (λ result. succeed (some result)) request

  -- What the request and the read that follows a failed request say.
  pub data DeleteEnds (request : Effect W E R) (read : Effect W E (Option V)) (deleting : V → Bool)
      (s : W) : Result E (Option R) → W → Type 0 where
    accepted :
        {r : R} {t : W} → request s ≡ (ok r, t) → DeleteEnds request read deleting s (ok (some r)) t
    already_going :
        {e : E} {t u : W} {v : Option V}
        → request s ≡ (fail e, t)
        → read t ≡ (ok v, u)
        → gone_or_deleting deleting v ≡ true
        → DeleteEnds request read deleting s (ok none) u
    still_there :
        {e : E} {t u : W} {v : V}
        → request s ≡ (fail e, t)
        → read t ≡ (ok (some v), u)
        → deleting v ≡ false
        → DeleteEnds request read deleting s (fail e) u
    unreadable :
        {e f : E} {t u : W}
        → request s ≡ (fail e, t)
        → read t ≡ (fail f, u)
        → DeleteEnds request read deleting s (fail f) u

module _ {W E R V : Type 0} (request : Effect W E R) (read : Effect W E (Option V))
    (deleting : V → Bool) where
  abbrev after_failure : E → Result E (Option V) × W → Result E (Option R) × W
  after_failure e =
      continue (λ value. if gone_or_deleting deleting value then succeed none else raise e)

  ends_after_read :
      {s t : W} {e : E}
      → request s ≡ (fail e, t)
      → (x : Result E (Option V) × W) → read t ≡ x
      → DeleteEnds request read deleting s (after_failure e x).0 (after_failure e x).1
  ends_after_read h (fail f, u) r = unreadable h r
  ends_after_read h (ok none, u) r = already_going h r refl
  ends_after_read h (ok (some v), u) r = elim (Bool-cases (deleting v)) [
    | inl d ↦ rw d (already_going h r d)
    | inr d ↦ rw d (still_there h r d)
  ]

  ends_after_request :
      (s : W) (x : Result E R × W)
      → request s ≡ x
      → let y = request_or_continue_delete request read deleting s in
        DeleteEnds request read deleting s y.0 y.1
  unfolding request_or_continue_delete
  ends_after_request s (ok r, t) h = rw h (accepted h)
  ends_after_request s (fail e, t) h = rw h (ends_after_read h (read t) refl)

  pub request_or_continue_delete-DeleteEnds :
      (s : W)
      → let y = request_or_continue_delete request read deleting s in
        DeleteEnds request read deleting s y.0 y.1
  request_or_continue_delete-DeleteEnds s = ends_after_request s (request s) refl

  pub request_or_continue_delete-eq_of_DeleteEnds :
      {s u : W} {r : Result E (Option R)}
      → DeleteEnds request read deleting s r u
      → request_or_continue_delete request read deleting s ≡ (r, u)
  unfolding request_or_continue_delete
  request_or_continue_delete-eq_of_DeleteEnds (accepted h) = rw h
  request_or_continue_delete-eq_of_DeleteEnds (already_going h r d) = rw (h, r, d)
  request_or_continue_delete-eq_of_DeleteEnds (still_there h r d) = rw (h, r, d)
  request_or_continue_delete-eq_of_DeleteEnds (unreadable h r) = rw (h, r)

  -- `requestOrContinueDelete` returns a result and a world exactly when the request and the fresh
  -- read after a failed request say so (`DeleteEnds`): the request's error surfaces only if the
  -- read sees the resource and the resource is not being deleted.
  pub request_or_continue_delete-iff_DeleteEnds :
      (s u : W) (r : Result E (Option R))
      → (request_or_continue_delete request read deleting s ≡ (r, u))
        ↔ DeleteEnds request read deleting s r u
  request_or_continue_delete-iff_DeleteEnds s u r = (
    λ e.
        subst (λ y. DeleteEnds request read deleting s y.0 y.1) e
          (request_or_continue_delete-DeleteEnds s),
    λ x. request_or_continue_delete-eq_of_DeleteEnds x,
  )
