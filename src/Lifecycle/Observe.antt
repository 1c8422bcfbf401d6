-- ===== src/Lifecycle/Observe.antt =====
-- `observeUntil` of src/internal/lifecycle.ts: repeat a read until its value is ready, within a
-- number of attempts; an unusable read costs an attempt.
pub mod Laws
use alchemy_alibaba.Prelude.{ℕ, ◌-◌, max, Bool, true, false, Option, none, some, if◌then◌else◌}
use alchemy_alibaba.Effect.{
  Result, ok, fail, Effect, succeed, raise, ◌>>=◌, fmap, catch_if, Runtime,
}
use alchemy_alibaba.Errors.{Failure}
use alchemy_alibaba.Errors.Classify.{get_or, is_retryable_observation}

-- `WaitOptions`; an interval is in milliseconds. A count of attempts is a natural number, so that
-- `Math.trunc` leaves it alone.
pub record WaitOptions : Type 0 where
  pub attempts : Option ℕ
  pub interval : Option ℕ

-- `Required<WaitOptions>`
pub record Wait : Type 0 where
  pub attempts : ℕ
  pub interval : ℕ

-- `{ ...defaultWaitOptions, ...options.wait }`
unfoldable pub with_defaults : WaitOptions → Wait
with_defaults o = record { attempts = get_or o.attempts 120; interval = get_or o.interval 10000 }

pub data Observation (V E : Type 0) : Type 0 where
  pending : V → Observation V E
  ready : V → Observation V E
  failed : E → Observation V E

-- `WaitResult`: the value, the attempts and the interval.
pub data WaitResult (V : Type 0) : Type 0 where
  completed : V → ℕ → ℕ → WaitResult V
  exhausted : V → ℕ → ℕ → WaitResult V

-- `Math.max(1, Math.trunc(wait.attempts))`
abbrev pub budget : Wait → ℕ
budget w = max 1 w.attempts

module _ {V E : Type 0} where
  -- `Observation.$is("Ready")`
  abbrev pub is_ready : Observation V E → Bool
  is_ready (ready v) = true
  is_ready _ = false

  abbrev pub classify : (V → Bool) → V → Observation V E
  classify test v = if test v then ready v else pending v

module _ {W V E : Type 0} where
  -- One read, classified; a failure that may be repeated is an observation.
  abbrev pub observe_once : (V → Bool) → (E → Bool) → Effect W E V → Effect W E (Observation V E)
  observe_once test retry_read read =
      catch_if retry_read (λ e. succeed (failed e)) (fmap (classify test) read)

  -- The end of the loop: the last observation decides.
  abbrev pub conclude : Wait → Observation V E → Effect W E (WaitResult V)
  conclude w (failed e) = raise e
  conclude w (ready v) = succeed (completed v (budget w) w.interval)
  conclude w (pending v) = succeed (exhausted v (budget w) w.interval)

module _ {W : Type 0} (rt : Runtime W) {V E : Type 0} where
  unfoldable pub observe_until :
      (V → Bool) → (E → Bool) → Wait → Effect W E V → Effect W E (WaitResult V)
  observe_until test retry_read w read =
      rt.repeat E (Observation V E) w.interval (budget w - 1) is_ready
        (observe_once test retry_read read)
      >>= conclude w

-- `options.retryRead ?? isRetryableObservation`
abbrev pub retry_read_or_default : Option (Failure → Bool) → Failure → Bool
retry_read_or_default none e = is_retryable_observation e
retry_read_or_default (some test) e = test e
