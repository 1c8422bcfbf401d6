-- ===== src/Provider/Settled.antt =====
-- What the last request of a reconcile or a delete saw: a settled resource, or none.
use alchemy_alibaba.Prelude.{◌≡◌, sym, ◌∙◌, Bool, true, Option, none, some}
use alchemy_alibaba.Effect.{ok, Effect, Runtime, IsRuntime, ok_injective}
use alchemy_alibaba.Effect.Chain.{◌>>=◌, chain-steps}
use alchemy_alibaba.Errors.{Failure}
use alchemy_alibaba.Lifecycle.Wait.{WaitLabel, wait_for_present, wait_for_absent}
use alchemy_alibaba.Lifecycle.Wait.Presence.{wait_for_present-iff_Present, wait_for_absent-iff_Gone}
use alchemy_alibaba.Provider.Ensures.{Ensures}

module _ {W V A : Type 0} (read : Effect W Failure (Option V)) where
  -- The last read saw a value that passes the test, and the result is what `attributes` makes of it.
  pub record SettledAt (test : V → Bool) (attributes : V → Effect W Failure A) (a : A) (u : W)
      : Type 0 where
    pub at : W
    pub next : W
    pub value : V
    pub found : read at ≡ (ok (some value), next)
    pub is_settled : test value ≡ true
    pub returned : attributes value next ≡ (ok a, u)

module _ {W V : Type 0} (read : Effect W Failure (Option V)) where
  -- The last read saw nothing.
  pub record AbsentAt (u : W) : Type 0 where
    pub at : W
    pub found : read at ≡ (ok none, u)

module _ {W V : Type 0} {read : Effect W Failure (Option V)}
    (rest : Option V → Effect W Failure (Unit {0})) where
  absent_or_later :
      ((s : W) → rest none s ≡ (ok tt, s))
      → ((v : V) → Ensures (λ a u. AbsentAt read u) (rest (some v)))
      → (v : Option V) {s t u : W} {a : Unit {0}} → read s ≡ (ok v, t)
      → rest v t ≡ (ok a, u)
      → AbsentAt read u
  absent_or_later stop later none {s} {t} first after = record {
    at = s;
    found = rw (← (ok_injective (sym (stop t) ∙ after)).1) first;
  }
  absent_or_later stop later (some v) first after = (later v).holds_after after

  -- A read that sees nothing ends the chain; a chain that sees a value ensures what the rest does.
  pub absent_or-Ensures :
      ((s : W) → rest none s ≡ (ok tt, s))
      → ((v : V) → Ensures (λ a u. AbsentAt read u) (rest (some v)))
      → Ensures (λ a u. AbsentAt read u) (read >>= rest)
  absent_or-Ensures stop later = record {
    holds_after = λ {s} h.
        let (v, t, after, first) = chain-steps read rest s h in
        absent_or_later stop later v first after;
  }

module _ {W : Type 0} (rt : Runtime W) (L : IsRuntime rt) {V : Type 0} (o : WaitLabel (Option V))
    (read : Effect W Failure (Option V)) where
  pub wait_for_present-Ensures :
      {A : Type 0} (test : V → Bool) (attributes : V → Effect W Failure A)
      → Ensures (SettledAt read test attributes) (wait_for_present rt o test read >>= attributes)
  wait_for_present-Ensures test attributes = record {
    holds_after = λ {s} h.
        let (v, t, after, first) = chain-steps (wait_for_present rt o test read) attributes s h in
        let p = (wait_for_present-iff_Present rt o read L test s v t).0 first in
        record {
          at = p.at;
          next = t;
          value = v;
          found = p.found;
          is_settled = p.is_ready;
          returned = after;
        };
  }

  pub wait_for_absent-Ensures : Ensures (λ a u. AbsentAt read u) (wait_for_absent rt o read)
  wait_for_absent-Ensures = record {
    holds_after = λ {s} {u} {a} h.
        let g = (wait_for_absent-iff_Gone rt o read L s u).0 h in
        record { at = g.at; found = g.found };
  }
