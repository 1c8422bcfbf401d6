-- ===== src/Rds/Privilege/Ends.antt =====
-- How the operations of src/rds/account-privilege.ts end.
use alchemy_alibaba.Prelude.{
  String, Bool, true, false, Option, none, some, if◌then◌else◌, ◌≡◌, refl, subst,
}
use alchemy_alibaba.Effect.{raise, ok, fail, Effect, IsRuntime, ok_injective}
use alchemy_alibaba.Effect.Chain.{◌>>=◌, chain-steps}
use alchemy_alibaba.Errors.{rds}
use alchemy_alibaba.Errors.{Failure}
use alchemy_alibaba.Provider.{Context, wait_label, is_text}
use alchemy_alibaba.Provider.Ensures.{Ensures, bind-Ensures}
use alchemy_alibaba.Provider.Settled.{
  SettledAt, AbsentAt, wait_for_present-Ensures, wait_for_absent-Ensures,
}
use alchemy_alibaba.Rds.Client.{RdsClients}
use alchemy_alibaba.Rds.Privilege.{
  revoke_refused, PrivilegeProps, PrivilegeAttributes, ObservedPrivilege, privilege_attributes,
}
use alchemy_alibaba.Rds.Privilege.Operations.{
  get_privilege, reconcile_privilege, needs_no_revoke, runs_postgres, revoke, revoke_if_held,
  delete_unless, delete_privilege,
}

module _ {W : Type 0} (c : Context (RdsClients W) W) (L : IsRuntime c.runtime) where
  -- Over a runtime that repeats as documented, a reconcile of a privilege that succeeds ended with
  -- a read of either view that saw the account hold exactly the wanted privilege, and its result is
  -- made of the inputs and of the detail that this read gave.
  pub reconcile_privilege-Granted :
      (news : PrivilegeProps) (a : PrivilegeAttributes) (s u : W)
      → reconcile_privilege c news s ≡ (ok a, u)
      → SettledAt
          (get_privilege c news.instance_id news.account_name news.database_name)
          (λ v. is_text news.privilege v.account_privilege)
          (λ v. λ t. (ok (privilege_attributes news v.account_privilege_detail), t))
          a
          u
  unfolding reconcile_privilege
  reconcile_privilege-Granted news a s u h =
      (bind-Ensures _ λ observed _. bind-Ensures _ λ granted _.
          wait_for_present-Ensures c.runtime L (wait_label c rds "GrantAccountPrivilege")
            (get_privilege c news.instance_id news.account_name news.database_name)
            (λ v. is_text news.privilege v.account_privilege)
            (λ v. λ t. (ok (privilege_attributes news v.account_privilege_detail), t))).holds_after
        h

module _ {W : Type 0} (c : Context (RdsClients W) W) (lower : String → String)
    (output : PrivilegeAttributes) where
  abbrev held : Effect W Failure (Option ObservedPrivilege)
  held = get_privilege c output.instance_id output.account_name output.database_name

  -- The ways in which a delete succeeds.
  pub data Released (s u : W) : Type 0 where
    spared : needs_no_revoke c lower output s ≡ (ok true, u) → Released s u
    not_held :
        {t : W}
        → needs_no_revoke c lower output s ≡ (ok false, t)
        → held t ≡ (ok none, u)
        → Released s u
    revoked :
        {t w x : W} {v : ObservedPrivilege}
        → needs_no_revoke c lower output s ≡ (ok false, t)
        → held t ≡ (ok (some v), w)
        → runs_postgres c output w ≡ (ok false, x)
        → AbsentAt held u
        → Released s u

  module _ (L : IsRuntime c.runtime) where
    revoke-Ensures : Ensures (λ a u. AbsentAt held u) (revoke c output)
    unfolding revoke
    revoke-Ensures = bind-Ensures _ λ requested _.
        wait_for_absent-Ensures c.runtime L (wait_label c rds "RevokeAccountPrivilege") held

    after_instance :
        (postgres : Bool) {s t w x u : W} {v : ObservedPrivilege} {a : Unit {0}}
        → needs_no_revoke c lower output s ≡ (ok false, t)
        → held t ≡ (ok (some v), w)
        → runs_postgres c output w ≡ (ok postgres, x)
        → (if postgres then raise revoke_refused else revoke c output) x ≡ (ok a, u)
        → Released s u
    after_instance true p q r h = cc
    after_instance false p q r h = revoked p q r (revoke-Ensures.holds_after h)

    after_read :
        (v : Option ObservedPrivilege) {s t w u : W} {a : Unit {0}}
        → needs_no_revoke c lower output s ≡ (ok false, t)
        → held t ≡ (ok v, w)
        → revoke_if_held c output v w ≡ (ok a, u)
        → Released s u
    after_read none {s} {t} p q h =
        not_held p (subst (λ z. held t ≡ (ok none, z)) (ok_injective h).1 q)
    after_read (some v) p q h =
        let (postgres, x, after, first) = chain-steps (runs_postgres c output) _ _ h in
        after_instance postgres p q first after

    after_account :
        (spare : Bool) {s t u : W} {a : Unit {0}}
        → needs_no_revoke c lower output s ≡ (ok spare, t)
        → delete_unless c output spare t ≡ (ok a, u)
        → Released s u
    after_account true {s} p h =
        spared (subst (λ z. needs_no_revoke c lower output s ≡ (ok true, z)) (ok_injective h).1 p)
    after_account false p h =
        let (v, w, after, first) = chain-steps held (revoke_if_held c output) _ h in
        after_read v p first after

    -- Over a runtime that repeats as documented, a delete of a privilege that succeeds ended in one
    -- of three ways (`Released`): the first read said that the account is gone or that its access is
    -- implicit, and nothing else was requested; or the account held no privilege, and nothing was
    -- revoked; or the instance was read not to run PostgreSQL, and the last request was a read that
    -- saw no privilege any more.
    pub delete_privilege-Released :
        (s u : W) → delete_privilege c lower output s ≡ (ok tt, u) → Released s u
    unfolding delete_privilege
    delete_privilege-Released s u h =
        let (spare, t, after, first) =
          chain-steps (needs_no_revoke c lower output) (delete_unless c output) s h in
        after_account spare first after

  -- If the account is there without implicit access, holds a privilege, and the instance runs
  -- PostgreSQL, as the three reads of a delete say, then the delete fails with the refusal and
  -- requests nothing after these reads.
  pub delete_privilege-refused :
      (s t w u : W) (v : ObservedPrivilege)
      → needs_no_revoke c lower output s ≡ (ok false, t)
      → held t ≡ (ok (some v), w)
      → runs_postgres c output w ≡ (ok true, u)
      → delete_privilege c lower output s ≡ (fail revoke_refused, u)
  unfolding delete_privilege ◌>>=◌
  delete_privilege-refused s t w u v p q r = rw p (rw q (rw r refl))
