-- ===== src/Vpc/Delete.antt =====
-- What the deletes of src/vpc have seen when they return.
use alchemy_alibaba.Prelude.{none, some, ◌≡◌, refl}
use alchemy_alibaba.Effect.{ok, Effect, IsRuntime}
use alchemy_alibaba.Errors.{Failure, vpc}
use alchemy_alibaba.Provider.{Context, wait_label}
use alchemy_alibaba.Provider.Ensures.{Ensures, bind-Ensures}
use alchemy_alibaba.Provider.Settled.{AbsentAt, wait_for_absent-Ensures, absent_or-Ensures}
use alchemy_alibaba.Vpc.Client.{VpcClients}
use alchemy_alibaba.Vpc.Eip.{EipAttributes}
use alchemy_alibaba.Vpc.Eip.Operations.{get_eip, delete_eip}
use alchemy_alibaba.Vpc.Nat.{NatGatewayAttributes}
use alchemy_alibaba.Vpc.Nat.Operations.{get_nat, delete_nat}
use alchemy_alibaba.Vpc.Snat.{SnatEntryAttributes, props_of}
use alchemy_alibaba.Vpc.Snat.Operations.{get_snat, delete_snat}

-- A resource of the providers, as its last reconcile or read left it.
pub data Deployed : Type 0 where
  eip : EipAttributes → Deployed
  nat : NatGatewayAttributes → Deployed
  snat : SnatEntryAttributes → Deployed

module _ {W : Type 0} (c : Context (VpcClients W) W) where
  -- The `delete` of the provider of each type.
  abbrev pub delete_deployed : Deployed → Effect W Failure (Unit {0})
  delete_deployed (eip output) = delete_eip c output
  delete_deployed (nat output) = delete_nat c output
  delete_deployed (snat output) = delete_snat c output

  -- In this world a read of the resource by its id, the last request, has just seen nothing.
  abbrev pub DeletedAt : Deployed → W → Type 0
  DeletedAt (eip o) = AbsentAt (get_eip c (some o.allocation_id) none)
  DeletedAt (nat o) = AbsentAt (get_nat c (some o.nat_gateway_id) none)
  DeletedAt (snat o) = AbsentAt (get_snat c (props_of o) (some o.snat_entry_id))

  module _ (L : IsRuntime c.runtime) where
    delete_eip-Ensures : (o : EipAttributes) → Ensures (λ a u. DeletedAt (eip o) u) (delete_eip c o)
    unfolding delete_eip
    delete_eip-Ensures o = bind-Ensures _ λ here _.
        absent_or-Ensures _ (λ s. refl)
          λ v. bind-Ensures _ λ released _.
            wait_for_absent-Ensures c.runtime L (wait_label c vpc "ReleaseEipAddress")
              (get_eip c (some o.allocation_id) none)

    delete_nat-Ensures :
        (o : NatGatewayAttributes) → Ensures (λ a u. DeletedAt (nat o) u) (delete_nat c o)
    unfolding delete_nat
    delete_nat-Ensures o = bind-Ensures _ λ here _.
        absent_or-Ensures _ (λ s. refl)
          λ v. bind-Ensures _ λ removed _.
            wait_for_absent-Ensures c.runtime L (wait_label c vpc "DeleteNatGateway")
              (get_nat c (some o.nat_gateway_id) none)

    delete_snat-Ensures :
        (o : SnatEntryAttributes) → Ensures (λ a u. DeletedAt (snat o) u) (delete_snat c o)
    unfolding delete_snat
    delete_snat-Ensures o = bind-Ensures _ λ here _.
        absent_or-Ensures _ (λ s. refl)
          λ v. bind-Ensures _ λ removed _.
            wait_for_absent-Ensures c.runtime L (wait_label c vpc "DeleteSnatEntry")
              (get_snat c (props_of o) (some o.snat_entry_id))

    -- Over a runtime that repeats as documented, a delete of an address, a gateway or a SNAT entry
    -- that succeeds ends with a read by the id of the resource that sees nothing.
    pub delete_deployed-DeletedAt :
        (d : Deployed) (s u : W) → delete_deployed d s ≡ (ok tt, u) → DeletedAt d u
    delete_deployed-DeletedAt (eip o) s u h = (delete_eip-Ensures o).holds_after h
    delete_deployed-DeletedAt (nat o) s u h = (delete_nat-Ensures o).holds_after h
    delete_deployed-DeletedAt (snat o) s u h = (delete_snat-Ensures o).holds_after h
