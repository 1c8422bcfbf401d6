-- ===== src/Vpc/Reconcile.antt =====
-- What the reconciles of src/vpc/eip.ts, nat-gateway.ts and snat-entry.ts have seen when they return.
use alchemy_alibaba.Prelude.{
  ℕ, String, true, List, Option, none, some, eq_iff, ◌≡◌, ◌∙◌, ap, arith, ==_iff,
}
use alchemy_alibaba.Effect.{ok, IsRuntime}
use alchemy_alibaba.Effect.Chain.{◌>>=◌}
use alchemy_alibaba.Errors.{vpc}
use alchemy_alibaba.Errors.Classify.{get_or, or_else}
use alchemy_alibaba.Lifecycle.Identity.{physical_name, require_value}
use alchemy_alibaba.Lifecycle.Identity.Tags.{TagRecord}
use alchemy_alibaba.Provider.{Context, wait_label, is_text}
use alchemy_alibaba.Provider.Tags.{desired_tags}
use alchemy_alibaba.Provider.Ensures.{Ensures, Produced, bind-Ensures, Ensures-imp}
use alchemy_alibaba.Provider.Settled.{SettledAt, wait_for_present-Ensures}
use alchemy_alibaba.Vpc.Client.{VpcClients, SdkEip}
use alchemy_alibaba.Vpc.Eip.{
  EipProps, EipAttributes, eip_settled, wanted_bandwidth, bandwidth_of, is_number,
}
use alchemy_alibaba.Vpc.Eip.Operations.{get_eip, eip_attributes, reconcile_eip}
use alchemy_alibaba.Vpc.Eip

is_text_get : (name : String) (o : Option String) → is_text name o ≡ true → get_or o "" ≡ name
is_text_get name none h = cc
is_text_get name (some s) h = (eq_iff s name).0 h

is_number_eq : (o : Option ℕ) (n : ℕ) → is_number o n ≡ true → o ≡ some n
is_number_eq none n h = cc
is_number_eq (some m) n h = ap some ((==_iff m n).0 h)

module _ {W : Type 0} (c : Context (VpcClients W) W) (id : String) where
  module _ (other_number : List ℕ → Option ℕ) (news : EipProps)
      (output : Option EipAttributes) where
    -- The last read of the address saw it settled under a name and tags that were made for it.
    pub record ReconciledEip (a : EipAttributes) (u : W) : Type 0 where
      pub name : String
      pub tags : TagRecord
      pub allocation_id : String
      pub named :
          Produced
            (physical_name c.alchemy.create_physical_name id
              (or_else news.name (Eip.output_name output))
              128)
            name
      pub tagged : Produced (desired_tags c.alchemy.create_internal_tags id news.tags) tags
      pub settled :
          SettledAt
            (get_eip c (some allocation_id) none)
            (eip_settled other_number name news tags)
            (eip_attributes c other_number)
            a
            u
      pub has_name : a.name ≡ name
      pub has_bandwidth : a.bandwidth ≡ some (wanted_bandwidth news)

    attributes_name :
        (v : SdkEip) {a : EipAttributes} (s : W) {u : W}
        → eip_attributes c other_number v s ≡ (ok a, u)
        → (a.name ≡ get_or v.name "") × (a.bandwidth ≡ bandwidth_of other_number v.bandwidth)
    unfolding eip_attributes require_value ◌>>=◌
    attributes_name v s h = ground arith

    settled_fields :
        (name : String) (tags : TagRecord) (v : SdkEip)
        → eip_settled other_number name news tags v ≡ true
        → (is_text name v.name ≡ true)
          × (is_number (bandwidth_of other_number v.bandwidth) (wanted_bandwidth news) ≡ true)
    unfolding eip_settled
    settled_fields name tags v h = ground arith

    ReconciledEip-settled :
        (name : String) (tags : TagRecord) (allocation_id : String)
        → Produced
            (physical_name c.alchemy.create_physical_name id
              (or_else news.name (Eip.output_name output))
              128)
            name
        → Produced (desired_tags c.alchemy.create_internal_tags id news.tags) tags
        → (a : EipAttributes) (u : W)
        → SettledAt
            (get_eip c (some allocation_id) none)
            (eip_settled other_number name news tags)
            (eip_attributes c other_number)
            a
            u
        → ReconciledEip a u
    ReconciledEip-settled name tags allocation_id named tagged a u settled =
        let (n, b) = settled_fields name tags settled.value settled.is_settled in
        let (is_name, is_bandwidth) = attributes_name settled.value settled.next settled.returned in
        record {
          name = name;
          tags = tags;
          allocation_id = allocation_id;
          named = named;
          tagged = tagged;
          settled = settled;
          has_name = is_name ∙ is_text_get name settled.value.name n;
          has_bandwidth =
              is_bandwidth
              ∙ is_number_eq (bandwidth_of other_number settled.value.bandwidth)
                  (wanted_bandwidth news) b;
        }

    module _ (L : IsRuntime c.runtime) where
      reconcile_eip-Ensures :
          (instance_id : String)
          → Ensures ReconciledEip (reconcile_eip c other_number id instance_id news output)
      unfolding reconcile_eip
      reconcile_eip-Ensures instance_id = bind-Ensures _ λ here _. bind-Ensures _ λ name named.
          bind-Ensures _ λ tags tagged. bind-Ensures _ λ found _. bind-Ensures _ λ allowed _.
            bind-Ensures _ λ value _. bind-Ensures _ λ allocation_id _. bind-Ensures _ λ modified _.
              bind-Ensures _ λ synced _.
                Ensures-imp (ReconciledEip-settled name tags allocation_id named tagged) (
                  wait_for_present-Ensures c.runtime L (wait_label c vpc "ReconcileEip")
                    (get_eip c (some allocation_id) none) (eip_settled other_number name news tags)
                    (eip_attributes c other_number))

      -- Over a runtime that repeats as documented, a reconcile of a public address that succeeds has
      -- the name from `physicalName` and the wanted bandwidth in its result, and its last request was
      -- a read that saw the address available or in use, with that name, that bandwidth and exactly
      -- the tags from `desiredTags`; the result is what the provider reads off this address.
      pub reconcile_eip-Reconciled :
          (instance_id : String) (a : EipAttributes) (s u : W)
          → reconcile_eip c other_number id instance_id news output s ≡ (ok a, u)
          → ReconciledEip a u
      reconcile_eip-Reconciled instance_id a s u h =
          (reconcile_eip-Ensures instance_id).holds_after h
