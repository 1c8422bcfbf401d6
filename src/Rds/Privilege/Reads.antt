-- ===== src/Rds/Privilege/Reads.antt =====
-- What a read of src/rds/account-privilege.ts has seen of the privilege that it returns.
use alchemy_alibaba.Prelude.{
  inl, inr, Bool-cases, String, Bool, true, false, Option, none, some, if◌then◌else◌, ◌≡◌, refl,
  ◌∙◌, subst,
}
use alchemy_alibaba.Effect.{ok, ok_injective}
use alchemy_alibaba.Effect.Chain.{chain-steps}
use alchemy_alibaba.Provider.{Context}
use alchemy_alibaba.Rds.Client.{RdsClients}
use alchemy_alibaba.Rds.Privilege.{
  PrivilegeProps, PrivilegeAttributes, ObservedPrivilege, privilege_attributes, is_privilege,
  StoredPrivilege, known_privilege,
}
use alchemy_alibaba.Rds.Privilege.Operations.{
  get_privilege, read_privilege, read_if_known, of_observed,
}
use alchemy_alibaba.Errors.Classify.{or_else}
use alchemy_alibaba.Prelude.{◌⊎◌, ◌||◌, eq_iff, str_eq}

-- A name stands in the stored inputs, or they lack it and it stands in the output.
pub data NameFrom (stored : Option String) (output : Option PrivilegeAttributes)
    (field : PrivilegeAttributes → String) (name : String) : Type 0 where
  stored_name : stored ≡ some name → NameFrom stored output field name
  output_name :
      (o : PrivilegeAttributes)
      → stored ≡ none
      → output ≡ some o
      → field o ≡ name
      → NameFrom stored output field name

-- The privileges that the inputs allow.
pub data Allowed (p : String) : Type 0 where
  read_write : p ≡ "ReadWrite" → Allowed p
  read_only : p ≡ "ReadOnly" → Allowed p
  ddl_only : p ≡ "DDLOnly" → Allowed p
  dml_only : p ≡ "DMLOnly" → Allowed p
  db_owner : p ≡ "DBOwner" → Allowed p

or_cases : (a b : Bool) → (a || b) ≡ true → (a ≡ true) ⊎ (b ≡ true)
or_cases true b h = inl refl
or_cases false b h = inr h

is_privilege-Allowed : (p : String) → is_privilege (some p) ≡ true → Allowed p
unfolding is_privilege
is_privilege-Allowed p h = elim (or_cases _ (str_eq p "DBOwner") h) [
  | inr x ↦ db_owner ((eq_iff p "DBOwner").0 x)
  | inl h ↦ elim (or_cases _ (str_eq p "DMLOnly") h) [
    | inr x ↦ dml_only ((eq_iff p "DMLOnly").0 x)
    | inl h ↦ elim (or_cases _ (str_eq p "DDLOnly") h) [
      | inr x ↦ ddl_only ((eq_iff p "DDLOnly").0 x)
      | inl h ↦ elim (or_cases (str_eq p "ReadWrite") (str_eq p "ReadOnly") h) [
        | inl x ↦ read_write ((eq_iff p "ReadWrite").0 x)
        | inr x ↦ read_only ((eq_iff p "ReadOnly").0 x)
      ]
    ]
  ]
]

or_else-NameFrom :
    (stored : Option String) (o : PrivilegeAttributes) (field : PrivilegeAttributes → String)
    {name : String}
    → or_else stored (some (field o)) ≡ some name
    → NameFrom stored (some o) field name
or_else-NameFrom none o field h = output_name o refl refl (cc)
or_else-NameFrom (some n) o field h = stored_name h

module _ {W : Type 0} (c : Context (RdsClients W) W) where
  -- What a read has seen, under the names in `known`.
  record SeenKnown (known : StoredPrivilege) (a : PrivilegeAttributes) (s u : W) : Type 0 where
    pub observed : ObservedPrivilege
    pub instance_known : known.instance_id ≡ some a.instance_id
    pub account_known : known.account_name ≡ some a.account_name
    pub database_known : known.database_name ≡ some a.database_name
    pub seen :
        get_privilege c a.instance_id a.account_name a.database_name s ≡ (ok (some observed), u)
    pub same_privilege : observed.account_privilege ≡ some a.privilege
    pub same_detail : observed.account_privilege_detail ≡ a.detail
    pub is_allowed : is_privilege (some a.privilege) ≡ true

  of_observed-cases :
      (props : String → PrivilegeProps) (v : Option ObservedPrivilege) {a : PrivilegeAttributes}
      → of_observed c props v ≡ some a
      → (o : ObservedPrivilege) × (p : String) × (v ≡ some o)
        × (o.account_privilege ≡ some p)
        × (is_privilege (some p) ≡ true)
        × (privilege_attributes (props p) o.account_privilege_detail ≡ a)
  of_observed-cases props none h = cc
  of_observed-cases props (some o) {a} h = of_name o.account_privilege refl h
    where
      of_name :
          (name : Option String)
          → o.account_privilege ≡ name
          → elim name [
            | none ↦ none
            | some p ↦
                if is_privilege (some p)
                then some (privilege_attributes (props p) o.account_privilege_detail)
                else none
          ]
            ≡ some a
          → (q : ObservedPrivilege) × (p : String) × (some o ≡ some q)
            × (q.account_privilege ≡ some p)
            × (is_privilege (some p) ≡ true)
            × (privilege_attributes (props p) q.account_privilege_detail ≡ a)
      of_name none e x = cc
      of_name (some p) e x = elim (Bool-cases (is_privilege (some p))) [
        | inl y ↦ let z = rw y at x in (o, p, refl, e, y, cc z)
        | inr n ↦ let z = rw n at x in cc z
      ]

  read_if_known-SeenKnown :
      (known : StoredPrivilege) (i n d : Option String) (a : PrivilegeAttributes) (s u : W)
      → known.instance_id ≡ i
      → known.account_name ≡ n
      → known.database_name ≡ d
      → read_if_known c i n d s ≡ (ok (some a), u)
      → SeenKnown known a s u
  unfolding privilege_attributes
  read_if_known-SeenKnown known none n d a s u p q r h = cc
  read_if_known-SeenKnown known (some i) none d a s u p q r h = cc
  read_if_known-SeenKnown known (some i) (some n) none a s u p q r h = cc
  read_if_known-SeenKnown known (some i) (some n) (some d) a s u p q r h =
      let props : String → PrivilegeProps = λ privilege. record {
        instance_id = i;
        account_name = n;
        database_name = d;
        privilege = privilege;
      } in
      let (v, t, after, first) = chain-steps (get_privilege c i n d) _ s h in
      let (made, same) = ok_injective after in
      let (o, privilege, e, named, allowed, is) = of_observed-cases props v made in
      subst (λ z. SeenKnown known z s u) is
        (record {
          observed = o;
          instance_known = p;
          account_known = q;
          database_known = r;
          seen = first ∙ (λ j. (ok (e j), same j));
          same_privilege = named;
          same_detail = refl;
          is_allowed = allowed;
        })

  -- What a read has seen of the privilege that it returns.
  pub record SeenPrivilege (olds : StoredPrivilege) (output : Option PrivilegeAttributes)
      (a : PrivilegeAttributes) (s u : W) : Type 0 where
    pub observed : ObservedPrivilege
    pub instance_from : NameFrom olds.instance_id output (λ o. o.instance_id) a.instance_id
    pub account_from : NameFrom olds.account_name output (λ o. o.account_name) a.account_name
    pub database_from : NameFrom olds.database_name output (λ o. o.database_name) a.database_name
    pub seen :
        get_privilege c a.instance_id a.account_name a.database_name s ≡ (ok (some observed), u)
    pub same_privilege : observed.account_privilege ≡ some a.privilege
    pub same_detail : observed.account_privilege_detail ≡ a.detail
    pub is_allowed : Allowed a.privilege

  SeenKnown-Seen :
      (olds : StoredPrivilege) (output : Option PrivilegeAttributes) (a : PrivilegeAttributes)
      {s u : W}
      → SeenKnown (known_privilege olds output) a s u
      → SeenPrivilege olds output a s u
  unfolding known_privilege
  SeenKnown-Seen olds none a k = record {
    observed = k.observed;
    instance_from = stored_name k.instance_known;
    account_from = stored_name k.account_known;
    database_from = stored_name k.database_known;
    seen = k.seen;
    same_privilege = k.same_privilege;
    same_detail = k.same_detail;
    is_allowed = is_privilege-Allowed a.privilege k.is_allowed;
  }
  SeenKnown-Seen olds (some o) a k = record {
    observed = k.observed;
    instance_from = or_else-NameFrom olds.instance_id o (λ x. x.instance_id) k.instance_known;
    account_from = or_else-NameFrom olds.account_name o (λ x. x.account_name) k.account_known;
    database_from = or_else-NameFrom olds.database_name o (λ x. x.database_name) k.database_known;
    seen = k.seen;
    same_privilege = k.same_privilege;
    same_detail = k.same_detail;
    is_allowed = is_privilege-Allowed a.privilege k.is_allowed;
  }

  -- A privilege that a read returns is that of the instance, the account and the database in the
  -- stored inputs, or in the output where the stored inputs lack the name; `get` saw it at these
  -- names, with its detail; and it is ReadWrite, ReadOnly, DDLOnly, DMLOnly or DBOwner.
  pub read_privilege-Seen :
      (olds : StoredPrivilege) (output : Option PrivilegeAttributes) (a : PrivilegeAttributes)
      (s u : W)
      → read_privilege c olds output s ≡ (ok (some a), u)
      → SeenPrivilege olds output a s u
  unfolding read_privilege
  read_privilege-Seen olds output a s u h =
      SeenKnown-Seen olds output a
        (read_if_known-SeenKnown (known_privilege olds output) _ _ _ a s u refl refl refl h)
