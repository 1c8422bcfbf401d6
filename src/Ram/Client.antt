-- ===== src/Ram/Client.antt =====
-- The operations of the RAM client that the providers call, and src/ram/internal.ts: `pages` and
-- `ramTags`.
use alchemy_alibaba.Prelude.{
  ℕ, zero, suc, String, Bool, true, false, List, [], ◌∷◌, ◌++◌, Option, none, some, str_eq, length,
  leb, any,
}
use alchemy_alibaba.Effect.{Effect, succeed, raise, fmap}
use alchemy_alibaba.Effect.Chain.{◌>>=◌, ◌>>◌}
use alchemy_alibaba.Errors.{Failure, ram, pagination_limit}
use alchemy_alibaba.Errors.Classify.{SdkCause, get_or}
use alchemy_alibaba.Lifecycle.Identity.Tags.{TagRecord}
use alchemy_alibaba.Provider.{Context, TagDiff, call, run, when, widen}
use alchemy_alibaba.Provider.Tags.{SdkTag, tag_list, tag_record}

-- A page of a list with markers.
pub record MarkedPage (V : Type 0) : Type 0 where
  pub items : List V
  pub next : Option String

pub record TagQuery : Type 0 where
  pub resource_type : String
  pub resource_names : List String
  pub page_size : ℕ
  pub next_token : Option String

pub record TagBody : Type 0 where
  pub tag_resources : Option (List SdkTag)
  pub next_token : Option String

pub record TagResources : Type 0 where
  pub resource_type : String
  pub resource_names : List String
  pub tag : List SdkTag

pub record UntagResources : Type 0 where
  pub resource_type : String
  pub resource_names : List String
  pub tag_keys : List String
  pub all : Bool

pub record PolicyOfRole : Type 0 where
  pub role_name : String
  pub policy_name : String
  pub policy_type : String

-- A policy that a role has.
pub record AttachedPolicy : Type 0 where
  pub policy_name : Option String
  pub policy_type : Option String

pub record CreateRole : Type 0 where
  pub role_name : String
  pub assume_role_policy_document : String
  pub description : Option String
  pub max_session_duration : ℕ
  pub tag : List SdkTag

pub record UpdateRole : Type 0 where
  pub role_name : String
  pub new_assume_role_policy_document : String
  pub new_description : Option String
  pub new_max_session_duration : ℕ

pub record SdkRole : Type 0 where
  pub role_name : Option String
  pub role_id : Option String
  pub arn : Option String
  pub assume_role_policy_document : Option String
  pub description : Option String
  pub max_session_duration : Option ℕ

pub record RolesBody : Type 0 where
  -- The names of the roles.
  pub roles : Option (List (Option String))
  pub is_truncated : Option Bool
  pub marker : Option String

pub record CreatePolicy : Type 0 where
  pub policy_name : String
  pub policy_document : String
  pub description : Option String
  pub tag : List SdkTag

pub record CreateVersion : Type 0 where
  pub policy_name : String
  pub policy_document : String
  pub set_as_default : Bool
  pub rotate_strategy : String

pub record SdkPolicy : Type 0 where
  pub default_version : Option String
  pub description : Option String
  pub policy_document : Option String

pub record PolicyBody : Type 0 where
  pub policy : Option SdkPolicy
  -- The document of the default version.
  pub default_document : Option String

pub record SdkVersion : Type 0 where
  pub version_id : Option String
  pub is_default_version : Option Bool

pub record RamClients (W : Type 0) : Type 0 where
  pub list_tag_resources : TagQuery → Effect W SdkCause TagBody
  pub tag_resources : TagResources → Effect W SdkCause (Unit {0})
  pub untag_resources : UntagResources → Effect W SdkCause (Unit {0})
  pub list_policies_for_role : String → Effect W SdkCause (Option (List AttachedPolicy))
  pub attach_policy_to_role : PolicyOfRole → Effect W SdkCause (Unit {0})
  pub detach_policy_from_role : PolicyOfRole → Effect W SdkCause (Unit {0})
  pub get_role : String → Effect W SdkCause (Option SdkRole)
  -- A marker and the size of a page.
  pub list_roles : Option String → ℕ → Effect W SdkCause RolesBody
  pub create_role : CreateRole → Effect W SdkCause (Unit {0})
  pub update_role : UpdateRole → Effect W SdkCause (Unit {0})
  pub delete_role : String → Effect W SdkCause (Unit {0})
  -- A name and a type.
  pub get_policy : String → String → Effect W SdkCause PolicyBody
  pub create_policy : CreatePolicy → Effect W SdkCause (Unit {0})
  pub create_policy_version : CreateVersion → Effect W SdkCause (Unit {0})
  -- A name and the new description.
  pub update_policy_description : String → String → Effect W SdkCause (Unit {0})
  pub list_policy_versions : String → Effect W SdkCause (Option (List SdkVersion))
  -- A name and a version.
  pub delete_policy_version : String → String → Effect W SdkCause (Unit {0})
  -- A name, and whether what depends on it goes too.
  pub delete_policy : String → Bool → Effect W SdkCause (Unit {0})

module _ {W V : Type 0} (operation : String)
    (fetch : Option String → Effect W Failure (MarkedPage V)) where
  abbrev pub too_many_pages : List V → Effect W Failure (List V)
  too_many_pages found = raise (
      pagination_limit (record {
        service = ram;
        operation = operation;
        page_size = 100;
        max_pages = 200;
        observed_items = length found;
        reported_total = none;
      }))

  -- The rest of a round: the end, a marker that came before, or the next page.
  abbrev pub after_page :
      (Option String → List String → List V → Effect W Failure (List V))
      → List String
      → List V
      → MarkedPage V
      → Effect W Failure (List V)
  after_page more visited found page =
      let all = found ++ page.items in
      elim page.next [
        | none ↦ succeed all
        | some marker ↦ elim (str_eq marker "") [
          | true ↦ succeed all
          | false ↦ elim (any (str_eq marker) visited) [
            | true ↦ too_many_pages all
            | false ↦ more (some marker) (marker ∷ visited) all
          ]
        ]
      ]

  -- The loop of `pages`, with the pages left, the marker, the markers before and the items so far.
  unfoldable pub follow_markers :
      ℕ → Option String → List String → List V → Effect W Failure (List V)
  follow_markers zero marker visited found = too_many_pages found
  follow_markers (suc left) marker visited found =
      fetch marker >>= after_page (follow_markers left) visited found

  -- `pages`
  unfoldable pub pages : Effect W Failure (List V)
  unfolding follow_markers
  pages = follow_markers 200 none [] []

abbrev is_filled : {A : Type 0} → List A → Bool
is_filled xs = leb 1 (length xs)

abbrev tag_page : TagBody → MarkedPage SdkTag
tag_page b = record { items = get_or b.tag_resources []; next = b.next_token }

module _ {W : Type 0} (c : Context (RamClients W) W) (resource_type : String) where
  -- `read` of `ramTags`
  unfoldable pub read_tags : String → Effect W Failure TagRecord
  unfolding pages
  read_tags name =
      pages "ListTagResources" (λ token. widen (
        fmap tag_page (
          call c ram "ListTagResources" (
            c.clients.list_tag_resources (record {
              resource_type = resource_type;
              resource_names = name ∷ [];
              page_size = 100;
              next_token = token;
            })))))
      >>= λ items. succeed (tag_record (some items))

  abbrev send_tags : String → TagDiff → Effect W Failure (Unit {0})
  send_tags name d =
      when (is_filled d.upsert) (
        run (
          call c ram "TagResources" (
            c.clients.tag_resources (record {
              resource_type = resource_type;
              resource_names = name ∷ [];
              tag = tag_list d.upsert;
            }))))
      >> when (is_filled d.removed) (
          run (
            call c ram "UntagResources" (
              c.clients.untag_resources (record {
                resource_type = resource_type;
                resource_names = name ∷ [];
                tag_keys = d.removed;
                all = false;
              }))))

  -- `sync` of `ramTags`
  unfoldable pub sync_tags : String → TagRecord → Effect W Failure (Unit {0})
  unfolding read_tags
  sync_tags name desired =
      read_tags name >>= λ observed. send_tags name (c.alchemy.diff_tags observed desired)
