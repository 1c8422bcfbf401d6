-- ===== src/Vpc/Snat/Operations.antt =====
-- The operations of src/vpc/snat-entry.ts.
use Prim.Native.String.{◌++◌ as ◌<>◌}
use alchemy_alibaba.Prelude.{
  String, Bool, true, false, not, ◌&&◌, ◌||◌, Option, none, some, if◌then◌else◌, filter, str_eq,
}
use alchemy_alibaba.Effect.{Effect, succeed, raise}
use alchemy_alibaba.Effect.Chain.{◌>>=◌, ◌>>◌}
use alchemy_alibaba.Errors.{Failure, vpc}
use alchemy_alibaba.Errors.Classify.{get_or, or_else}
use alchemy_alibaba.Lifecycle.Identity.{
  unique_match, require_region, require_value, physical_name, invariant_error,
}
use alchemy_alibaba.Lifecycle.Paginate.{paginate}
use alchemy_alibaba.Lifecycle.Wait.{wait_for_present, wait_for_absent}
use alchemy_alibaba.Provider.{
  Context, call, wait_label, Plan, keep, replace, replace_first, is_given, is_text, when, planned,
  widen, ignore_missing, run, page_or_empty,
}
use alchemy_alibaba.Vpc.Client.{VpcClients, SdkSnat}
use alchemy_alibaba.Vpc.Snat.{
  SnatEntryProps, SnatEntryAttributes, PlannedSnat, snat_type, output_region, output_id,
  output_name, props_of, is_snat, snat_differs, is_ready, snat_settled,
}

module _ {W : Type 0} (c : Context (VpcClients W) W) where
  -- `get`
  unfoldable pub get_snat : SnatEntryProps → Option String → Effect W Failure (Option SdkSnat)
  get_snat props snat_entry_id =
      paginate
        (record {
          service = vpc;
          operation = "DescribeSnatTableEntries";
          page_size = none;
          max_pages = none;
        })
        (λ number size. page_or_empty (
          call c vpc "DescribeSnatTableEntries" (
            c.clients.describe_snat_table_entries (record {
              region_id = c.clients.region_id;
              snat_table_id = props.snat_table_id;
              snat_entry_id = snat_entry_id;
              source_v_switch_id =
                  if is_given snat_entry_id then none else some props.source_v_switch_id;
              page_number = number;
              page_size = size;
            }))))
      >>= λ items. unique_match (filter (is_snat props snat_entry_id) items) snat_type

  -- `attrs`
  unfoldable pub snat_attributes : SnatEntryProps → SdkSnat → Effect W Failure SnatEntryAttributes
  snat_attributes props v =
      require_value v.snat_entry_id snat_type "Read" "Missing SNAT entry id" >>= λ entry_id.
      succeed (record {
        snat_table_id = props.snat_table_id;
        source_v_switch_id = props.source_v_switch_id;
        snat_ip = get_or v.snat_ip props.snat_ip;
        name = v.snat_entry_name;
        snat_entry_id = entry_id;
        region_id = c.clients.region_id;
      })

  abbrev pub snat_needs_update : SnatEntryProps → SnatEntryAttributes → Option SdkSnat → Bool
  snat_needs_update news output none = true
  snat_needs_update news output (some v) = snat_differs news (or_else news.name output.name) v

  abbrev diff_observed : SnatEntryProps → Option SnatEntryAttributes → Effect W Failure Plan
  diff_observed news none = succeed keep
  diff_observed news (some output) = do
    here ← require_region snat_type c.clients.region_id (some output.region_id)
    value ← get_snat news (some output.snat_entry_id)
    planned (snat_needs_update news output value)

  abbrev diff_resolved :
      SnatEntryProps → SnatEntryProps → Option SnatEntryAttributes → Effect W Failure Plan
  diff_resolved olds news output =
      if str_eq olds.snat_table_id news.snat_table_id
        && str_eq olds.source_v_switch_id news.source_v_switch_id
      then diff_observed news output
      else succeed replace

  -- `diff`
  unfoldable pub diff_snat :
      SnatEntryProps → PlannedSnat → Option SnatEntryAttributes → Effect W Failure Plan
  unfolding get_snat snat_differs
  diff_snat olds news output = elim news.snat_table_id [
    | none ↦ succeed replace_first
    | some table_id ↦ elim news.source_v_switch_id [
      | none ↦ succeed replace_first
      | some v_switch_id ↦ elim news.rest [
        | none ↦ succeed keep
        | some (ip, name) ↦
            diff_resolved olds
              (record {
                snat_table_id = table_id;
                source_v_switch_id = v_switch_id;
                snat_ip = ip;
                name = name;
              })
              output
      ]
    ]
  ]

  abbrev reading : SnatEntryProps → Option SdkSnat → Effect W Failure (Option SnatEntryAttributes)
  reading olds none = succeed none
  reading olds (some v) = snat_attributes olds v >>= λ a. succeed (some a)

  -- `read`
  unfoldable pub read_snat :
      SnatEntryProps → Option SnatEntryAttributes → Effect W Failure (Option SnatEntryAttributes)
  unfolding get_snat snat_attributes
  read_snat olds output =
      require_region snat_type c.clients.region_id (output_region output) >>= λ here.
      if str_eq olds.snat_table_id ""
      then succeed none
      else get_snat olds (output_id output) >>= reading olds

  abbrev moved : SnatEntryProps → Option SnatEntryAttributes → Bool
  moved news none = false
  moved news (some o) =
      not (str_eq o.snat_table_id news.snat_table_id)
      || not (str_eq o.source_v_switch_id news.source_v_switch_id)

  -- The entry of the resource stays in its table and with its switch.
  unfoldable pub require_same_source :
      SnatEntryProps → Option SnatEntryAttributes → Effect W Failure (Unit {0})
  require_same_source news output =
      if moved news output
      then raise (
          invariant_error snat_type "ReconcileIdentity"
            "SNAT source or table changed without a replacement plan; re-plan before continuing")
      else succeed tt

  -- An entry of another name that has the switch already.
  unfoldable pub refuse_other :
      String → Option SnatEntryAttributes → Option SdkSnat → Effect W Failure (Unit {0})
  refuse_other name none (some v) =
      if is_text name v.snat_entry_name
      then succeed tt
      else raise (
          invariant_error snat_type "Recover" "Another SNAT entry already owns this source vSwitch")
  refuse_other name output value = succeed tt

  unfoldable pub create_if_missing :
      String → SnatEntryProps → String → Option SdkSnat → Effect W Failure SdkSnat
  unfolding get_snat
  create_if_missing instance_id news name (some v) = succeed v
  create_if_missing instance_id news name none = do
    response ← widen (
        call c vpc "CreateSnatEntry" (
          c.clients.create_snat_entry (record {
            region_id = c.clients.region_id;
            snat_table_id = news.snat_table_id;
            source_v_switch_id = news.source_v_switch_id;
            snat_ip = news.snat_ip;
            snat_entry_name = name;
            client_token = "create-" <> instance_id;
          })))
    entry_id ← require_value response snat_type "CreateSnatEntry" "Missing SNAT entry id"
    wait_for_present c.runtime (wait_label c vpc "CreateSnatEntry") is_ready
        (get_snat news (some entry_id))

  abbrev modify_snat : String → String → SnatEntryProps → Effect W Failure (Unit {0})
  modify_snat entry_id name news = run (
      call c vpc "ModifySnatEntry" (
        c.clients.modify_snat_entry (record {
          region_id = c.clients.region_id;
          snat_table_id = news.snat_table_id;
          snat_entry_id = entry_id;
          snat_ip = news.snat_ip;
          snat_entry_name = name;
        })))

  -- `reconcile`
  unfoldable pub reconcile_snat :
      String
      → String
      → SnatEntryProps
      → Option SnatEntryAttributes
      → Effect W Failure SnatEntryAttributes
  unfolding get_snat require_same_source refuse_other create_if_missing
  reconcile_snat id instance_id news output = do
    here ← require_region snat_type c.clients.region_id (output_region output)
    name ←
        physical_name c.alchemy.create_physical_name id (or_else news.name (output_name output)) 128
    stays ← require_same_source news output
    found ← get_snat news (output_id output)
    allowed ← refuse_other name output found
    value ← create_if_missing instance_id news name found
    entry_id ← require_value value.snat_entry_id snat_type "Read" "Missing SNAT entry id"
    modified ← when (snat_differs news (some name) value) (modify_snat entry_id name news)
    wait_for_present c.runtime (wait_label c vpc "ReconcileSnatEntry") (snat_settled news name)
          (get_snat news (some entry_id))
        >>= snat_attributes news

  abbrev request_deletion : SnatEntryAttributes → SdkSnat → Effect W Failure (Unit {0})
  request_deletion output v = when (not (is_text "Deleting" v.status)) (
      ignore_missing (
        call c vpc "DeleteSnatEntry" (
          c.clients.delete_snat_entry (record {
            region_id = c.clients.region_id;
            snat_table_id = output.snat_table_id;
            snat_entry_id = output.snat_entry_id;
          }))))

  abbrev remove : SnatEntryAttributes → Option SdkSnat → Effect W Failure (Unit {0})
  remove output none = succeed tt
  remove output (some v) =
      request_deletion output v
      >> wait_for_absent c.runtime (wait_label c vpc "DeleteSnatEntry")
          (get_snat (props_of output) (some output.snat_entry_id))

  -- `delete`
  unfoldable pub delete_snat : SnatEntryAttributes → Effect W Failure (Unit {0})
  unfolding get_snat
  delete_snat output =
      require_region snat_type c.clients.region_id (some output.region_id) >>= λ here.
      get_snat (props_of output) (some output.snat_entry_id) >>= remove output
