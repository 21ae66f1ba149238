-- ===== src/Examples/Catalogs.antt =====
-- Manifests that are registered, linked and started.
use warden_core.Prelude.{◌≡◌, refl, true, false, some}
use warden_core.Catalog.Checked.{ok, each, all}
use warden_core.Catalog.Steps.{to_capability}
use warden_core.Catalog.Tighten.{apply_tighten_overrides}
use warden_core.Catalog.Sagas.{Blueprint, SagaStepRef, SagaStep, validate_authoring}
use warden_core.Catalog.Hydrate.{hydrate_authoring_node, hydrate_authoring_blueprint}
use warden_core.Catalog.Tables.{Row, find_row, collect_authoring_step_refs, link}
use warden_core.Catalog.Freeze.{freeze_node, hydrate_to_frozen_steps}
use warden_core.Catalog.Registry.{
  saga_row, saga_manifest, check_manifest, set_definition_active, upsert_saga_definition,
}
use warden_core.Linking.Immutable.{Change, Changes, Immutable, Changes-Immutable}
use warden_core.Linking.Wiring.{Wired, hydrate_authoring_blueprint-Wired}
use warden_core.Linking.Stable.{is_active_at}
use warden_core.Linking.Again.{validate_authoring-Settled}
use warden_core.Linking.Starts.{check_manifest-hydrates, upsert_saga_definition-found}
use warden_core.Linking.Frozen.{
  row_ids, frozen_loop_ids, UniqueIds, hydrate_to_frozen_steps-UniqueIds,
}
use warden_core.Catalog.Freeze.{frozen_spec, embed_resolved_assets}
use warden_core.Linking.Loads.{is_ok, is_loadable, load_catalog_for_authoring-is_ok}
use warden_core.Linking.Once.{Table, slot_of, kind_of_table, apply_write-once}
use warden_core.Catalog.Checked.{refused, immutable_version}
use warden_core.Catalog.Registry.{worker_row, apply_write, create_definition}
use warden_core.Linking.Narrow.{NoWider, overridden, apply_tighten_overrides-NoWider}
use warden_core.Examples.Data.{services}
use warden_core.Catalog.Tighten.{apply_hitl_overrides}
use warden_core.Catalog.Tighten.{override_hitl}
use warden_core.Catalog.Tighten.{override_retries}
use warden_core.Catalog.Tighten.{override_guidance}
use warden_core.Catalog.Tighten.{override_timeout}
use warden_core.Catalog.Tighten.{override_limits}
use warden_core.Catalog.Sagas.{valid_node}
use warden_core.Catalog.Sagas.{valid_ref}
use warden_core.Catalog.Parts.{non_empty}
use warden_core.Text.{is_blank}
use warden_core.Catalog.Checked.{each_some}
use warden_core.Catalog.Sagas.{valid_native}
use warden_core.Catalog.Sagas.{valid_task}
use warden_core.Catalog.Sagas.{valid_spawn}
use warden_core.Catalog.Sagas.{jsonpath_must_start_with_dollar}
use warden_core.Catalog.Sagas.{ensure_unique_ids}
use warden_core.Catalog.Checked.{distinct}
use warden_core.Catalog.Sagas.{iter_authoring_executable_ids}
use warden_core.Catalog.Sagas.{executable_ids}
use warden_core.Catalog.Sagas.{loop_ids}
use warden_core.Catalog.Parts.{exactly_one_of_from_or_value}
use warden_core.Catalog.Sagas.{join_targets}
use warden_core.Catalog.Sagas.{natives}
use warden_core.Catalog.Sagas.{spawn_ids}
use warden_core.Catalog.Sagas.{valid_loop}
use warden_core.Catalog.Sagas.{validate_spawn_join_wiring}
use warden_core.Text.{is_prefix}
use warden_core.Text.{lstrip}
use warden_core.Text.{rstrip}
use warden_core.Text.{strip}
use warden_core.Catalog.Hydrate.{resolved_step}
use warden_core.Catalog.Hydrate.{hydrate_step_ref}
use warden_core.Catalog.Hydrate.{validate_with_against_inputs}
use warden_core.Catalog.Hydrate.{validate_saga_step}
use warden_core.Catalog.Steps.{valid_work}
use warden_core.Catalog.Steps.{assert_work}
use warden_core.Catalog.Hydrate.{literal_fits}
use warden_core.Catalog.Parts.{bind_keys_non_empty_unique}
use warden_core.Catalog.Parts.{simple_agent_adapter_constraints}
use warden_core.Catalog.Parts.{skill_name_non_empty}
use warden_core.Catalog.Parts.{valid_extractor}
use warden_core.Catalog.Parts.{validate_exactly_one_tool}
use warden_core.Catalog.Steps.{assert_adapter}
use warden_core.Catalog.Steps.{display_title}
use warden_core.Catalog.Tighten.{tighten_int_field}
use warden_core.Catalog.Tighten.{tighten_optional_token_cap}
use warden_core.Catalog.Tables.{load_catalog_for_authoring}
use warden_core.Catalog.Tables.{collect_refs}
use warden_core.Catalog.Tables.{add_refs}
use warden_core.Catalog.Tables.{gather_all}
use warden_core.Catalog.Tables.{load_step_blueprint}
use warden_core.Catalog.Steps.{parse_step_blueprint}
use warden_core.Catalog.Tables.{loaded_step}
use warden_core.Catalog.Sagas.{validate_hydrated}
use warden_core.Catalog.Sagas.{iter_executable_step_ids}
use warden_core.Catalog.Registry.{collect_saga_registration_workers}
use warden_core.Catalog.Registry.{node_workers}
use warden_core.Catalog.Registry.{register_executable}
use warden_core.Catalog.Registry.{validate_files}
use warden_core.Catalog.Registry.{validate_reason_assets}
use warden_core.Catalog.Registry.{validate_step_policy}
use warden_core.Catalog.Registry.{facts_compile}
use warden_core.Catalog.Registry.{assert_dependencies_registered}
use warden_core.Catalog.Registry.{assert_registered}
use warden_core.Catalog.Registry.{flatten}
use warden_core.Catalog.Registry.{resolve_worker_from_compensation}
use warden_core.Catalog.Registry.{require_active}
use warden_core.Prelude.{exists, find_first, keep}
use warden_core.Examples.Shop.{
  check_order, stricter, strict, disk, ordering, clerk, row_of, catalog, closed, resolve, hydrated,
  frozen, opening, other_clerk, clerk_slot,
}

apply_tighten_overrides-NoWider_example :
    (strict ≡ overridden stricter (to_capability check_order))
    × NoWider (to_capability check_order) (overridden stricter (to_capability check_order))
unfolding to_capability apply_tighten_overrides apply_hitl_overrides override_hitl override_retries
    override_guidance override_timeout override_limits
apply_tighten_overrides-NoWider_example =
    apply_tighten_overrides-NoWider stricter (to_capability check_order) refl

closing : Changes services disk catalog closed
closing =
    Changes.later Changes.none
      (Change.switch_worker "shop" (record { name = "clerk"; version = "1" }) false refl)

Changes-Immutable_example : Immutable catalog closed
Changes-Immutable_example = Changes-Immutable closing

ordering_valid : validate_authoring (λ p. true) ordering ≡ ok ordering
unfolding validate_authoring each valid_node valid_ref non_empty is_blank each_some valid_native
    valid_task valid_spawn jsonpath_must_start_with_dollar ensure_unique_ids distinct
    iter_authoring_executable_ids executable_ids loop_ids all exactly_one_of_from_or_value
    join_targets natives spawn_ids valid_loop validate_spawn_join_wiring is_prefix lstrip rstrip
    strip exists
ordering_valid = refl

ordering_hydrates : each (hydrate_authoring_node services resolve) ordering.steps ≡ ok hydrated
unfolding each hydrate_authoring_node resolved_step hydrate_step_ref validate_with_against_inputs
    all apply_tighten_overrides apply_hitl_overrides override_hitl override_retries
    override_guidance override_timeout override_limits validate_saga_step to_capability valid_work
    each_some assert_work distinct literal_fits bind_keys_non_empty_unique non_empty
    simple_agent_adapter_constraints skill_name_non_empty valid_extractor validate_exactly_one_tool
    assert_adapter display_title tighten_int_field tighten_optional_token_cap is_blank is_prefix
    lstrip rstrip strip exists
ordering_hydrates = refl

hydrate_authoring_blueprint-Wired_example :
    (hydrate_authoring_blueprint services resolve (λ p. true) ordering
      ≡ ok (record {
        name = "order";
        namespace = "shop";
        version = "1";
        description = "";
        steps = hydrated;
      }))
    × Wired services resolve ordering.steps hydrated
hydrate_authoring_blueprint-Wired_example =
    hydrate_authoring_blueprint-Wired services resolve (λ p. true) ordering ordering_valid
      ordering_hydrates

ordering_passes :
    check_manifest services disk catalog (saga_manifest ordering) ≡ ok (saga_row ordering)
unfolding validate_authoring each valid_node valid_ref non_empty is_blank each_some valid_native
    valid_task valid_spawn jsonpath_must_start_with_dollar ensure_unique_ids distinct
    iter_authoring_executable_ids executable_ids loop_ids all exactly_one_of_from_or_value
    join_targets natives spawn_ids valid_loop validate_spawn_join_wiring is_prefix lstrip rstrip
    strip hydrate_authoring_node resolved_step hydrate_step_ref validate_with_against_inputs
    apply_tighten_overrides apply_hitl_overrides override_hitl override_retries override_guidance
    override_timeout override_limits validate_saga_step to_capability valid_work assert_work
    literal_fits bind_keys_non_empty_unique simple_agent_adapter_constraints skill_name_non_empty
    valid_extractor validate_exactly_one_tool assert_adapter display_title tighten_int_field
    tighten_optional_token_cap check_manifest link load_catalog_for_authoring
    collect_authoring_step_refs collect_refs add_refs gather_all load_step_blueprint
    parse_step_blueprint loaded_step hydrate_authoring_blueprint validate_hydrated
    iter_executable_step_ids collect_saga_registration_workers node_workers register_executable
    validate_files validate_reason_assets validate_step_policy facts_compile
    assert_dependencies_registered assert_registered flatten set_definition_active
    resolve_worker_from_compensation require_active exists find_first keep
ordering_passes = refl

-- The references of the saga are active still after the worker was switched off.
refs_live : all (is_active_at "shop" closed.steps) (collect_authoring_step_refs ordering) ≡ true
unfolding all collect_authoring_step_refs exists find_first
refs_live = refl

check_manifest-hydrates_example :
    (h : Blueprint SagaStep) × (link services (λ p. true) catalog.steps "shop" ordering ≡ ok h)
    × (hydrate_to_frozen_steps disk services closed.steps (row_of "order" ordering)
        ≡ each (freeze_node disk) h.steps)
check_manifest-hydrates_example =
    check_manifest-hydrates services disk catalog closed ordering ordering ordering_passes closing
      (row_of "order" ordering) refl refl refs_live

validate_authoring-Settled_example : validate_authoring (λ p. true) ordering ≡ ok ordering
validate_authoring-Settled_example =
    validate_authoring-Settled (λ p. true) ordering ordering ordering_valid

upsert_saga_definition-found_example :
    (r : Row (Blueprint SagaStepRef)) × (find_row "shop" "order" "1"
        (upsert_saga_definition ordering catalog.sagas)
      ≡ some r)
    × (r.body ≡ ordering)
upsert_saga_definition-found_example = upsert_saga_definition-found ordering catalog.sagas

ordering_freezes :
    hydrate_to_frozen_steps disk services catalog.steps (row_of "order" ordering) ≡ ok frozen
unfolding validate_authoring each valid_node valid_ref non_empty is_blank each_some valid_native
    valid_task valid_spawn jsonpath_must_start_with_dollar ensure_unique_ids distinct
    iter_authoring_executable_ids executable_ids loop_ids all exactly_one_of_from_or_value
    join_targets natives spawn_ids valid_loop validate_spawn_join_wiring is_prefix lstrip rstrip
    strip hydrate_authoring_node resolved_step hydrate_step_ref validate_with_against_inputs
    apply_tighten_overrides apply_hitl_overrides override_hitl override_retries override_guidance
    override_timeout override_limits validate_saga_step to_capability valid_work assert_work
    literal_fits bind_keys_non_empty_unique simple_agent_adapter_constraints skill_name_non_empty
    valid_extractor validate_exactly_one_tool assert_adapter display_title tighten_int_field
    tighten_optional_token_cap link load_catalog_for_authoring collect_authoring_step_refs
    collect_refs add_refs gather_all load_step_blueprint parse_step_blueprint loaded_step
    hydrate_authoring_blueprint validate_hydrated iter_executable_step_ids exists find_first
    hydrate_to_frozen_steps freeze_node frozen_spec embed_resolved_assets
ordering_freezes = refl

hydrate_to_frozen_steps-UniqueIds_example : UniqueIds (row_ids frozen) (frozen_loop_ids frozen)
hydrate_to_frozen_steps-UniqueIds_example =
    hydrate_to_frozen_steps-UniqueIds disk services catalog.steps (row_of "order" ordering)
      ordering_freezes

load_catalog_for_authoring-is_ok_example :
    is_ok (load_catalog_for_authoring catalog.steps "shop" ordering)
    ≡ all (is_loadable catalog.steps "shop") (collect_authoring_step_refs ordering)
load_catalog_for_authoring-is_ok_example =
    load_catalog_for_authoring-is_ok catalog.steps "shop" ordering

clerk_takes : slot_of (worker_row clerk) ≡ some clerk_slot
unfolding slot_of
clerk_takes = refl

other_clerk_takes : slot_of (worker_row other_clerk) ≡ some clerk_slot
unfolding slot_of
other_clerk_takes = refl

clerk_registers : apply_write (worker_row clerk) opening ≡ ok catalog
unfolding apply_write create_definition exists
clerk_registers = refl

apply_write-once_example :
    apply_write (worker_row other_clerk) closed
    ≡ refused (immutable_version (kind_of_table Table.worker_table) clerk_slot.pin)
apply_write-once_example =
    apply_write-once (worker_row clerk) (worker_row other_clerk) clerk_slot opening catalog closed
      clerk_takes other_clerk_takes clerk_registers closing
