-- ===== src/Core/Faults.antt =====
-- The exceptions that the modelled code raises. The constructors under `ValueFault` name the
-- messages of its `ValueError`s.
use mathlib.Core.Bool.{Bool, true, false}

pub data ValueFault : Type 0 where
  -- A pydantic field constraint (`min_length`, `ge`) is not met.
  invalid_field : ValueFault
  constraint_ids_not_unique outcome_ids_not_unique : ValueFault
  steps_not_contiguous : ValueFault
  ladder_empty ordinals_not_contiguous stage_ids_not_unique trajectory_ids_not_unique : ValueFault
  not_improving : ValueFault
  tasks_overlap exposed_ids_not_unique : ValueFault
  reference_ids_not_unique tiers_out_of_order : ValueFault
  unsupported_seed arguments_given unsupported_action action_unavailable : ValueFault
  would_overshoot unsupported_verifier action_text_required : ValueFault
  unsupported_family target_too_small combo_cap_not_positive : ValueFault
  aliases_not_unique forbidden_count distance_too_small : ValueFault
  position_required no_strict_gap no_leap ladder_not_improving unpack_mismatch : ValueFault
  validity_unchecked success_unchecked performance_missing completion_invalid : ValueFault
  threshold_without_success optimum_without_success actions_without_success : ValueFault
  censoring_unpaired reason_without_censoring success_censored empty_sequence : ValueFault
  negative_length window_too_long identity_required unknown_mode : ValueFault
  blank_identity negative_identity duplicate_identity wrong_window_length : ValueFault
  not_causal_window not_same_multiset short_window_changed not_derangement : ValueFault

pub data ReplayFault : Type 0 where
  wrong_task complete_at_reset after_completion : ReplayFault
  rejected_action state_hash_mismatch final_hash_mismatch : ReplayFault

pub data ReferenceFault : Type 0 where
  no_trajectory_id wrong_trajectory not_eligible wrong_performance : ReferenceFault

pub data Fault : Type 0 where
  value_error : ValueFault → Fault
  key_error : Fault
  runtime_error : Fault
  type_error : Fault
  assertion_error : Fault
  zero_division : Fault
  index_error : Fault
  -- `Phase3SelectionError`, a subclass of `ValueError`.
  selection_error : Fault
  -- `ReplayError` and `ReferenceValidationError` are subclasses of `ValueError`.
  replay_error : ReplayFault → Fault
  reference_error : ReferenceFault → Fault

-- What `except (TypeError, ValueError)` catches.
abbrev pub is_value_error : Fault → Bool
is_value_error (value_error v) = true
is_value_error (replay_error r) = true
is_value_error (reference_error r) = true
is_value_error key_error = false
is_value_error runtime_error = false
is_value_error type_error = true
is_value_error assertion_error = false
is_value_error zero_division = false
is_value_error index_error = false
is_value_error selection_error = true
