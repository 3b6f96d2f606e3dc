-- ===== src/Common/Outcome.antt =====
-- The outcome of a step of the loader: a value, or the message that `set_error_buf` writes.
use mathlib.Core.Path.{◌≡◌, refl}
use mathlib.Core.Logic.{◌⊎◌, inl, inr}
use mathlib.Core.Bool.{Bool, true, false}

-- One constructor for each message of core/iwasm/common/wasm_loader.c that a modelled function
-- writes. Messages with a printed argument keep only their fixed part.
pub data LoadError : Type 0 where
  unexpected_end_of_section unexpected_end : LoadError
  representation_too_long integer_too_large offset_out_of_range : LoadError
  allocate_memory_failed invalid_utf8 : LoadError
  const_type_mismatch illegal_const_opcode : LoadError
  unknown_global constant_expression_required : LoadError
  invalid_type_flag counts_too_large unknown_value_type ref_count_too_large : LoadError
  section_size_mismatch : LoadError
  unknown_type incompatible_import_type incompatible_or_unknown_import : LoadError
  size_minimum_too_large memory_too_large memory64_too_large invalid_limits_flags : LoadError
  shared_memory_needs_maximum tables_cannot_be_shared : LoadError
  type_mismatch invalid_mutability : LoadError
  multiple_tables multiple_memories invalid_import_kind : LoadError
  inconsistent_lengths function_count_too_large global_count_too_large : LoadError
  invalid_function_code_size too_many_locals invalid_local_count invalid_local_type : LoadError
  local_count_too_large unknown_function unknown_table unknown_memory : LoadError
  length_out_of_bounds duplicate_export_name invalid_export_kind : LoadError
  zero_byte_expected invalid_element_kind invalid_start_function : LoadError
  unexpected_content invalid_section_id : LoadError
  magic_not_detected unknown_version : LoadError
  stack_was_empty expect_other_type operand_stack_limit label_stack_limit : LoadError
  block_stack_was_empty unknown_label stack_size_mismatch else_without_if : LoadError
  alignment_too_large unknown_local global_is_immutable unsupported_opcode : LoadError
  br_table_arity return_count_mismatch unknown_data_segment data_count_required : LoadError
  drop_stack_was_empty select_stack_was_empty unknown_memory_0 invalid_simd_opcode : LoadError
  unexpected_end_of_function : LoadError
  end_expected invalid_lane_index alignment_not_natural no_memarg : LoadError

-- A message, or what the step hands on.
pub data Result {ℓ} (Out : Type ℓ) : Type ℓ where
  err : LoadError → Result Out
  ok : Out → Result Out

-- `if (!test) { set_error_buf(message); return false; }`
abbrev pub check : Bool → LoadError → Result (Unit {0})
check false message = err message
check true message = ok tt

-- `if (bad) { set_error_buf(message); return false; }`
abbrev pub reject : Bool → LoadError → Result (Unit {0})
reject false message = ok tt
reject true message = err message

-- The next step, unless this one has failed; the second form is for steps that hand nothing on.
infixl 5 ◌>>=◌
abbrev pub ◌>>=◌ {ℓ ℓ'} :
    {Out : Type ℓ} {Next : Type ℓ'} (step : Result Out) (next : Out → Result Next) → Result Next
err message >>= next = err message
ok out >>= next = next out

infixl 5 ◌>>◌
abbrev pub ◌>>◌ {ℓ'} :
    {Next : Type ℓ'} (step : Result (Unit {0})) (next : Result Next) → Result Next
step >> next = step >>= λ out. next

pub check-eq-ok : (b : Bool) (message : LoadError) → check b message ≡ ok tt → b ≡ true
check-eq-ok false message h = cc
check-eq-ok true message h = refl

pub Result-cases {ℓ} :
    {Out : Type ℓ} (r : Result Out)
    → ((out : Out) × (r ≡ ok out)) ⊎ ((message : LoadError) × (r ≡ err message))
Result-cases (err message) = inr (message, refl)
Result-cases (ok out) = inl (out, refl)
