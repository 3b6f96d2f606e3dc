-- ===== src/Validator/Dispatched.antt =====
-- Every instruction keeps the stacks' invariant: the `switch` of `wasm_loader_prepare_bytecode`
-- (core/iwasm/common/wasm_loader.c).
use wasm2native.Access.Bulk.{table-IsMoved, handle_op_misc-IsMoved}
use wasm2native.Access.Opened.{
  handle_op_access-IsMoved, handle_op_memory_size-IsMoved, handle_op_const-IsMoved,
}
use wasm2native.Atomic.Opened.{handle_op_atomic-IsMoved}
use wasm2native.Common.{ℕ, true, ◌||◌, List, arith, leb, ◌==◌}
use wasm2native.Common.Ensures.{
  Ensures, holds, refused, Ensures-bind, Ensures-if, Ensures-ok, Ensures-mono,
}
use wasm2native.Common.Outcome.{Result, unsupported_opcode}
use wasm2native.Control.Closed.{IsNext, moved, handle_op_else-IsMoved, handle_op_end-IsNext}
use wasm2native.Control.Opened.{handle_op_block_and_loop-IsMoved, handle_op_if-IsMoved}
use wasm2native.Frames.{IsOpen, IsMoved}
use wasm2native.Frames.Opened.{reset_stack-IsOpen}
use wasm2native.Jumps.Opened.{
  handle_op_br-IsMoved, handle_op_br_if-IsMoved, handle_op_br_table-IsMoved,
  handle_op_return-IsOpen, handle_op_call-IsMoved, handle_op_call_indirect-IsMoved,
}
use wasm2native.Opcodes.{between, numeric_signature}
use wasm2native.Opcodes.Typed.{numeric-typed}
use wasm2native.Operands.{LoaderContext}
use wasm2native.Program.{Scope}
use wasm2native.Program.Typed.{IsTyped}
use wasm2native.Validator.{
  with_rest, handle_unreachable, handle_control, handle_variable, handle_numeric, handle_op,
}
use wasm2native.Variables.Dropped.{handle_op_drop-IsOpen}
use wasm2native.Variables.Opened.{
  handle_op_get_local-IsMoved, handle_op_set_local-IsMoved, handle_op_tee_local-IsMoved,
  handle_op_get_global-IsMoved, handle_op_set_global-IsMoved,
}
use wasm2native.Variables.Selected.{handle_op_select-IsOpen}
use wasm2native.Vector.Opened.{handle_op_simd-IsMoved}
use wasm2native.Wasm.{BlockType}

module _ (s : Scope) (typed : IsTyped s) (root : BlockType) (ctx : LoaderContext) (p : List ℕ)
    (o : IsOpen root ctx) where
  next :
      {r : Result (LoaderContext × List ℕ)}
      → Ensures (IsMoved root p) r
      → Ensures (IsNext root ctx p) r
  next h = Ensures-mono h λ out m. moved m

  stay :
      (r : Result LoaderContext)
      → Ensures (IsOpen root) r
      → Ensures (IsNext root ctx p) (with_rest p r)
  unfolding IsMoved
  stay r h = Ensures-bind r λ c e. holds (moved (Ensures-ok h e, omega arith))

  unreachable-IsOpen : Ensures (IsOpen root) (handle_unreachable ctx)
  unfolding handle_unreachable
  unreachable-IsOpen = reset_stack-IsOpen root ctx true o

  handle_control-IsNext : (opcode : ℕ) → Ensures (IsNext root ctx p) (handle_control s opcode ctx p)
  unfolding handle_control IsMoved
  handle_control-IsNext opcode =
      Ensures-if (opcode == 0x00) (λ _. stay (handle_unreachable ctx) unreachable-IsOpen)
        λ _.
          Ensures-if (opcode == 0x01) (λ _. holds (moved (o, omega arith)))
            λ _.
              Ensures-if (opcode == 0x04) (λ _. next (handle_op_if-IsMoved s typed root ctx p o))
                λ _.
                  Ensures-if (between 0x02 0x03 opcode)
                    (λ _. next (handle_op_block_and_loop-IsMoved s typed root opcode ctx p o))
                    λ _.
                      Ensures-if (opcode == 0x05)
                        (λ _. stay _ (handle_op_else-IsMoved s root ctx o))
                        λ _.
                          Ensures-if (opcode == 0x0b) (λ _. handle_op_end-IsNext s root ctx p o)
                            λ _.
                              Ensures-if (opcode == 0x0c)
                                (λ _. next (handle_op_br-IsMoved s root ctx p o))
                                λ _.
                                  Ensures-if (opcode == 0x0d)
                                    (λ _. next (handle_op_br_if-IsMoved s root ctx p o))
                                    λ _.
                                      Ensures-if (opcode == 0x0e)
                                        (λ _. next (handle_op_br_table-IsMoved s root ctx p o))
                                        λ _.
                                          Ensures-if (opcode == 0x0f)
                                            (λ _.
                                              stay _ (handle_op_return-IsOpen s typed root ctx o))
                                            λ _. refused

  handle_variable-IsNext :
      (opcode : ℕ) → Ensures (IsNext root ctx p) (handle_variable s opcode ctx p)
  unfolding handle_variable
  handle_variable-IsNext opcode =
      Ensures-if (opcode == 0x10 || opcode == 0x12)
        (λ _. next (handle_op_call-IsMoved s typed root (opcode == 0x12) ctx p o))
        λ _.
          Ensures-if (opcode == 0x11 || opcode == 0x13)
            (λ _. next (handle_op_call_indirect-IsMoved s typed root (opcode == 0x13) ctx p o))
            λ _.
              Ensures-if (opcode == 0x1a) (λ _. stay _ (handle_op_drop-IsOpen root ctx p o))
                λ _.
                  Ensures-if (opcode == 0x1b) (λ _. stay _ (handle_op_select-IsOpen s root ctx p o))
                    λ _.
                      Ensures-if (opcode == 0x20)
                        (λ _. next (handle_op_get_local-IsMoved s typed root ctx p o))
                        λ _.
                          Ensures-if (opcode == 0x21)
                            (λ _. next (handle_op_set_local-IsMoved s typed root ctx p o))
                            λ _.
                              Ensures-if (opcode == 0x22)
                                (λ _. next (handle_op_tee_local-IsMoved s typed root ctx p o))
                                λ _.
                                  Ensures-if (opcode == 0x23)
                                    (λ _. next (handle_op_get_global-IsMoved s typed root ctx p o))
                                    λ _.
                                      Ensures-if (opcode == 0x24)
                                        (λ _.
                                          next (handle_op_set_global-IsMoved s typed root ctx p o))
                                        λ _. refused

  handle_numeric-IsNext : (opcode : ℕ) → Ensures (IsNext root ctx p) (handle_numeric s opcode ctx p)
  unfolding handle_numeric
  handle_numeric-IsNext opcode = next (
      table-IsMoved s root ctx p p (numeric_signature opcode) unsupported_opcode
        (numeric-typed opcode) (omega arith) o)

  -- Every instruction that the code accepts, where some block is open and the module's types are value types,
  -- leaves stacks on which the operands of each open block lie whole above those of the blocks around it;
  -- the outermost block stays the function's until its end, and no instruction gives bytes back but the end
  -- of an `if` without `else`, once.
  pub handle_op-IsNext : (opcode : ℕ) → Ensures (IsNext root ctx p) (handle_op s opcode ctx p)
  unfolding handle_op
  handle_op-IsNext opcode =
      Ensures-if (leb opcode 0x0f) (λ _. handle_control-IsNext opcode)
        λ _.
          Ensures-if (leb opcode 0x27) (λ _. handle_variable-IsNext opcode)
            λ _.
              Ensures-if (leb opcode 0x3e)
                (λ _. next (handle_op_access-IsMoved s root ctx p o opcode))
                λ _.
                  Ensures-if (leb opcode 0x40)
                    (λ _. next (handle_op_memory_size-IsMoved s root ctx p o (opcode == 0x40)))
                    λ _.
                      Ensures-if (leb opcode 0x44)
                        (λ _. next (handle_op_const-IsMoved s root ctx p o opcode))
                        λ _.
                          Ensures-if (opcode == 0xfc)
                            (λ _. next (handle_op_misc-IsMoved s root ctx p o))
                            λ _.
                              Ensures-if (opcode == 0xfd)
                                (λ _. next (handle_op_simd-IsMoved s root ctx p o))
                                λ _.
                                  Ensures-if (opcode == 0xfe)
                                    (λ _. next (handle_op_atomic-IsMoved s opcode root ctx p o))
                                    λ _. handle_numeric-IsNext opcode
