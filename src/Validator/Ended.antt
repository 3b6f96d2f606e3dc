-- ===== src/Validator/Ended.antt =====
-- The validator of a function's code ends, and what it accepts is a body that ends with the function's
-- results (`wasm_loader_prepare_bytecode` of core/iwasm/common/wasm_loader.c).
use mathlib.Core.Path.{subst}
use wasm2native.Common.{
  ℕ, zero, suc, ◌+◌, ◌-◌, ◌*◌, ◌≤◌, ◌≡◌, refl, sym, ◌∙◌, ap, true, false, Option, none, some, List,
  [], ◌∷◌, arith, length, ltb, if◌then◌else◌,
}
use wasm2native.Common.Ensures.{
  Ensures, holds, Ensures-bind, Ensures-then, Ensures-ok, Ensures-mono,
}
use wasm2native.Common.Outcome.{
  Result, ok, err, LoadError, ◌>>=◌, end_expected, unexpected_end_of_function,
}
use wasm2native.Control.Left.{IsEnded}
use wasm2native.Control.Closed.{pending, IsNext, moved, ended, doubled}
use wasm2native.Frames.{
  frame_blocks, AreFrames, frame_refs, IsStacked, IsOpen, IsMoved, bottom_type,
}
use wasm2native.Frames.Entered.{push_frame_csp-IsStacked}
use wasm2native.Operands.{LoaderContext, BranchBlock, memory_realloc}
use wasm2native.Program.{Scope}
use wasm2native.Program.Typed.{IsTyped, IsTypedFunction, param_types-all, result_types-all}
use wasm2native.Validator.{
  handle_op, run, wasm_loader_ctx_init, enter_function, leave_function,
  wasm_loader_prepare_bytecode, code_bytes,
}
use wasm2native.Validator.Dispatched.{handle_op-IsNext}
use wasm2native.Wasm.{BlockType, func, label_type_function}

-- How the loop ends: with an error, or behind the last byte, where a block is still open or none is.
pub data HasRun (root : BlockType) : Option (Result LoaderContext) → Type 0 where
  failed : {e : LoadError} → HasRun root (some (err e))
  unfinished : {c : LoaderContext} → IsOpen root c → HasRun root (some (ok c))
  finished : {c : LoaderContext} → IsEnded root c → HasRun root (some (ok c))

pending_small : (blocks : List BranchBlock) → pending blocks ≤ 1
unfolding pending
pending_small [] = omega arith
pending_small (b ∷ blocks) = ground arith

run-nil : (fuel : ℕ) (s : Scope) (c : LoaderContext) → run fuel s c [] ≡ some (ok c)
unfolding run
run-nil zero s c = refl
run-nil (suc fuel) s c = refl

module _ (s : Scope) (root : BlockType) (fuel : ℕ) (ctx : LoaderContext) (p : List ℕ)
    (enough : 2 * (length p + 1) + pending ctx.frame_csp ≤ fuel + 1)
    (rest_runs : (c : LoaderContext) (rest : List ℕ)
      → IsOpen root c
      → 2 * length rest + pending c.frame_csp ≤ fuel
      → HasRun root (run fuel s c rest)) where
  next-HasRun :
      (out : LoaderContext × List ℕ) → IsNext root ctx p out → HasRun root (run fuel s out.0 out.1)
  unfolding IsMoved
  next-HasRun out (moved (o, shorter)) =
      rest_runs out.0 out.1 o (omega (arith, pending_small out.0.frame_csp))
  next-HasRun out (ended {c} done) = subst (HasRun root) (sym (run-nil fuel s c)) (finished done)
  next-HasRun out (doubled {c} o before after) =
      rest_runs c (0x0b ∷ p) o (omega (arith, before, after))

  step-HasRun :
      (r : Result (LoaderContext × List ℕ))
      → Ensures (IsNext root ctx p) r
      → HasRun root (elim r [ err message ↦ some (err message) | ok (ctx, p) ↦ run fuel s ctx p ])
  step-HasRun (err e) h = failed
  step-HasRun (ok out) h = next-HasRun out (Ensures-ok h refl)

-- From an open block, the loop ends within so many rounds.
pub run-HasRun :
    (s : Scope) (root : BlockType) (fuel : ℕ) (ctx : LoaderContext) (p : List ℕ)
    → IsTyped s
    → IsOpen root ctx
    → 2 * length p + pending ctx.frame_csp ≤ fuel
    → HasRun root (run fuel s ctx p)
unfolding run
run-HasRun s root zero ctx [] typed o enough = unfinished o
run-HasRun s root zero ctx (b ∷ p) typed o enough = absurd (omega arith)
run-HasRun s root (suc fuel) ctx [] typed o enough = unfinished o
run-HasRun s root (suc fuel) ctx (b ∷ p) typed o enough =
    step-HasRun s root fuel ctx p (omega arith)
      (λ c rest o' enough'. run-HasRun s root fuel c rest typed o' enough') (handle_op s b ctx p)
      (handle_op-IsNext s typed root ctx p o b)

ctx_init-IsStacked : (s : Scope) → Ensures (IsStacked []) (wasm_loader_ctx_init s)
unfolding wasm_loader_ctx_init frame_refs frame_blocks AreFrames
ctx_init-IsStacked s = Ensures-then (memory_realloc s.grow s.sizeof_context) λ _.
    Ensures-then (memory_realloc s.grow 32) λ _.
      Ensures-then (memory_realloc s.grow (s.sizeof_block * 8)) λ _. holds (record {
        refs = refl;
        csp = refl;
        frames = tt;
        height = omega arith;
        cells_bounded = omega arith;
        blocks_bounded = omega arith;
      })

enter_function-IsOpen :
    (s : Scope) → IsTyped s → Ensures (IsOpen (func s.func.func_type)) (enter_function s)
unfolding enter_function IsOpen bottom_type IsTypedFunction
enter_function-IsOpen s typed = Ensures-bind (wasm_loader_ctx_init s) λ c e.
    Ensures-mono
      (push_frame_csp-IsStacked s.grow s.sizeof_block [] c label_type_function
        (func s.func.func_type) (param_types-all s.func.func_type typed.func.0)
        (result_types-all s.func.func_type typed.func.0) (Ensures-ok (ctx_init-IsStacked s) e))
      λ c' (f, st, same). (f, [], st, same)

leave_open :
    (s : Scope) (root : BlockType) (c : LoaderContext)
    → IsOpen root c
    → (e : LoadError) × (leave_function s c ≡ err e)
unfolding leave_function IsOpen frame_blocks
leave_open s root c (f, fs, st, bottom) =
    let there : ltb 0 (length c.frame_csp) ≡ true =
      ap (λ l. ltb 0 (length l)) st.csp ∙ ground arith in
    (
      if ltb s.cur_func_idx (length s.wasm_module.loaded.functions - 1)
          then end_expected
          else unexpected_end_of_function,
      rw there,
    )

leave_ended :
    (s : Scope) (root : BlockType) (c : LoaderContext) → IsEnded root c → leave_function s c ≡ ok c
unfolding leave_function
leave_ended s root c done =
    let gone : ltb 0 (length c.frame_csp) ≡ false = ap (λ l. ltb 0 (length l)) done.csp in rw gone

-- What the validator returns: an error, or the context of a body that has ended.
pub data IsValidated (root : BlockType) : Option (Result LoaderContext) → Type 0 where
  refused : {e : LoadError} → IsValidated root (some (err e))
  accepted : {c : LoaderContext} → IsEnded root c → IsValidated root (some (ok c))

left_function :
    (s : Scope) (root : BlockType) (o : Option (Result LoaderContext))
    → HasRun root o
    → IsValidated root (elim o [ none ↦ none | some r ↦ some (r >>= leave_function s) ])
left_function s root r failed = refused
left_function s root r (unfinished {c} o) =
    let (e, h) = leave_open s root c o in subst (λ r. IsValidated root (some r)) (sym h) refused
left_function s root r (finished {c} done) =
    subst (λ r. IsValidated root (some r)) (sym (leave_ended s root c done)) (accepted done)

entered :
    (s : Scope) (r : Result LoaderContext)
    → IsTyped s
    → Ensures (IsOpen (func s.func.func_type)) r
    → IsValidated (func s.func.func_type) (elim r [
      | err message ↦ some (err message)
      | ok ctx ↦
          let code = code_bytes s in
          elim (run (2 * length code + 1) s ctx code) [
            | none ↦ none
            | some r ↦ some (r >>= leave_function s)
          ]
    ])
entered s (err e) typed h = refused
entered s (ok c) typed h =
    let code = code_bytes s in
    left_function s (func s.func.func_type) (run (2 * length code + 1) s c code) (
      run-HasRun s (func s.func.func_type) (2 * length code + 1) c code typed (Ensures-ok h refl)
        (omega (arith, pending_small c.frame_csp)))

-- Where the module's types are value types, the validator of a function's code ends within two rounds for each
-- byte and one more. It refuses the code or accepts it, and then no block is open, the operands are exactly
-- the function's results, and the maxima that it hands on are at most 65535, no less than the
-- height that the stack has.
pub wasm_loader_prepare_bytecode-IsValidated :
    (s : Scope) → IsTyped s → IsValidated (func s.func.func_type) (wasm_loader_prepare_bytecode s)
unfolding wasm_loader_prepare_bytecode
wasm_loader_prepare_bytecode-IsValidated s typed =
    entered s (enter_function s) typed (enter_function-IsOpen s typed)
