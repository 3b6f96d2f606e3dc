-- ===== src/Program/Typed.antt =====
-- The types that the validator of a function's code finds in the module are value types
-- (core/iwasm/common/wasm_loader.c).
use mathlib.Core.Path.{subst}
use wasm2native.Common.{
  ℕ, zero, suc, ◌+◌, ◌%◌, ◌^◌, leb, Option, none, ◌-◌, ◌<◌, ◌≡◌, refl, Bool, true, some, List, [],
  ◌∷◌, arith, length, get_elem?, take, drop, All, ltb, if◌then◌else◌,
}
use wasm2native.Common.Ensures.{
  Ensures, holds, Ensures-bind, Ensures-then, Ensures-reject, Ensures-if, Ensures-ok,
  Ensures-option,
}
use wasm2native.Common.Outcome.{unknown_type, unknown_function, unknown_local, unknown_global}
use wasm2native.Functions.{WasmFunction, check_function_index}
use wasm2native.Globals.{GlobalImport, WasmGlobal}
use wasm2native.Imports.{FunctionImport}
use wasm2native.Leb.{read_leb_uint32}
use wasm2native.Leb.Takes.{read_leb_uint32_takes}
use wasm2native.Loader.{is_value_type}
use wasm2native.Program.{
  Scope, offset_value_type, type_of, imported_type, own_type, called_type, local_at,
  read_local_type, imported_global, own_global, global_at,
}
use wasm2native.Segments.{Loaded}
use wasm2native.Types.{type_at, all_value_types}
use wasm2native.Wasm.{WasmType, func, block_type_get_param_types, block_type_get_result_types}

unfoldable pub IsValue : ℕ → Type 0
IsValue t = is_value_type t ≡ true

unfoldable pub IsTypedType : WasmType → Type 0
IsTypedType t = all_value_types t.types ≡ true

unfoldable pub IsTypedImport : FunctionImport → Type 0
unfolding IsTypedType
IsTypedImport f = IsTypedType f.func_type

unfoldable pub IsTypedFunction : WasmFunction → Type 0
unfolding IsTypedType
IsTypedFunction f = IsTypedType f.func_type × (all_value_types f.local_types ≡ true)

unfoldable pub IsTypedGlobalImport : GlobalImport → Type 0
IsTypedGlobalImport g = is_value_type g.type ≡ true

unfoldable pub IsTypedGlobal : WasmGlobal → Type 0
IsTypedGlobal g = is_value_type g.type ≡ true

-- All types that the sections have given are value types, as the loader checks when it reads them.
pub record IsTyped (s : Scope) : Type 0 where
  pub types : All IsTypedType s.wasm_module.types.objects
  pub imports : All IsTypedImport s.wasm_module.loaded.imports.functions
  pub functions : All IsTypedFunction s.wasm_module.loaded.functions
  pub import_globals : All IsTypedGlobalImport s.wasm_module.loaded.imports.globals
  pub globals : All IsTypedGlobal s.wasm_module.globals
  pub func : IsTypedFunction s.func

pub All-get_elem? :
    {A : Type 0} (P : A → Type 0) (xs : List A) (i : ℕ) (x : A)
    → All P xs
    → get_elem? xs i ≡ some x
    → P x
All-get_elem? P [] i x all found = absurd (ground arith)
All-get_elem? P (y ∷ ys) zero x all found = let same : y ≡ x = cc in subst P same all.0
All-get_elem? P (y ∷ ys) (suc i) x all found = All-get_elem? P ys i x all.1 found

all_value_types-take :
    (n : ℕ) (ts : List ℕ) → all_value_types ts ≡ true → all_value_types (take n ts) ≡ true
unfolding all_value_types
all_value_types-take zero ts h = refl
all_value_types-take (suc n) [] h = refl
all_value_types-take (suc n) (t ∷ ts) h = ground (arith, all_value_types-take n ts)

all_value_types-drop :
    (n : ℕ) (ts : List ℕ) → all_value_types ts ≡ true → all_value_types (drop n ts) ≡ true
unfolding all_value_types
all_value_types-drop zero ts h = h
all_value_types-drop (suc n) [] h = h
all_value_types-drop (suc n) (t ∷ ts) h = ground (arith, all_value_types-drop n ts)

pub param_types-all :
    (t : WasmType) → IsTypedType t → all_value_types (block_type_get_param_types (func t)) ≡ true
unfolding block_type_get_param_types IsTypedType
param_types-all t typed = all_value_types-take t.param_count t.types typed

pub result_types-all :
    (t : WasmType) → IsTypedType t → all_value_types (block_type_get_result_types (func t)) ≡ true
unfolding block_type_get_result_types IsTypedType
result_types-all t typed =
    all_value_types-take t.result_count (drop t.param_count t.types)
      (all_value_types-drop t.param_count t.types typed)

pub offset_value_type-value : (m : Loaded) → is_value_type (offset_value_type m) ≡ true
unfolding offset_value_type is_value_type
offset_value_type-value m = ground arith

all_value_types-All : (ts : List ℕ) → all_value_types ts ≡ true → All IsValue ts
unfolding all_value_types IsValue
all_value_types-All [] h = tt
all_value_types-All (t ∷ ts) h = (ground arith, all_value_types-All ts (ground arith))

local_at-IsValue :
    (ts : List ℕ) (i : ℕ) → all_value_types ts ≡ true → Ensures IsValue (local_at ts i)
unfolding local_at
local_at-IsValue ts i all =
    Ensures-option (get_elem? ts i) unknown_local
      λ t found. holds (All-get_elem? IsValue ts i t (all_value_types-All ts all) found)

pub object-typed :
    (place : Option ℕ) (objects : List WasmType) (t : WasmType)
    → All IsTypedType objects
    → elim place as (λ _. Option WasmType) [ none ↦ none | some a ↦ get_elem? objects a ] ≡ some t
    → IsTypedType t
object-typed none objects t all found = absurd (ground arith)
object-typed (some a) objects t all found = All-get_elem? IsTypedType objects a t all found

module _ (s : Scope) (typed : IsTyped s) where
  pub type_of-typed : (i : ℕ) → Ensures IsTypedType (type_of s.wasm_module i)
  unfolding type_of type_at
  type_of-typed i = Ensures-option (type_at s.wasm_module.types i) unknown_type λ t found. holds (
      object-typed (get_elem? s.wasm_module.types.types i) s.wasm_module.types.objects t typed.types
        found)

  pub called_type-typed : (i : ℕ) → Ensures IsTypedType (called_type s.wasm_module.loaded i)
  unfolding called_type imported_type own_type IsTypedImport IsTypedFunction
  called_type-typed i =
      let m = s.wasm_module.loaded in
      Ensures-then (check_function_index (length m.imports.functions) (length m.functions) i) λ _.
        Ensures-if (ltb i (length m.imports.functions))
          (λ _. Ensures-option (get_elem? m.imports.functions i) unknown_function λ f found.
            holds (All-get_elem? IsTypedImport m.imports.functions i f typed.imports found))
          λ _.
            let j = i - length m.imports.functions in
            Ensures-option (get_elem? m.functions j) unknown_function λ f found.
              holds ((All-get_elem? IsTypedFunction m.functions j f typed.functions found).0)

  pub global_at-value :
      (i : ℕ) → Ensures (λ (g : ℕ × Bool). is_value_type g.0 ≡ true) (global_at s.wasm_module i)
  unfolding global_at imported_global own_global IsTypedGlobalImport IsTypedGlobal
  global_at-value i =
      let imports = s.wasm_module.loaded.imports.globals in
      Ensures-reject (leb ((length imports + length s.wasm_module.globals) % 2 ^ 32) i) _ λ _.
        Ensures-if (ltb i (length imports))
          (λ _. Ensures-option (get_elem? imports i) unknown_global λ g found.
            holds (All-get_elem? IsTypedGlobalImport imports i g typed.import_globals found))
          λ _.
            let j = i - length imports in
            Ensures-option (get_elem? s.wasm_module.globals j) unknown_global λ g found.
              holds (All-get_elem? IsTypedGlobal s.wasm_module.globals j g typed.globals found)

  pub read_local_type-value :
      (p : List ℕ)
      → Ensures
          (λ (out : ℕ × List ℕ). (is_value_type out.0 ≡ true) × (length out.1 < length p))
          (read_local_type s.func p)
  unfolding read_local_type IsValue IsTypedFunction IsTypedType
  read_local_type-value p = Ensures-bind (read_leb_uint32 p) λ (i, rest) e.
      let count = s.func.func_type.param_count in
      Ensures-reject (leb ((count + length s.func.local_types) % 2 ^ 32) i) _ λ _.
        Ensures-bind
          (if ltb i count
            then local_at s.func.func_type.types i
            else local_at s.func.local_types (i - count))
          λ t e'. holds (
            Ensures-ok
                (Ensures-if (ltb i count)
                  (λ _. local_at-IsValue s.func.func_type.types i typed.func.0)
                  (λ _. local_at-IsValue s.func.local_types (i - count) typed.func.1))
                e',
            (read_leb_uint32_takes p i rest e).0,
          )
