-- ===== src/Validator/Sourced.antt =====
-- From the sections of a module to the validator of its functions (core/iwasm/common/wasm_loader.c): the
-- types that the validator relies on are those that the sections' loaders have checked.
use wasm2native.Common.{
  ℕ, zero, suc, ◌+◌, ◌*◌, ◌^◌, ◌-◌, ◌≡◌, refl, Bool, true, not, ◌||◌, Option, some, List, [], ◌∷◌,
  arith, length, get_elem?, take, All, ltb, leb, ◌==◌, if◌then◌else◌,
}
use wasm2native.Common.Ensures.{
  Ensures, holds, Ensures-bind, Ensures-then, Ensures-check, Ensures-reject, Ensures-if, Ensures-ok,
}
use wasm2native.Common.Outcome.{ok, ◌>>◌}
use wasm2native.Functions.{
  WasmFunction, count_locals, load_local_types, init_function_local_offsets, load_function_body,
  load_functions, read_count, load_function_section,
}
use wasm2native.Functions.Locals.{load_local_types-count}
use wasm2native.Globals.{load_global_section}
use wasm2native.Globals.Checked.{IsSoundGlobal, load_global_section-IsSound}
use wasm2native.Imports.Typed.{
  IsTypedImports, require_type-IsTypedType, load_import_section-IsTypedImports,
}
use wasm2native.Imports.{require_type, load_import_section}
use wasm2native.Leb.{read_leb_uint32}
use wasm2native.Loader.{Host, functions_array, function_entry, loader_malloc, is_value_type}
use wasm2native.Program.{Scope}
use wasm2native.Program.Typed.{IsTypedType, IsTypedFunction, IsTypedGlobal, All-get_elem?}
use wasm2native.Types.{TypeTable, all_value_types, load_type_section}
use wasm2native.Types.Entries.{IsWellFormed}
use wasm2native.Types.Section.{load_type_section-IsLoaded}
use wasm2native.Validator.{wasm_loader_prepare_bytecode}
use wasm2native.Validator.Ended.{IsValidated, wasm_loader_prepare_bytecode-IsValidated}
use wasm2native.Wasm.{WasmType, func, wasm_get_cell_num}

All-map :
    {A : Type 0} (P Q : A → Type 0) (xs : List A) → ((x : A) → P x → Q x) → All P xs → All Q xs
All-map P Q [] f h = tt
All-map P Q (x ∷ xs) f (h, hs) = (f x h, All-map P Q xs f hs)

all_value_types-of_All :
    (ts : List ℕ) → All (λ t. is_value_type t ≡ true) ts → all_value_types ts ≡ true
unfolding all_value_types
all_value_types-of_All [] h = refl
all_value_types-of_All (t ∷ ts) (h, hs) = ground (arith, all_value_types-of_All ts hs)

body_typed :
    (host : Host) (n i : ℕ) (t : WasmType) (p_code : List ℕ)
    → IsTypedType t
    → Ensures
        (λ (out : WasmFunction × List ℕ). IsTypedFunction out.0)
        (load_function_body host n i t p_code)
unfolding load_function_body IsTypedFunction
body_typed host n i t p_code typed = Ensures-bind (read_leb_uint32 p_code) λ (code_size, p1) _.
    Ensures-reject (code_size == 0 || ltb (length p1) code_size) _ λ _.
      Ensures-bind (read_leb_uint32 p1) λ (sets, p2) _.
        Ensures-bind (count_locals sets 0 p2) λ (total, p3) counted.
          Ensures-then (loader_malloc host (function_entry i) (host.sizeof_function + total)) λ _.
            Ensures-bind (load_local_types total sets [] p2) λ ls filled.
              Ensures-reject (ltb 0xFFFF (wasm_get_cell_num ls 0)) _ λ _.
                Ensures-bind (init_function_local_offsets host i (take t.param_count t.types) ls)
                  λ _ _. holds (
                    typed,
                    all_value_types-of_All ls
                        (load_local_types-count sets total p2 p3 ls counted filled).1,
                  )

module _ (types : TypeTable) (objects : All IsTypedType types.objects) where
  functions_typed :
      (host : Host) (n left i : ℕ) (p p_code : List ℕ)
      → Ensures
          (λ (out : List WasmFunction × List ℕ). All IsTypedFunction out.0)
          (load_functions host types n left i p p_code)
  unfolding load_functions
  functions_typed host n zero i p p_code = holds tt
  functions_typed host n (suc left) i p p_code =
      Ensures-bind (read_leb_uint32 p) λ (type_index, p1) _.
        Ensures-reject (leb (length types.types) type_index) _ λ _.
          Ensures-bind (require_type types type_index) λ t e.
            Ensures-bind (load_function_body host n i t p_code) λ (f, p_code1) e1.
              Ensures-bind (load_functions host types n left (i + 1) p1 p_code1) λ (fs, p2) e2.
                holds (
                  Ensures-ok
                      (body_typed host n i t p_code
                        (Ensures-ok (require_type-IsTypedType types objects type_index) e))
                      e1,
                  Ensures-ok (functions_typed host n left (i + 1) p1 p_code1) e2,
                )

  functions_loaded :
      (host : Host) (n : ℕ) (buf : Option (List ℕ)) (p : List ℕ)
      → Ensures (All IsTypedFunction) (load_function_section host types n buf p)
  unfolding load_function_section
  functions_loaded host n buf p = Ensures-bind (read_leb_uint32 p) λ (func_count, p1) _.
      Ensures-bind (read_count buf) λ (code_count, p_code) _.
        Ensures-reject (not (func_count == code_count)) _ λ _.
          Ensures-reject (ltb (2 ^ 32 - 1 - n) func_count) _ λ _. Ensures-bind _ λ out e.
            Ensures-check (length out.1 == 0) _
              λ _. holds (Ensures-ok (loaded func_count p1 p_code) e)
    where
      loaded :
          (count : ℕ) (p p_code : List ℕ)
          → Ensures
              (λ (out : List WasmFunction × List ℕ). All IsTypedFunction out.0)
              (if count == 0
                then ok ([], p)
                else (loader_malloc host functions_array (host.sizeof_pointer * count)
                    >> load_functions host types n count 0 p p_code))
      loaded count p p_code =
          Ensures-if (count == 0) (λ _. holds tt)
            (λ _.
              Ensures-then (loader_malloc host functions_array (host.sizeof_pointer * count))
                λ _. functions_typed host n count 0 p p_code)

-- Where the loaders of the type, import, function and global sections have each succeeded, the
-- validator of any of the functions ends within its fuel, whatever bytes stand behind the code section where
-- the size of its code goes beyond that. It refuses the code or accepts it, and then no block is open, the
-- operands are exactly the function's results, and the maxima that it hands on are at most 65535, no
-- less than the height that the stack has.
pub wasm_loader_prepare_bytecode_loaded :
    (host : Host) (from_file : Bool) (s : Scope) (i import_function_count : ℕ)
    (names names' : List (List ℕ)) (buf_type buf_import buf_func buf_global : List ℕ)
    (buf_code : Option (List ℕ))
    → load_type_section host buf_type ≡ ok s.wasm_module.types
    → load_import_section host s.wasm_module.types from_file names buf_import
      ≡ ok (s.wasm_module.loaded.imports, names')
    → load_function_section host s.wasm_module.types import_function_count buf_code buf_func
      ≡ ok s.wasm_module.loaded.functions
    → load_global_section host s.wasm_module.loaded.imports.globals buf_global
      ≡ ok s.wasm_module.globals
    → get_elem? s.wasm_module.loaded.functions i ≡ some s.func
    → IsValidated (func s.func.func_type) (wasm_loader_prepare_bytecode s)
unfolding IsTypedType IsTypedImports IsTypedGlobal IsSoundGlobal
wasm_loader_prepare_bytecode_loaded host from_file s i n names names' pt pi pf pg buf et ei ef eg
      found =
    let w = s.wasm_module in
    let objects : All IsTypedType w.types.objects =
      All-map IsWellFormed IsTypedType w.types.objects (λ t h. h.value_types)
        (load_type_section-IsLoaded host pt w.types et).well_formed in
    let imports : IsTypedImports w.loaded.imports =
      Ensures-ok (load_import_section-IsTypedImports w.types objects host from_file names pi) ei in
    let functions : All IsTypedFunction w.loaded.functions =
      Ensures-ok (functions_loaded w.types objects host n buf pf) ef in
    wasm_loader_prepare_bytecode-IsValidated s (record {
      types = objects;
      imports = imports.0;
      functions = functions;
      import_globals = imports.1;
      globals =
          All-map (IsSoundGlobal w.loaded.imports.globals) IsTypedGlobal w.globals (λ g h. h.0)
            (load_global_section-IsSound host w.loaded.imports.globals pg w.globals eg);
      func = All-get_elem? IsTypedFunction w.loaded.functions i s.func functions found;
    })
