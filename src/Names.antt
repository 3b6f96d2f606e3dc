-- ===== src/Names.antt =====
-- The names in a module: `const_str_list_insert` of core/iwasm/common/wasm_loader.c.
use wasm2native.Common.{
  ℕ, ◌+◌, Bool, false, List, [], ◌∷◌, length, ◌==◌, same_bytes, if◌then◌else◌, ◌||◌,
}
use wasm2native.Common.Outcome.{Result, ok, ◌>>◌, check, invalid_utf8}
use wasm2native.Loader.{Host, string_node, loader_malloc}
use wasm2native.Utf8.{check_utf8_str}

-- Whether a string stands in the list already.
unfoldable pub listed : List ℕ → List (List ℕ) → Bool
listed str [] = false
listed str (node ∷ nodes) = same_bytes node str || listed str nodes

-- The string, and the module's list of strings after the call; `n` numbers the calls of a load. A
-- string of the file's own buffer is moved one byte back, over its length, and ended by a zero, and
-- stays there: no byte that is still to be read changes.
unfoldable pub const_str_list_insert :
    Host → ℕ → List ℕ → Bool → List (List ℕ) → Result (List ℕ × List (List ℕ))
const_str_list_insert host n str is_load_from_file_buf const_str_list =
    check (check_utf8_str str) invalid_utf8
    >> (if length str == 0
        then ok ([], const_str_list)
        else if is_load_from_file_buf
        then ok (str, const_str_list)
        else if listed str const_str_list
        then ok (str, const_str_list)
        else (loader_malloc host (string_node n) (host.sizeof_string_node + length str + 1)
            >> ok (str, str ∷ const_str_list)))
