-- ===== src/Sections.antt =====
-- The sections of a file: `create_sections`, and the header that `load` reads before it
-- (core/iwasm/common/wasm_loader.c).
pub mod Layout
use wasm2native.Common.{
  ℕ, zero, suc, ◌+◌, ◌%◌, ◌^◌, Bool, true, false, not, ◌&&◌, Option, none, some, List, [], ◌∷◌,
  length, take, drop, leb, ◌==◌, if◌then◌else◌, same_bytes,
}
use wasm2native.Common.Outcome.{
  Result, ok, err, ◌>>=◌, ◌>>◌, check, reject, unexpected_content, invalid_section_id,
  magic_not_detected, unknown_version,
}
use wasm2native.Leb.{Read, read_leb_uint32}
use wasm2native.Loader.{Host, section_entry, loader_malloc, need1, read_uint8}

-- WASMSection: the body with its size as a list of bytes.
pub record Section : Type 0 where
  pub section_type : ℕ
  pub section_index : ℕ
  pub section_body : List ℕ

-- The ids in the order that the format prescribes: the data count stands before the code.
abbrev pub section_ids : List ℕ
section_ids = 0 ∷ 1 ∷ 2 ∷ 3 ∷ 4 ∷ 5 ∷ 6 ∷ 7 ∷ 8 ∷ 9 ∷ 12 ∷ 10 ∷ 11 ∷ []

-- (uint8)-1
abbrev pub no_index : ℕ
no_index = 0xFF

-- The loop over the table, from place `i` on.
unfoldable pub index_from : List ℕ → ℕ → ℕ → ℕ
index_from [] i section_type = no_index
index_from (id ∷ ids) i section_type =
    let rest = index_from ids (i + 1) section_type in if section_type == id then i else rest

unfoldable pub get_section_index : ℕ → ℕ
get_section_index section_type = index_from section_ids 0 section_type

-- Custom sections may stand anywhere; the others occur once, in the prescribed order. The index of
-- the last section that is not custom, or `no_index`.
unfoldable pub next_index : ℕ → ℕ → Result ℕ
next_index last_section_index section_type =
    let section_index = get_section_index section_type in
    if section_type == 0
    then ok last_section_index
    else (reject (not (last_section_index == no_index) && leb section_index last_section_index)
          unexpected_content
        >> ok section_index)

-- One round of the loop: the section, the last index and the bytes that are left. The new object is
-- the `n`th.
unfoldable pub read_section : Host → ℕ → ℕ → List ℕ → Read (Section × ℕ)
read_section host n last_section_index p = do
  (section_type, p) ← read_uint8 p
  reject (get_section_index section_type == no_index) invalid_section_id
  last_section_index ← next_index last_section_index section_type
  (section_size, p) ← read_leb_uint32 p
  need1 section_size p
  loader_malloc host (section_entry n) host.sizeof_section
  ok (
    (
      record { section_type = section_type; section_index = n; section_body = take section_size p },
      last_section_index,
    ),
    drop section_size p,
  )

unfoldable pub link_section :
    Section → Option (Result (List Section)) → Option (Result (List Section))
link_section section none = none
link_section section (some (err e)) = some (err e)
link_section section (some (ok sections)) = some (ok (section ∷ sections))

-- `while (p < p_end)` on fuel: `none` is the lack of it, which `Layout.create_sections_total`
-- excludes. `section_count` is a uint32.
unfoldable pub sections_from : Host → ℕ → ℕ → ℕ → List ℕ → Option (Result (List Section))
sections_from host fuel n last_section_index [] = some (ok [])
sections_from host zero n last_section_index (b ∷ p) = none
sections_from host (suc fuel) n last_section_index (b ∷ p) =
    elim (read_section host n last_section_index (b ∷ p)) [
      | err e ↦ some (err e)
      | ok ((section, last), rest) ↦
          link_section section (sections_from host fuel ((n + 1) % 2 ^ 32) last rest)
    ]

-- The sections stand after the eight bytes of the header.
unfoldable pub create_sections : Host → List ℕ → Option (Result (List Section))
create_sections host buf = sections_from host (length buf) 0 no_index (drop 8 buf)

-- Four bytes, the lowest first, whatever the order of the machine.
unfoldable pub read_uint32 : List ℕ → Read (List ℕ)
read_uint32 p = need1 4 p >> ok (take 4 p, drop 4 p)

abbrev pub wasm_magic_number : List ℕ
wasm_magic_number = 0x00 ∷ 0x61 ∷ 0x73 ∷ 0x6d ∷ []

abbrev pub wasm_current_version : List ℕ
wasm_current_version = 0x01 ∷ 0x00 ∷ 0x00 ∷ 0x00 ∷ []

-- The part of `load` before the sections.
unfoldable pub load_header : List ℕ → Result (Unit {0})
load_header p = do
  (magic_number, p) ← read_uint32 p
  check (same_bytes magic_number wasm_magic_number) magic_not_detected
  (version, p) ← read_uint32 p
  check (same_bytes version wasm_current_version) unknown_version
