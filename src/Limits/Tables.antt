-- ===== src/Limits/Tables.antt =====
-- What holds of every table that loads (core/iwasm/common/wasm_loader.c).
use wasm2native.Common.{ℕ, ◌^◌, ◌≤◌, ◌<◌, ◌≢◌, arith}
use wasm2native.Limits.{adjust_table_max_size}

-- The maximum that the loader settles on for a table that declares one not below its initial size:
-- below 2 ^ 31 entries it is between the initial size and the declared maximum; from there on,
-- unless the two are equal, the doubling of the initial size wraps and the maximum ends below it.
pub adjust_table_max_size_cases :
    (init_size max_size_flag max_size : ℕ)
    → max_size_flag ≢ 0
    → init_size ≤ max_size
    → max_size < 2 ^ 32
    → (init_size < 2 ^ 31
        → (init_size ≤ adjust_table_max_size init_size max_size_flag max_size)
          × (adjust_table_max_size init_size max_size_flag max_size ≤ max_size))
      × (2 ^ 31 ≤ init_size
          → init_size ≢ max_size
          → adjust_table_max_size init_size max_size_flag max_size < init_size)
unfolding adjust_table_max_size
adjust_table_max_size_cases init_size max_size_flag max_size f h m =
    (λ small. ground arith, λ large differ. ground arith)
