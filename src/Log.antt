-- ===== src/Log.antt =====
-- src/shared/log.c, as `PRETTY_LOG` of include/log.h makes it.
pub mod Levels
use nav.Base.{
  zero, suc, Bool, true, false, ◌||◌, not, Option, none, some, ◌∷◌, ◌++◌, [], Bytes, codes, ℤ, pos,
  negsuc, ltb, leb, if◌then◌else◌,
}
use nav.Run.{Run, ok, fault, ◌>>=◌}

-- `<` of C on `int`
unfoldable pub lt_int : ℤ → ℤ → Bool
lt_int (pos n) (pos m) = ltb n m
lt_int (pos n) (negsuc m) = false
lt_int (negsuc n) (pos m) = true
lt_int (negsuc n) (negsuc m) = ltb m n

-- `enum log_level`
pub data LogLevel : Type 0 where
  log_lvl_inf log_lvl_err log_lvl_none : LogLevel

unfoldable pub level_value : LogLevel → ℤ
level_value log_lvl_inf = pos 0
level_value log_lvl_err = pos 1
level_value log_lvl_none = pos 2

-- an index outside the table is a read outside an object
unfoldable pub log_level_strings : ℤ → Run Bytes
log_level_strings (pos zero) = ok (codes "INFO")
log_level_strings (pos (suc zero)) = ok (codes "ERROR")
log_level_strings _ = fault

abbrev pub bold : Bytes
bold = 27 ∷ codes "[1m"

abbrev pub unbold : Bytes
unbold = 27 ∷ codes "[0m"

-- the metadata and the text of a message
unfoldable pub log_line : Bytes → Bytes → Bytes → Bytes → Bytes
log_line level_string func file_name message =
    bold
    ++ codes "["
    ++ file_name
    ++ codes "::"
    ++ func
    ++ codes "] ["
    ++ level_string
    ++ codes "]: "
    ++ unbold
    ++ message
    ++ codes "\n"

unfoldable pub set_log_level : ℤ → ℤ → ℤ
set_log_level level log_level = level

-- What is written to the file, or to `stderr`, with the level that is set; `message` is what `vfprintf`
-- makes of the format.
unfoldable pub log : ℤ → ℤ → Bytes → Bytes → Bytes → Run (Option Bytes)
unfolding lt_int level_value log_level_strings log_line
log log_level level func file_name message =
    let written : Run (Option Bytes) = (do
      level_string ← log_level_strings level
      ok (some (log_line level_string func file_name message))) in
    if lt_int level log_level
      || (lt_int level (pos 0) || not (lt_int level (level_value log_lvl_none)))
    then ok none
    else written
