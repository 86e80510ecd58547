-- ===== src/Log/Levels.antt =====
-- The levels of src/shared/log.c.
use nav.Base.{
  ◌≡◌, refl, ◌⊎◌, inl, inr, true, false, none, some, Bytes, codes, ℤ, pos, negsuc, ℕ, ◌||◌, not,
  zero, suc, Bool-cases, arith,
}
use nav.Run.{ok}
use nav.Log.{
  lt_int, LogLevel, log_lvl_inf, log_lvl_err, log_lvl_none, level_value, log_level_strings,
  log_line, log,
}

-- the name of a level that is written
abbrev pub level_name : LogLevel → Bytes
level_name log_lvl_inf = codes "INFO"
level_name log_lvl_err = codes "ERROR"
level_name log_lvl_none = codes ""

out_of_table :
    (n : ℕ)
    → (lt_int (pos (suc (suc n))) (pos 0) || not (lt_int (pos (suc (suc n))) (pos 2))) ≡ true
unfolding lt_int
out_of_table n = ground arith

-- For every level, the logger stays in its table: it writes nothing, or the level is one of the two
-- levels of messages, not below the level that is set, and it writes one line with the name of the level.
pub log_lem :
    (log_level level : ℤ) (func file_name message : Bytes)
    → (log log_level level func file_name message ≡ ok none)
      ⊎ ((l : LogLevel) × (level ≡ level_value l)
          × (lt_int level log_level ≡ false)
          × (log log_level level func file_name message
              ≡ ok (some (log_line (level_name l) func file_name message))))
unfolding log level_value log_level_strings
log_lem log_level (pos zero) func file_name message = elim (Bool-cases (lt_int (pos 0) log_level)) [
  | inl e ↦ inl (rw e refl)
  | inr e ↦ inr (log_lvl_inf, refl, e, rw e refl)
]
log_lem log_level (pos (suc zero)) func file_name message =
    elim (Bool-cases (lt_int (pos 1) log_level)) [
      | inl e ↦ inl (rw e refl)
      | inr e ↦ inr (log_lvl_err, refl, e, rw e refl)
    ]
log_lem log_level (pos (suc (suc n))) func file_name message =
    elim (Bool-cases (lt_int (pos (suc (suc n))) log_level)) [
      | inl e ↦ inl (rw e refl)
      | inr e ↦ inl (rw (e, out_of_table n) refl)
    ]
log_lem log_level (negsuc n) func file_name message =
    elim (Bool-cases (lt_int (negsuc n) log_level)) [
      | inl e ↦ inl (rw e refl)
      | inr e ↦ inl (rw e (unfold lt_int in refl))
    ]
