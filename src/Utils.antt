-- ===== src/Utils.antt =====
-- src/shared/utils.c: the whitespace scan that every parser uses, and the path test.
pub mod Words
pub mod Terminated
use nav.Base.{ℕ, zero, suc, ◌+◌, Bool, true, false, ◌||◌, [], ◌∷◌, Bytes, ◌==◌, if◌then◌else◌}
use nav.Run.{Run, ok, fault, ◌>>=◌}
use nav.CString.{strndup}

abbrev pub is_blank : ℕ → Bool
is_blank c = (c == b'\n') || (c == b' ')

-- The loop stops at a newline or a space only: `p != NULL` is always true and a NUL is passed over.
unfoldable pub get_trailing_whitespace : Bytes → Run ℕ
get_trailing_whitespace [] = fault
get_trailing_whitespace (c ∷ m) =
    let further : Run ℕ = (do n ← get_trailing_whitespace m; ok (suc n)) in
    if is_blank c then ok 0 else further

-- `strndup(p, get_trailing_whitespace(p))`
unfoldable pub dup_word : Bytes → Run Bytes
dup_word p = do n ← get_trailing_whitespace p; strndup p n

-- what `fstatat` says of a path
pub data Stat : Type 0 where
  found enoent other_error : Stat

unfoldable pub valid_path : Stat → Bool
valid_path enoent = false
valid_path other_error = false
valid_path found = true
