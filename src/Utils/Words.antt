-- ===== src/Utils/Words.antt =====
-- What the whitespace scan finds, and where it leaves the string.
use nav.Base.{
  ltb, ◌&&◌, ℕ, ◌+◌, ◌≡◌, refl, ap, ◌≢◌, Bool, true, false, ◌||◌, [], ◌∷◌, ◌++◌, length, All, Bytes,
  arith, ◌==◌, if◌then◌else◌, Bool-cases, inl, inr,
}
use nav.Run.{ok, fault}
use nav.Run.Ensures.{Ensures}
use nav.CString.{strndup}
use nav.Utils.{is_blank, get_trailing_whitespace, dup_word}

-- the word at a pointer: up to the first NUL, newline or space
unfoldable pub first_word : Bytes → Bytes
first_word [] = []
first_word (c ∷ m) = if (c == 0) || is_blank c then [] else c ∷ first_word m

-- a newline or a space lies somewhere in the memory, whether or not the text ends before it
unfoldable pub has_blank : Bytes → Bool
has_blank [] = false
has_blank (c ∷ m) = is_blank c || has_blank m

abbrev pub IsWord : Bytes → Type 0
IsWord = All (λ c. (c ≢ 0) × (is_blank c ≡ false))

pub first_word-IsWord : (m : Bytes) → IsWord (first_word m)
unfolding first_word
first_word-IsWord [] = tt
first_word-IsWord (c ∷ m) = ground (arith, first_word-IsWord m)

-- With a newline or space in the readable memory, the copy is the text at the pointer up to the first
-- NUL, newline or space.
pub dup_word-first_word : (m : Bytes) → has_blank m ≡ true → dup_word m ≡ ok (first_word m)
unfolding dup_word get_trailing_whitespace strndup has_blank first_word
dup_word-first_word [] h = cc
dup_word-first_word (c ∷ m) h = ground (arith, dup_word-first_word m)

scan-fault : (m : Bytes) → has_blank m ≡ false → get_trailing_whitespace m ≡ fault
unfolding get_trailing_whitespace has_blank
scan-fault [] h = refl
scan-fault (c ∷ m) h = ground (arith, scan-fault m)

-- Without one the scan leaves the memory.
pub dup_word-fault : (m : Bytes) → has_blank m ≡ false → dup_word m ≡ fault
unfolding dup_word
dup_word-fault m h = rw (scan-fault m h)

-- The scan does not stop at the end of a string without newline and space: it goes on to the first
-- one behind it, if there is one, and the index is past the length.
pub scan_past_nul :
    (s m : Bytes) (n : ℕ)
    → IsWord s
    → get_trailing_whitespace m ≡ ok n
    → get_trailing_whitespace (s ++ 0 ∷ m) ≡ ok (length s + 1 + n)
unfolding get_trailing_whitespace
scan_past_nul [] m n h e = rw e (ap ok (omega arith))
scan_past_nul (c ∷ s) m n h e = rw (h.0.1, scan_past_nul s m n h.1 e) (ap ok (omega arith))

pub first_word-nul : (s m : Bytes) → IsWord s → first_word (s ++ 0 ∷ m) ≡ s
unfolding first_word
first_word-nul [] m h = refl
first_word-nul (c ∷ s) m h = ground (arith, first_word-nul s m h.1)

pub has_blank-append : (s m : Bytes) → has_blank (s ++ m) ≡ (has_blank s || has_blank m)
unfolding has_blank
has_blank-append [] m = refl
has_blank-append (c ∷ s) m = rw (has_blank-append s m) (ground arith)

pub or_true : (b : Bool) → (b || true) ≡ true
or_true true = refl
or_true false = refl

pub has_blank-suffix : (s m : Bytes) → has_blank m ≡ true → has_blank (s ++ m) ≡ true
has_blank-suffix s m h = rw (has_blank-append s m, h) (or_true (has_blank s))

first_word-blank :
    (s : Bytes) (c : ℕ) (m : Bytes) → IsWord s → is_blank c ≡ true → first_word (s ++ c ∷ m) ≡ s
unfolding first_word
first_word-blank [] c m h b = ground (arith, b)
first_word-blank (d ∷ s) c m h b = ground (arith, first_word-blank s c m h.1 b)

-- the copy of a text that ends with a newline or a space
pub dup_word-blank :
    (s : Bytes) (c : ℕ) (m : Bytes) → IsWord s → is_blank c ≡ true → dup_word (s ++ c ∷ m) ≡ ok s
dup_word-blank s c m h b =
    rw
      (dup_word-first_word (s ++ c ∷ m)
        (has_blank-suffix s (c ∷ m) (unfold has_blank in ground (arith, b))))
      (ap ok (first_word-blank s c m h b))

-- the copy of a text that ends with a NUL, with a newline or space somewhere behind it
pub dup_word-nul : (s m : Bytes) → IsWord s → has_blank m ≡ true → dup_word (s ++ 0 ∷ m) ≡ ok s
dup_word-nul s m h b =
    rw (dup_word-first_word (s ++ 0 ∷ m) (has_blank-suffix s (0 ∷ m) (unfold has_blank in b)))
      (ap ok (first_word-nul s m h))

-- Whatever the memory, a copy that is made is a word.
pub dup_word-IsWord : (m : Bytes) → Ensures IsWord (dup_word m)
dup_word-IsWord m = elim (Bool-cases (has_blank m)) [
  | inl e ↦ rw (dup_word-first_word m e) (first_word-IsWord m)
  | inr e ↦ rw (dup_word-fault m e) tt
]

-- every byte is above the space
abbrev pub printable : Bytes → Bool
printable [] = true
printable (c ∷ s) = ltb 32 c && printable s

pub printable-IsWord : (s : Bytes) → printable s ≡ true → IsWord s
printable-IsWord [] h = tt
printable-IsWord (c ∷ s) h = ground (arith, printable-IsWord s)
