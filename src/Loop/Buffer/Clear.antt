-- ===== src/Loop/Buffer/Clear.antt =====
-- The receive buffer of the loop in src/daemon/main.c: behind the longest datagram so far it holds zeros.
use nav.Base.{
  sym, append_assoc, length-append, ltb, Bool-cases, inl, inr, if◌then◌else◌, ℕ, zero, suc, ◌≡◌,
  refl, ap, ◌∙◌, ◌≤◌, ◌<◌, ◌+◌, ◌-◌, some, [], ◌∷◌, ◌++◌, Bytes, drop, length, replicate, arith,
}
use nav.CString.{strtok_r}
use nav.World.{World}
use nav.Commands.Tags.{space}
use nav.Loop.{recv, buf_size}
use nav.Loop.Arguments.{recv-whole}
use nav.Loop.Buffer.{cut_line, left}
use nav.Loop.Buffer.Keeps.{cut_line-StopsAtNul}

drop-replicate :
    (n i j : ℕ) (c : ℕ) (b : Bytes) → j ≡ n + i → drop n (replicate j c ++ b) ≡ replicate i c ++ b
drop-replicate zero i j c b h = let same : j ≡ i = omega arith in rw same refl
drop-replicate (suc n) i zero c b h = absurd (omega arith)
drop-replicate (suc n) i (suc j) c b h = drop-replicate n i j c b (omega arith)

pub drop_past :
    (s : Bytes) (n i j : ℕ) (b : Bytes)
    → length s ≤ n
    → length s + j ≡ n + i
    → drop n (s ++ (replicate j 0 ++ b)) ≡ replicate i 0 ++ b
drop_past [] n i j b h e = drop-replicate n i j 0 b (omega arith)
drop_past (c ∷ s) zero i j b h e = absurd (omega arith)
drop_past (c ∷ s) (suc n) i j b h e = drop_past s n i j b (omega arith) (omega arith)

-- `n` bytes less in front
pub drop_less :
    (s m : Bytes) (n : ℕ)
    → n ≤ length s
    → (s' : Bytes) × (n + length s' ≡ length s) × (drop n (s ++ m) ≡ s' ++ m)
drop_less s m zero h = (s, omega arith, refl)
drop_less [] m (suc n) h = absurd (omega arith)
drop_less (c ∷ s) m (suc n) h =
    let (s', long, same) = drop_less s m n (omega arith) in (s', omega (arith, long), same)

-- `k` bytes, then zeros up to the end of the buffer, with `behind` behind it
abbrev pub IsClear : Bytes → ℕ → Bytes → Type 0
IsClear behind k buf =
    (s : Bytes) × (j : ℕ) × (length s ≡ k)
    × (k + j ≡ buf_size)
    × (buf ≡ s ++ (replicate j 0 ++ behind))

-- the memory behind the first NUL of the buffer
abbrev pub tail_of : Bytes → ℕ → Bytes
tail_of behind n = replicate (99 - n) 0 ++ behind

-- the length of the longest datagram
abbrev pub longest : ℕ → ℕ → ℕ
longest k n = if ltb k n then n else k

pub longest_short : (k n : ℕ) → k ≤ 99 → n ≤ 99 → longest k n ≤ 99
longest_short k n small short = ground arith

module _ (behind old : Bytes) (k : ℕ) (small : k ≤ 99) (clear : IsClear behind k old) where
  -- a NUL is where a datagram ends that is not shorter
  pub drop-IsClear : (n : ℕ) → k ≤ n → n ≤ 99 → drop n old ≡ 0 ∷ tail_of behind n
  drop-IsClear n long short =
      let (s, j, same_length, full, same) = clear in
      ap (drop n) same ∙ drop_past s n (suc (99 - n)) j behind (omega arith) (omega arith)

  -- where any datagram ends, some bytes of the longest one before it may follow, and then a NUL
  pub clear_tail :
      (n : ℕ)
      → n ≤ 99
      → (s : Bytes) × (n + length s ≡ longest k n)
        × (drop n old ≡ s ++ 0 ∷ tail_of behind (longest k n))
  clear_tail n short = elim (Bool-cases (ltb k n)) [
    | inl longer ↦ rw longer ([], omega arith, drop-IsClear n (ground arith) short)
    | inr shorter ↦
        let (s, j, same_length, full, same) = clear in
        let zeros : j ≡ suc (99 - k) = omega arith in
        let (s', long, rest) = drop_less s (replicate j 0 ++ behind) n (ground arith) in
        rw shorter (s', long ∙ same_length, ap (drop n) same ∙ rest ∙ rw zeros refl)
  ]

  pub left-IsClear :
      (w : World) (datagram : Bytes)
      → 0 < length datagram
      → length datagram ≤ 99
      → IsClear behind (longest k (length datagram)) (left w old datagram)
  unfolding left
  left-IsClear w [] nonempty short = absurd (omega arith)
  left-IsClear w (c ∷ datagram) nonempty short =
      let n = length (c ∷ datagram) in
      let buf = recv (c ∷ datagram) old in
      let m = tail_of behind (longest k n) in
      let (s, long, tail) = clear_tail n short in
      let buffer : buf ≡ ((c ∷ datagram) ++ s) ++ 0 ∷ m =
        recv-whole (c ∷ datagram) old (s ++ 0 ∷ m) (omega arith) tail
        ∙ sym (append_assoc (c ∷ datagram) s (0 ∷ m)) in
      let (s', same_length, same) =
        cut_line-StopsAtNul w (strtok_r (some buf) space) ((c ∷ datagram) ++ s) m in
      let bound = longest_short k n small short in
      (
        s',
        suc (99 - longest k n),
        same_length ∙ length-append (c ∷ datagram) s ∙ long,
        omega (arith, bound),
        ap (cut_line w (strtok_r (some buf) space)) buffer ∙ same,
      )

pub zeros-IsClear : (behind : Bytes) → IsClear behind 0 (replicate buf_size 0 ++ behind)
zeros-IsClear behind = ([], buf_size, refl, refl, refl)
