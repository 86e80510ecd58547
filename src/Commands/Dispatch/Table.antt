-- ===== src/Commands/Dispatch/Table.antt =====
-- src/daemon/commands.c: which entry of the command table a string selects.
use nav.Base.{
  ℤ, sym, append-nil, ℕ, ◌≡◌, refl, ◌↔◌, some, List, [], ◌∷◌, ◌++◌, Bytes, length, arith, ◌==◌,
  Bool-cases, inl, inr,
}
use nav.CString.{strncmp}
use nav.World.{World, Os}
use nav.Commands.Replies.{Args}
use nav.Commands.Dispatch.{
  cmd_func, run_command, dispatch_command, CommandId, register, cmd_name, cmd_table, find_command,
  lookup_command,
}

abbrev pub StartsWith : Bytes → Bytes → Type 0
StartsWith s name = (rest : Bytes) × (s ≡ name ++ rest)

strncmp-StartsWith : (s name : Bytes) → strncmp s name (length name) ≡ 0 → StartsWith s name
unfolding strncmp
strncmp-StartsWith s [] h = (s, refl)
strncmp-StartsWith [] (b ∷ name) h = absurd (omega arith)
strncmp-StartsWith (a ∷ s) (b ∷ name) h = elim (Bool-cases (a == b)) [
  | inl e ↦
      let (rest, same) = strncmp-StartsWith s name (rw e at h) in
      let first : a ≡ b = ground arith in (rest, cc)
  | inr e ↦ let bad : ◌≡◌ {A = ℕ} 1 0 = rw e at h in absurd (omega arith)
]

find-strncmp :
    (s : Bytes) (cs : List CommandId) (c : CommandId)
    → find_command s cs ≡ some c
    → strncmp s (cmd_name c) (length (cmd_name c)) ≡ 0
unfolding find_command
find-strncmp s [] c h = cc
find-strncmp s (d ∷ cs) c h =
    elim (Bool-cases (strncmp s (cmd_name d) (length (cmd_name d)) == 0)) [
      | inl e ↦ let same : d ≡ c = cc (rw e at h) in rw (← same) (ground arith)
      | inr e ↦ find-strncmp s cs c (rw e at h)
    ]

-- a string that begins with a name selects that entry
lookup-name : (c : CommandId) (rest : Bytes) → lookup_command (cmd_name c ++ rest) ≡ some c
unfolding lookup_command strncmp
lookup-name register rest = refl
lookup-name _ rest = refl

-- A string selects an entry of the command table exactly if it begins with the entry's name.
pub lookup_iff :
    (s : Bytes) (c : CommandId) → (lookup_command s ≡ some c) ↔ StartsWith s (cmd_name c)
lookup_iff s c = (
  λ h. strncmp-StartsWith s (cmd_name c) (unfold lookup_command in find-strncmp s cmd_table c h),
  λ (rest, e). rw e (lookup-name c rest),
)

-- the name of a command is dispatched to its handler
pub dispatch-name :
    (os : Os) (w : World) (pid : ℤ) (args : Args) (c : CommandId)
    → dispatch_command os w (cmd_name c) pid args ≡ cmd_func c os w pid args
unfolding dispatch_command run_command
dispatch-name os w pid args c =
    rw ((lookup_iff (cmd_name c) c).1 ([], sym (append-nil (cmd_name c)))) refl
