-- ===== src/Commands/Invariant.antt =====
-- The invariant of the daemon's state: counters, keys, addresses, stacks and words.
use nav.Base.{◌≡◌, refl, ◌≢◌, Option, none, some, List, [], ◌∷◌, length, All, Bytes, ℤ}
use nav.Run.{Run, ok}
use nav.Utils.Words.{IsWord}
use nav.ItemList.Maps.{IsMap}
use nav.ItemList.Members.{All-get_node, key-get_node}
use nav.Tag.{Tag}
use nav.Tag.Keys.{tag_key}
use nav.Shell.{Shell, Action}
use nav.Shell.Stack.{shell_key}
use nav.World.{World, sendto}
use nav.Commands.Replies.{socket_path, get_shell, if_registered, with_shell}

-- no action has the path of the one below it
abbrev pub NoRepeat : List Action → Type 0
NoRepeat [] = Unit
NoRepeat (a ∷ []) = Unit
NoRepeat (a ∷ b ∷ rest) = (a.path ≢ b.path) × NoRepeat (b ∷ rest)

pub record IsShell (dir : Bytes) (s : Shell) : Type 0 where
  pub addressed : s.sun_path ≡ socket_path dir s.pid
  pub counted : s.actions.n_items ≡ length s.actions.items
  pub no_repeat : NoRepeat s.actions.items
  pub words : All (λ a. IsWord a.path) s.actions.items

pub record IsTag (t : Tag) : Type 0 where
  pub name : IsWord t.tag
  pub target : IsWord t.path

pub record IsWellFormed (w : World) : Type 0 where
  pub shells : IsMap shell_key w.shells
  pub members : All (IsShell w.cache_dir) w.shells.items
  pub tags : IsMap tag_key w.tags
  pub entries : All IsTag w.tags.items

pub sendto-IsWellFormed :
    {w : World} (to payload : Bytes) → IsWellFormed w → IsWellFormed (sendto w to payload)
unfolding sendto
sendto-IsWellFormed to payload v = record {
  shells = v.shells;
  members = v.members;
  tags = v.tags;
  entries = v.entries;
}

module _ (w : World) (pid : ℤ) {s : Shell} (e : get_shell w pid ≡ some s) where
  pub found-IsShell : IsWellFormed w → IsShell w.cache_dir s
  found-IsShell v = All-get_node shell_key (IsShell w.cache_dir) w.shells pid e v.members

  pub pid-get_shell : s.pid ≡ pid
  pid-get_shell = key-get_node shell_key w.shells pid e

module _ (Q : Run World → Type 0) (w : World) (pid : ℤ) (body : Shell → Run World) where
  -- the two cases of a handler that looks up its shell
  pub with_shell-cases :
      Q (ok w) → ((s : Shell) → get_shell w pid ≡ some s → Q (body s)) → Q (with_shell w pid body)
  with_shell-cases h each = by_cases (get_shell w pid) refl
    where
      by_cases : (o : Option Shell) → get_shell w pid ≡ o → Q (if_registered w o body)
      by_cases none e = h
      by_cases (some s) e = each s e
