-- ===== src/Server/Listings.antt =====
-- `actions`, `list` and `show` of src/daemon/commands.c as requests of a `Server`.
use mathlib.Core.List.{map}
use mathlib.Core.Option
use nav.ItemList.{get_first}
use nav.ItemList.Found.{found-All}
use nav.Tag.{compare_tag_tag}
use nav.Tag.Keys.{tag_key}
use nav.Commands.Tags.{space, cmd_list, cmd_show}
use nav.Commands.Tags.Names.{names}
use nav.Commands.Tags.Listing.{
  spaced, tag_names, show_text, tag_names-spaced, list-spaced, show-shown,
}
use nav.Base.{
  All-mono, codes, ◌≡◌, refl, ap, ◌≤◌, ◌<◌, ◌+◌, Option, some, List, [], ◌∷◌, ◌++◌, Bytes, ℤ,
  lt→ltb, length, length-append, arith, ℕ,
}
use nav.Tag.{Tag}
use nav.Shell.{Shell, Action}
use nav.World.{World, Os}
use nav.Commands.Replies.{Args, get_shell}
use nav.Commands.Invariant.{IsWellFormed}
use nav.Commands.Tags.Map.{path_in}
use nav.Commands.Actions.{cmd_actions, action_line}
use nav.Commands.Actions.Listing.{stack_text, actions-stack}
use nav.Server.{history, all_names, all_paths, joined, path_lines, numbered}
use nav.Server.View.{view, stack_of}
use nav.Base.{All}
use nav.ItemList.{list_get_node}
use nav.Server.Refines.{Serves, ListFits, reply-Gives}

module _ (os : Os) (w : World) (v : IsWellFormed w) (pid : ℤ) (s : Shell)
    (e : get_shell w pid ≡ some s) where
  numbered_lem : (i : ℕ) (xs : List Action) → stack_text i xs ≡ numbered i (map (λ a. a.path) xs)
  unfolding stack_text numbered
  numbered_lem i [] = refl
  numbered_lem i (a ∷ xs) = ap (λ l. action_line i a ++ l) (numbered_lem (i + 1) xs)

  pub actions-Serves :
      (args : Args)
      → ListFits (some (stack_of s))
      → Serves os w v pid s e history (cmd_actions os w pid args)
  actions-Serves args fits =
      rw
        (
          actions-stack os w pid args s e,
          numbered_lem 1 s.actions.items,
          lt→ltb (length (numbered 1 (stack_of s))) 1024 fits,
        )
        (reply-Gives os w v pid s e w _ (view w) refl refl)

  spaced_lem : (ts : List Tag) → spaced ts ≡ joined (names ts)
  unfolding spaced joined
  spaced_lem [] = refl
  spaced_lem (t ∷ []) = refl
  spaced_lem (t ∷ u ∷ ts) = ap (λ l. t.tag ++ codes " " ++ l) (spaced_lem (u ∷ ts))

  names-short : (ts : List Tag) → length (joined (names ts)) < 255 → length (tag_names ts) < 256
  names-short [] h = unfold tag_names in omega arith
  names-short (t ∷ ts) h =
      let same : length (spaced (t ∷ ts)) ≡ length (joined (names (t ∷ ts))) =
        ap length (spaced_lem (t ∷ ts)) in
      rw (tag_names-spaced t ts) (omega (arith, same, h, length-append (spaced (t ∷ ts)) space))

  pub list-Serves :
      (args : Args)
      → length (joined (names w.tags.items)) < 255
      → Serves os w v pid s e all_names (cmd_list os w pid args)
  list-Serves args fits =
      rw
        (
          list-spaced os w pid args s e,
          lt→ltb (length (tag_names w.tags.items)) 256 (names-short w.tags.items fits),
          spaced_lem w.tags.items,
        )
        (reply-Gives os w v pid s e w _ (view w) refl refl)

  lines_lem :
      (paths : Bytes → Option Bytes) (ts : List Tag)
      → All (λ t. paths t.tag ≡ some t.path) ts
      → show_text ts ≡ path_lines paths (names ts)
  unfolding show_text path_lines
  lines_lem paths [] h = refl
  lines_lem paths (t ∷ ts) h = rw (h.0, lines_lem paths ts h.1) refl

  tags_bound : All (λ t. path_in w.tags t.tag ≡ some t.path) w.tags.items
  unfolding path_in list_get_node
  tags_bound =
      All-mono (λ t. get_first compare_tag_tag t.tag w.tags.items ≡ some t)
        (λ t. path_in w.tags t.tag ≡ some t.path) w.tags.items
        (λ t found. ap (Option.map (λ u. u.path)) found)
        (found-All tag_key w.tags.items v.tags.distinct)

  pub show-Serves :
      (args : Args)
      → length (path_lines (path_in w.tags) (names w.tags.items)) ≤ 2048
      → Serves os w v pid s e all_paths (cmd_show os w pid args)
  show-Serves args fits =
      let text = lines_lem (path_in w.tags) w.tags.items tags_bound in
      rw (show-shown os w pid args s e (rw text fits), text)
        (reply-Gives os w v pid s e w _ (view w) refl refl)
