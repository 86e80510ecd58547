-- ===== src/Tests/Stack.antt =====
-- Pushing and popping on shell 7's stack, and shells that come and go.
use nav.Base.{◌≡◌, refl, ◌≢◌, true, some, none, [], ◌∷◌, ◌++◌, Bytes, codes, pos, int_eq, arith}
use nav.Run.{ok, ◌>>=◌}
use nav.Run.Ensures.{Returns}
use nav.CString.{print_nat}
use nav.Utils.{valid_path}
use nav.Utils.Words.{first_word, has_blank}
use nav.ItemList.{get_first, list_get_node}
use nav.Shell.{compare_shell_pid}
use nav.World.{sendto}
use nav.Commands.Replies.{get_shell, ok_nul_reply}
use nav.Commands.Registry.{cmd_register, cmd_unregister}
use nav.Commands.Registry.Session.{
  register-fresh, register_again, unregister-gone, fresh_shell, with_reply,
}
use nav.Commands.Actions.{cmd_push, cmd_pop, cmd_actions}
use nav.Commands.Actions.Listing.{actions-stack, stack_text}
use nav.Commands.Actions.PushPop.{pop-push}
use nav.Tests.Data.{os, world, world-IsWellFormed, found_shell, shell, behind}

-- `/z` with its NUL, and a newline behind it
abbrev push_z : Bytes
push_z = codes "/z" ++ 0 ∷ behind

abbrev push_home : Bytes
push_home = codes "/home" ++ 0 ∷ behind

blank_z : has_blank push_z ≡ true
unfolding has_blank
blank_z = refl

blank_home : has_blank push_home ≡ true
unfolding has_blank
blank_home = refl

valid_any : (p : Bytes) → valid_path (os.fstatat p) ≡ true
unfolding valid_path
valid_any p = refl

home_ne_z : codes "/home" ≢ codes "/z"
home_ne_z e = cc

word_z : first_word push_z ≡ codes "/z"
unfolding first_word
word_z = refl

word_home : first_word push_home ≡ codes "/home"
unfolding first_word
word_home = refl

pop_push_example :
    Returns
      (λ w'.
        (w'.state ≡ world.state)
        × (w'.sent
            ≡ record { to = codes "/c/7.sock"; payload = ok_nul_reply }
              ∷ record { to = codes "/c/7.sock"; payload = codes "/z\n" }
              ∷ []))
      (do w₁ ← cmd_push os world (pos 7) (some push_z); cmd_pop os w₁ (pos 7) none)
unfolding first_word
pop_push_example =
    pop-push world (pos 7) shell found_shell os push_z blank_z (valid_any (first_word push_z)) os
      none home_ne_z refl refl (omega arith)

actions_example :
    cmd_actions os world (pos 7) none
    ≡ ok (sendto world (codes "/c/7.sock") (codes "    1. /home\n"))
unfolding stack_text print_nat
actions_example = actions-stack os world (pos 7) none shell found_shell

not_yet : get_shell world (pos 9) ≡ none
unfolding list_get_node get_first compare_shell_pid int_eq
not_yet = refl

register_example :
    Returns
      (λ w'.
        (get_shell w' (pos 9) ≡ some (fresh_shell world (pos 9)))
        × (w'.sent ≡ with_reply world (fresh_shell world (pos 9))))
      (cmd_register os world (pos 9) none)
register_example = register-fresh os world (pos 9) none not_yet refl refl

register_again_example :
    cmd_register os world (pos 7) none ≡ ok (sendto world (codes "/c/7.sock") ok_nul_reply)
register_again_example = register_again os world (pos 7) none shell found_shell

unregister_example :
    Returns (λ w'. get_shell w' (pos 12) ≡ none) (cmd_unregister os world (pos 12) none)
unregister_example = unregister-gone os world (pos 12) none world-IsWellFormed
