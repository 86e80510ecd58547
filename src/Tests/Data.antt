-- ===== src/Tests/Data.antt =====
-- A state with two shells and two tags, and the arguments of some messages.
pub use nav.Utils.Words.{printable-IsWord}
use nav.Base.{
  ◌≡◌, refl, true, some, none, [], ◌∷◌, ◌++◌, Bytes, bytes_eq, codes, int_eq, pos, arith,
}
use nav.Utils.{found}
use nav.Utils.Words.{has_blank}
use nav.CString.{print_int, print_nat, strcmp, snprintf}
use nav.ItemList.{get_first, list_get_node}
use nav.ItemList.Lookup.{Distinct}
use nav.Tag.{Tag, compare_tag_tag}
use nav.Shell.{Shell, Action, compare_shell_pid}
use nav.World.{World, Os}
use nav.Commands.Replies.{socket_path, get_shell}
use nav.Commands.Invariant.{IsWellFormed}
use nav.Commands.Safety.{Fits}
use nav.Commands.Tags.Listing.{tag_names, show_text}
use nav.Commands.Actions.Listing.{stack_text}

abbrev pub os : Os
os = record { fstatat = λ p. found; fopen_w = true; node_alloc = true; data_alloc = true }

abbrev pub home : Action
home = record { path = codes "/home" }

abbrev pub dir : Bytes
dir = codes "/c"

abbrev pub shell : Shell
shell = record {
  pid = pos 7;
  sun_path = codes "/c/7.sock";
  actions = record { items = home ∷ []; n_items = 1 };
}

abbrev pub other_shell : Shell
other_shell = record {
  pid = pos 12;
  sun_path = codes "/c/12.sock";
  actions = record { items = []; n_items = 0 };
}

abbrev pub tag_a : Tag
tag_a = record { tag = codes "a"; path = codes "/x" }

abbrev pub tag_b : Tag
tag_b = record { tag = codes "b"; path = codes "/y" }

abbrev pub world : World
world = record {
  state = record {
    config_dir = codes "/f";
    cache_dir = dir;
    nav_socket_path = codes "/c/nav.sock";
    tagfile_path = codes "/f/tags";
    uname = some (codes "u");
    sfd = pos 3;
    shells = record { items = shell ∷ other_shell ∷ []; n_items = 2 };
    tags = record { items = tag_a ∷ tag_b ∷ []; n_items = 2 };
  };
  sent = [];
  tagfile = none;
}

-- a newline lies behind the arguments
abbrev pub behind : Bytes
behind = b'\n' ∷ []

-- `c /z ` and a NUL
abbrev pub add_c : Bytes
add_c = codes "c /z " ++ 0 ∷ behind

pub found_shell : get_shell world (pos 7) ≡ some shell
unfolding list_get_node get_first compare_shell_pid int_eq
found_shell = refl

pub found_other : get_shell world (pos 12) ≡ some other_shell
unfolding list_get_node get_first compare_shell_pid int_eq
found_other = refl

pub world-IsWellFormed : IsWellFormed world
unfolding Distinct get_first compare_shell_pid compare_tag_tag strcmp socket_path snprintf print_int
    print_nat int_eq bytes_eq
world-IsWellFormed = record {
  shells = record { counted = refl; distinct = (refl, (refl, tt)) };
  members = (
    record {
      addressed = refl;
      counted = refl;
      no_repeat = tt;
      words = (printable-IsWord (codes "/home") refl, tt);
    },
    (record { addressed = refl; counted = refl; no_repeat = tt; words = tt }, tt),
  );
  tags = record { counted = refl; distinct = (refl, (refl, tt)) };
  entries = (
    record {
      name = printable-IsWord (codes "a") refl;
      target = printable-IsWord (codes "/x") refl;
    },
    (
      record {
        name = printable-IsWord (codes "b") refl;
        target = printable-IsWord (codes "/y") refl;
      },
      tt,
    ),
  );
}

pub world-Fits : Fits world
unfolding tag_names show_text stack_text print_nat
world-Fits = record {
  names = omega arith;
  lines = omega arith;
  targets = omega arith;
  stacks = (
    record { listed = omega arith; popped = omega arith },
    (record { listed = omega arith; popped = tt }, tt),
  );
}

pub behind_blank : has_blank behind ≡ true
unfolding has_blank
behind_blank = refl
