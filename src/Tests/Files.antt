-- ===== src/Tests/Files.antt =====
-- A file system with the daemon's directories and its tag file, and starts of the daemon on it.
use nav.Base.{
  ◌≡◌, refl, Bool, true, false, none, some, List, [], ◌∷◌, ◌++◌, Bytes, bytes_eq, bytes_eq_refl,
  codes, arith, if◌then◌else◌,
}
use nav.Run.{ok, fault}
use nav.CString.{snprintf, strcmp, cstr, strtok_r, skip_delims, token_at, scan_token, strndup}
use nav.Run.Ensures.{Returns}
use nav.Utils.{Stat, found, enoent, valid_path, dup_word, get_trailing_whitespace}
use nav.ItemList.{empty}
use nav.Tag.{write_tag_file, tag_lines}
use nav.TagFile.{
  line_of, fgets, read_path, read_name, read_entry, read_round, read_loop, read_tag_file,
}
use nav.TagFile.RoundTrip.{IsWritable, read-write, read_equals}
use nav.TagFile.Keeps.{IsTagList}
use nav.Setup.{FileSystem, Answers, choose_path, dest_path, path_size, main}
use nav.Setup.Laws.{Starts}
use nav.Setup.Returns.{TagFileFits, main-Returns}
use nav.TagFile.Returns.{fits_lines, LinesFit, read-Returns}
use nav.Setup.Restart.{Ready}
use nav.Tests.Data.{world, tag_a, tag_b, world-IsWellFormed, printable-IsWord}

abbrev pub has_path : Bytes → List Bytes → Bool
has_path p [] = false
has_path p (q ∷ files) = if bytes_eq p q then true else has_path p files

abbrev pub answer_of : Bool → Stat
answer_of true = found
answer_of false = enoent

-- two tags
abbrev pub tag_text : Bytes
tag_text = codes "a=/x\nb=/y\n\n"

-- the paths that are there; the only file with a content is the tag file
abbrev pub disk : FileSystem
disk = record {
  Files = List Bytes;
  fstatat = λ files p. answer_of (has_path p files);
  mkdir = λ files p. (true, p ∷ files);
  unlink = λ files p. files;
  content = λ files p. if bytes_eq p (codes "/f/tags") then some tag_text else none;
  mkdir_found = λ files p made. rw (bytes_eq_refl p) refl;
}

abbrev pub files : List Bytes
files = codes "/f" ∷ codes "/c" ∷ codes "/x" ∷ codes "/y" ∷ []

abbrev pub answers : Answers
answers = record {
  options = [];
  config_env = some (codes "/f");
  cache_env = some (codes "/c");
  passwd = some (codes "u");
  malloc = true;
  memory = λ n. true;
  behind = [];
  socket = some 3;
  bind = true;
}

pub a-IsWritable : IsWritable (disk.fstatat files) tag_a
unfolding valid_path bytes_eq
a-IsWritable = record {
  name = ((omega arith, refl, omega arith), tt);
  target = printable-IsWord (codes "/x") refl;
  short = omega arith;
  there = refl;
}

pub b-IsWritable : IsWritable (disk.fstatat files) tag_b
unfolding valid_path bytes_eq
b-IsWritable = record {
  name = ((omega arith, refl, omega arith), tt);
  target = printable-IsWord (codes "/y") refl;
  short = omega arith;
  there = refl;
}

read_write_example :
    read_tag_file (disk.fstatat files) (λ n. true) [] empty (write_tag_file true world.tags none).1
    ≡ ok (0, world.tags)
read_write_example =
    read-write (disk.fstatat files) (λ n. true) (λ n. refl) [] world.tags none
      world-IsWellFormed.tags (a-IsWritable, (b-IsWritable, tt))

-- the tag `a=b` for `/x`
read_equals_example :
    read_tag_file
      (λ p. found)
      (λ n. true)
      []
      empty
      (write_tag_file true
        (record { items = record { tag = codes "a=b"; path = codes "/x" } ∷ []; n_items = 1 })
        none).1
    ≡ ok (0, record { items = record { tag = codes "a"; path = codes "b=/x" } ∷ []; n_items = 1 })
unfolding valid_path
read_equals_example =
    read_equals (λ p. found) (λ n. true) (λ n. refl) [] (codes "a") (codes "b") (codes "/x") none
      (record {
        name = ((omega arith, refl, omega arith), tt);
        target = printable-IsWord (codes "b=/x") refl;
        short = omega arith;
        there = refl;
      })

tag_text-fits : fits_lines 0 tag_text ≡ true
unfolding fits_lines
tag_text-fits = refl

-- with nothing behind the line buffer that can be read
read-Returns_example :
    Returns
      (λ r. IsTagList r.1)
      (read_tag_file (disk.fstatat files) (λ n. true) [] world.tags (some tag_text))
read-Returns_example =
    read-Returns (disk.fstatat files) (λ n. true) [] world.tags (some tag_text) tag_text-fits
      (world-IsWellFormed.tags, world-IsWellFormed.entries)

-- a last line without its newline: the scan of the path leaves the line buffer
last_line-leaves :
    read_tag_file (disk.fstatat files) (λ n. true) [] empty (some (codes "a=/b")) ≡ fault
unfolding read_tag_file read_loop read_round fgets read_entry read_name read_path line_of strcmp
    cstr strtok_r skip_delims token_at scan_token dup_word get_trailing_whitespace strndup bytes_eq
last_line-leaves = refl

content-LinesFit : (b : Bool) → LinesFit (if b then some tag_text else none)
content-LinesFit true = tag_text-fits
content-LinesFit false = tt

pub disk-TagFileFits : TagFileFits disk answers files
disk-TagFileFits user config cache files' files'' named made made' =
    content-LinesFit (bytes_eq (snprintf path_size (config ++ codes "/tags")) (codes "/f/tags"))

main-Returns_example : Returns Starts (main disk answers files)
main-Returns_example = main-Returns disk answers files disk-TagFileFits

pub is-Ready : Ready disk answers files (codes "u") (codes "/f") (codes "/c") 3
unfolding choose_path dest_path bytes_eq
is-Ready = record {
  no_options = refl;
  allocated = refl;
  reads = λ n. refl;
  named = refl;
  config_given = refl;
  config_there = refl;
  cache_given = refl;
  cache_there = refl;
  socket = refl;
  bound = refl;
}

pub kept : disk.content files (codes "/f/tags") ≡ (write_tag_file true world.tags none).1
unfolding write_tag_file tag_lines bytes_eq
kept = refl
