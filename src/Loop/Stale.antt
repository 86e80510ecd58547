-- ===== src/Loop/Stale.antt =====
-- The tag commands of a client over what an earlier, longer message left in the receive buffer of
-- src/daemon/main.c.
use nav.Base.{
  ℕ, ◌^◌, ◌≡◌, refl, ap, ◌∙◌, ◌≢◌, ◌≤◌, ◌<◌, true, false, some, [], ◌∷◌, ◌++◌, append_assoc, Bytes,
  length, drop, pos, ◌==◌, arith,
}
use nav.Run.{ok, ◌>>=◌}
use nav.Run.Ensures.{Returns-eq}
use nav.CString.{Token, print_nat, strtok_r, scan_token, token_at, is_delim}
use nav.Utils.Words.{has_blank, has_blank-suffix, dup_word-nul, printable-IsWord}
use nav.Utils.Terminated.{IsTerminated, scan-Returns, has_blank-IsTerminated, IsTerminated-has_nul}
use nav.Shell.{Shell}
use nav.World.{World, Os, sendto}
use nav.Commands.Replies.{get_shell, bad_reply}
use nav.Commands.Tags.{
  space, too_many, add_args, first_token, second_token, last_token, add_tag, cmd_add,
}
use nav.Commands.Tags.Parse.{IsName, IsName-IsWord, strtok-word}
use nav.Commands.Dispatch.{add, cmd_name, cmd_func}
use nav.Commands.Dispatch.Table.{dispatch-name}
use nav.Loop.{round}
use nav.Loop.Message.{sentence}
use nav.Loop.Arguments.{args_at, args_at-word, round-args}

-- a byte of a word is behind the arguments
token-behind :
    (c : ℕ) (x : Bytes)
    → c ≢ 0
    → c ≢ b' '
    → IsTerminated (c ∷ x)
    → (t : Token) × (strtok_r (some (c ∷ x)) space ≡ ok (some t))
unfolding strtok_r token_at
token-behind c x some_byte word_byte ends =
    let not_space : is_delim space c ≡ false = ground arith in
    let not_nul : (c == 0) ≡ false = ground arith in
    let (t, run, safe) =
      Returns-eq (scan_token space (c ∷ x)) (scan-Returns space (c ∷ x) (refl, refl) ends) in
    rw (not_space, not_nul, not_space)
      (t, ap (λ r. r >>= λ u. ok (some u)) (rw (not_nul, not_space) at run))

module _ (tag path : Bytes) (c : ℕ) (x : Bytes) (ht : IsName tag) (hp : IsName path)
    (some_byte : c ≢ 0) (word_byte : c ≢ b' ') (ends : IsTerminated (c ∷ x)) where
  stale_args : add_args (some (tag ++ b' ' ∷ (path ++ b' ' ∷ c ∷ x))) ≡ ok too_many
  unfolding add_args first_token second_token last_token
  stale_args =
      let blank = has_blank-IsTerminated (c ∷ x) ends in
      let later = has_blank-suffix path (b' ' ∷ c ∷ x) (unfold has_blank in refl) in
      let (t, run) = token-behind c x some_byte word_byte ends in
      rw (
        strtok-word tag (path ++ b' ' ∷ c ∷ x) ht,
        dup_word-nul tag (path ++ b' ' ∷ c ∷ x) (IsName-IsWord tag ht) later,
        strtok-word path (c ∷ x) hp,
        dup_word-nul path (c ∷ x) (IsName-IsWord path hp) blank,
        run,
      )

  words_behind : sentence (tag ∷ path ∷ []) ++ c ∷ x ≡ tag ++ b' ' ∷ (path ++ b' ' ∷ c ∷ x)
  unfolding sentence
  words_behind =
      append_assoc tag (b' ' ∷ (path ++ b' ' ∷ [])) (c ∷ x)
      ∙ ap (λ l. tag ++ b' ' ∷ l) (append_assoc path (b' ' ∷ []) (c ∷ x))

  -- If in the receive buffer a byte of an older word, that is one other than NUL and space, is right behind
  -- the message of an `add` with its two words, and further on a NUL, with a newline right before it or a
  -- space or newline somewhere behind it, then the daemon replies BAD to a registered shell and changes
  -- nothing else. The message has at most 100 bytes, its words no NUL, space or newline, and the process
  -- id is below 2^31.
  pub stale_add-Refused :
      (os : Os) (w : World) (pid : ℕ) (s : Shell) (old : Bytes)
      → get_shell w (pos pid) ≡ some s
      → pid < 2 ^ 31
      → length (sentence (print_nat pid ∷ cmd_name add ∷ tag ∷ path ∷ [])) ≤ 100
      → drop (length (sentence (print_nat pid ∷ cmd_name add ∷ tag ∷ path ∷ []))) old ≡ c ∷ x
      → round os w old (sentence (print_nat pid ∷ cmd_name add ∷ tag ∷ path ∷ []))
        ≡ ok (true, sendto w s.sun_path bad_reply)
  unfolding cmd_func cmd_add add_tag
  stale_add-Refused os w pid s old e small short behind =
      let carried : args_at (sentence (tag ∷ path ∷ []) ++ c ∷ x)
          ≡ some (tag ++ b' ' ∷ (path ++ b' ' ∷ c ∷ x)) =
        ap args_at words_behind ∙ args_at-word tag (b' ' ∷ (path ++ b' ' ∷ c ∷ x)) ht in
      round-args os w pid (cmd_name add) (tag ∷ path ∷ []) old (c ∷ x) small
        (unfold cmd_name in printable-IsWord (cmd_name add) refl) short behind
        (IsTerminated-has_nul (c ∷ x) ends)
      ∙ rw
          (
            carried,
            dispatch-name os w (pos pid) (some (tag ++ b' ' ∷ (path ++ b' ' ∷ c ∷ x))) add,
            e,
            stale_args,
          )
          refl
