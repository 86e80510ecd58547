-- ===== src/Client/Queries.antt =====
-- What src/client/main.c prints for `register` and `get`.
use nav.Base.{
  ℕ, ◌≡◌, refl, ap, ◌∙◌, ◌≢◌, ◌<◌, true, false, Option, none, some, [], ◌∷◌, ◌++◌, All-mono,
  All-append, Bytes, codes, length, length-append, pos, arith, Option-cases, inl, inr,
}
use nav.Run.{ok, exit_success}
use nav.Run.Ensures.{Returns, Returns-eq, Returns-mono}
use nav.CString.{cstr, print_nat}
use nav.Utils.{is_blank}
use nav.Utils.Words.{has_blank}
use mathlib.Core.Option
use nav.ItemList.{list_get_node}
use nav.ItemList.Members.{All-get_node}
use nav.Tag.{Tag, compare_tag_tag}
use nav.Tag.Keys.{tag_key}
use nav.Shell.{Shell}
use nav.World.{World, Os, sendto}
use nav.Commands.Replies.{reply_to, get_shell, socket_path, ok_nul_reply}
use nav.Commands.Invariant.{IsWellFormed, IsTag}
use nav.Commands.Isolation.Answer.{addr}
use nav.Commands.Registry.{cmd_register}
use nav.Commands.Registry.Session.{register-fresh, register_again}
use nav.Commands.Tags.Parse.{spell}
use nav.Commands.Tags.Map.{path_in}
use nav.Commands.Tags.Get.{answer, FitsGet, get-answer}
use nav.Commands.Dispatch.{register, get, cmd_name, cmd_func}
use nav.Commands.Dispatch.Table.{dispatch-name}
use nav.Client.{ClientOs, client_main, message_size}
use nav.Client.Exchange.{Online, Fits, exchanged, message, exchange, cstr_id}

module _ (os : Os) (w : World) (v : IsWellFormed w) (old : Bytes) (n : ℕ) (m : Bytes)
    (sys : ClientOs) where
  register-replies :
      os.node_alloc ≡ true
      → os.data_alloc ≡ true
      → Returns
          (λ w'. w'.sent ≡ w.sent ++ reply_to (socket_path w.cache_dir (pos n)) ok_nul_reply)
          (cmd_register os w (pos n) none)
  register-replies a d = elim (Option-cases (get_shell w (pos n))) [
    | inl e ↦
        Returns-mono _
          (λ w'. w'.sent ≡ w.sent ++ reply_to (socket_path w.cache_dir (pos n)) ok_nul_reply)
          (cmd_register os w (pos n) none) (λ w' h. h.1) (register-fresh os w (pos n) none e a d)
    | inr (s, e) ↦
        rw (register_again os w (pos n) none s e) (
          unfold sendto in ap (λ path. w.sent ++ reply_to path ok_nul_reply) (addr w (pos n) s e v))
  ]

  -- In a well-formed state, a client that registers with a process id below 2^31 prints OK and exits with
  -- success, if the system's calls succeed and a NUL is behind its message in the daemon's buffer.
  pub client_registers :
      Online sys os w old (print_nat n) (cmd_name register ∷ [])
      → Fits os w old n (cmd_name register) [] m
      → os.node_alloc ≡ true
      → os.data_alloc ≡ true
      → client_main sys
        ≡ ok (
          exchanged w.cache_dir
              (print_nat n)
              (message os w old n (cmd_name register) [] m)
              (codes "OK\n"),
          exit_success,
        )
  client_registers on f a d =
      let (w', run, replied) = Returns-eq (cmd_register os w (pos n) none) (register-replies a d) in
      exchange os w old n (cmd_name register) [] m sys on f w' ok_nul_reply
        (dispatch-name os w (pos n) none register ∙ (unfold cmd_func in run)) replied (omega arith)
      ∙ unfold cstr in refl

  tag_path-fits : (o : Option Bytes) → FitsGet o → length (answer o) < message_size
  tag_path-fits none h = omega arith
  tag_path-fits (some path) h = omega (arith, h, length-append path (b'\n' ∷ []))

  cstr-answer : (tag : Bytes) → cstr (answer (path_in w.tags tag)) ≡ answer (path_in w.tags tag)
  unfolding path_in
  cstr-answer tag = by_found (list_get_node compare_tag_tag w.tags tag) refl
    where
      by_found :
          (o : Option Tag)
          → list_get_node compare_tag_tag w.tags tag ≡ o
          → cstr (answer (Option.map (λ t. t.path) o)) ≡ answer (Option.map (λ t. t.path) o)
      by_found none e = unfold cstr in refl
      by_found (some t) e =
          let is : IsTag t = All-get_node tag_key IsTag w.tags tag e v.entries in
          cstr_id (t.path ++ b'\n' ∷ []) (
            All-append (λ c. c ≢ 0) t.path (b'\n' ∷ [])
              (All-mono (λ c. (c ≢ 0) × (is_blank c ≡ false)) (λ c. c ≢ 0) t.path (λ c p. p.0)
                is.target)
              (omega arith, tt))

  -- In a well-formed state, a client that asks for a tag prints the path that the daemon holds for it and a
  -- newline, or BAD if it holds none, and exits with success, if its shell is registered, the path has at
  -- most 98 bytes, the system's calls succeed, and a NUL and further on a space or newline are behind its
  -- message in the daemon's buffer.
  pub client_gets :
      (s : Shell) (tag : Bytes)
      → get_shell w (pos n) ≡ some s
      → Online sys os w old (print_nat n) (cmd_name get ∷ tag ∷ [])
      → Fits os w old n (cmd_name get) (tag ∷ []) m
      → has_blank m ≡ true
      → FitsGet (path_in w.tags tag)
      → client_main sys
        ≡ ok (
          exchanged w.cache_dir
              (print_nat n)
              (message os w old n (cmd_name get) (tag ∷ []) m)
              (answer (path_in w.tags tag)),
          exit_success,
        )
  client_gets s tag e on f b fits =
      let run = get-answer os w (pos n) s tag m [] e f.arguments.0 b fits in
      exchange os w old n (cmd_name get) (tag ∷ []) m sys on f
        (sendto w s.sun_path (answer (path_in w.tags tag))) (answer (path_in w.tags tag))
        (dispatch-name os w (pos n) (some (spell (tag ∷ []) m)) get ∙ (unfold cmd_func in run))
        (unfold sendto in
          ap (λ path. w.sent ++ reply_to path (answer (path_in w.tags tag))) (addr w (pos n) s e v))
        (tag_path-fits (path_in w.tags tag) fits)
      ∙ ap
          (λ text. ok (
            exchanged w.cache_dir (print_nat n) (message os w old n (cmd_name get) (tag ∷ []) m)
                text,
            exit_success,
          ))
          (cstr-answer tag)
