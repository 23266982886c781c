-- ===== src/Shell/Script/Steps.antt =====
-- The steps of `corshell_script_run` of src/shell/corshell.c come to their end, and keep the lists of
-- commands.
use nvol.Base.{
  ℕ, ◌≤◌, ◌≡◌, refl, sym, ap, ◌∙◌, List, ◌∷◌, Bool, Option, none, some, leb, ◌==◌, ◌&&◌, ◌||◌,
  if◌then◌else◌, length, flatten, Bool-cases, Option-cases, inl, inr,
}
use Prim.Derive.{subst}
use nvol.Base.Integer.{ℤ, pos, negsuc, is_negative, ◌==ℤ◌}
use nvol.Dictionary.Keys.{strcmp_eq}
use nvol.Shell.Chain.{IsChain, positions}
use nvol.Shell.Runs.{first_named, run_found, corshell_cmd_run-first, corshell_cmd_run-comment}
use nvol.Shell.Script.{
  Script, handles, on_error, is_normal, clear_error, note_error, check_cancel, run_command_line,
  is_in_error, run_words, word_exit, word_onerror, word_clearerror,
}
use nvol.Shell.{
  Command, Lists, Loop, leave, go_on, Shell, ShellOut, Call, static_list, argument, initial,
  asks_usage, corshell_print, print_usage, corshell_cmd_run, out_null, out_std, script_exit,
}

-- The code runs to its end, and the lists of commands are as they were.
abbrev pub Ends : {W A : Type 0} → Lists → Option A → (A → Shell W) → Type 0
Ends {W} {A} lists m shell = (a : A) × (m ≡ some a) × ((shell a).lists ≡ lists)

abbrev pub shell_of : {W : Type 0} → Loop (Script × Shell W) → Shell W
shell_of (leave (st, s)) = s
shell_of (go_on (st, s)) = s

-- Every command returns, and leaves the lists as they are.
abbrev pub CallsEnd : {W : Type 0} → Call W → Lists → Type 0
CallsEnd {W} call lists =
    (fp : ℕ) (argv : List (List ℕ)) (s : Shell W)
    → s.lists ≡ lists
    → Ends lists (call fp argv s) (λ r. r.1)

module _ {W : Type 0} (shell_out : ShellOut W) (call : Call W) (lists : Lists) (walk : ℕ)
    (name : List ℕ) (unfit : Bool × ℕ → ℤ) (l : List ℕ) (css : List (List Command))
    (chain : IsChain lists static_list (static_list ∷ l) css)
    (enough : length (positions (static_list ∷ l) css) ≤ walk) (calls : CallsEnd call lists) where
  print_usage-lists :
      (cmd : Command) (usage : Bool) (res : ℤ) (s : Shell W)
      → (print_usage shell_out cmd usage res s).lists ≡ s.lists
  unfolding print_usage corshell_print
  print_usage-lists cmd usage res s = elim (Option-cases cmd.usage) [
    | inl none_ ↦ rw none_ refl
    | inr (text, e) ↦ elim (Bool-cases (usage || res ==ℤ negsuc 2)) [
      | inl due ↦ rw (e, due) refl
      | inr fine ↦ rw (e, fine) refl
    ]
  ]

  abbrev finish : List (List ℕ) → Command → Option (ℤ × Shell W) → Option (ℤ × Shell W)
  finish argv cmd r = elim r [
    | none ↦ none
    | some (res, s') ↦ some (res, print_usage shell_out cmd (asks_usage argv) res s')
  ]

  run_found-Ends :
      (argv : List (List ℕ)) (found : Option Command) (s : Shell W)
      → s.lists ≡ lists
      → Ends lists (run_found shell_out call argv found s) (λ r. r.1)
  unfolding corshell_print print_usage
  run_found-Ends argv none s h = (_, refl, h)
  run_found-Ends argv (some cmd) s h = elim (Bool-cases (asks_usage argv)) [
    | inl e ↦ (
      (pos 0, print_usage shell_out cmd (asks_usage argv) (pos 0) s),
      ap (finish argv cmd) (ap (λ (b : Bool). if b then some (pos 0, s) else call cmd.fp argv s) e),
      print_usage-lists cmd (asks_usage argv) (pos 0) s ∙ h,
    )
    | inr e ↦
        let ((res, s'), run, same) = calls cmd.fp argv s h in
        (
          (res, print_usage shell_out cmd (asks_usage argv) res s'),
          ap (finish argv cmd)
              (ap (λ (b : Bool). if b then some (pos 0, s) else call cmd.fp argv s) e ∙ run),
          print_usage-lists cmd (asks_usage argv) res s' ∙ same,
        )
  ]

  cmd_run-Ends :
      (argv : List (List ℕ)) (s : Shell W)
      → s.lists ≡ lists
      → Ends lists (corshell_cmd_run shell_out call walk argv s) (λ r. r.1)
  cmd_run-Ends argv s h =
      let here = subst (λ x. IsChain x static_list (static_list ∷ l) css) (sym h) chain in
      elim (Bool-cases (initial argv 0 == 35)) [
        | inl e ↦
            ((pos 0, s), corshell_cmd_run-comment shell_out call argv walk l css s here enough e, h)
        | inr e ↦
            let (r, run, same) =
              run_found-Ends argv (first_named (argument argv 0) (flatten css)) s h in
            (r, corshell_cmd_run-first shell_out call argv walk l css s here enough e ∙ run, same)
      ]

  note_error-lists :
      (argv : List (List ℕ)) (n : ℕ) (status : ℤ) (st : Script) (s : Shell W)
      → (note_error shell_out call walk name unfit argv n status st s).1.lists ≡ s.lists
  unfolding note_error corshell_print
  note_error-lists argv n status st s = elim (Bool-cases (is_negative status)) [
    | inl e ↦ elim (Bool-cases (leb n 1)) [ inl f ↦ rw (e, f) refl | inr f ↦ rw (e, f) refl ]
    | inr e ↦ rw e refl
  ]

  check_cancel-lists :
      (argv : List (List ℕ)) (n : ℕ) (st : Script) (s : Shell W)
      → (check_cancel shell_out call walk name unfit argv n st s).1.lists ≡ s.lists
  unfolding check_cancel corshell_print
  check_cancel-lists argv n st s = elim (Bool-cases (is_negative s.status)) [
    | inl e ↦ rw e refl
    | inr e ↦ elim (Bool-cases (is_negative (shell_out out_null none s.world).0)) [
      | inl f ↦ rw (e, f) refl
      | inr f ↦ rw (e, f) refl
    ]
  ]

  on_error-lists :
      (argv : List (List ℕ)) (n : ℕ) (st : Script) (s : Shell W)
      → (on_error shell_out call walk name unfit argv n st s).1.lists ≡ s.lists
  unfolding on_error corshell_print
  on_error-lists argv n st s =
      elim (Bool-cases (is_negative st.status && handles unfit argv st.status)) [
        | inl e ↦ rw e refl
        | inr e ↦ rw e refl
      ]

  clear_error-lists :
      (n : ℕ) (st : Script) (s : Shell W)
      → (clear_error shell_out call walk name unfit n st s).1.lists ≡ s.lists
  unfolding clear_error corshell_print
  clear_error-lists n st s = elim (Bool-cases (is_normal st.error_state)) [
    | inl e ↦ rw e refl
    | inr e ↦ rw e refl
  ]

  pub run_words-Ends :
      (argv : List (List ℕ)) (n : ℕ) (st : Script) (s : Shell W)
      → s.lists ≡ lists
      → Ends lists (run_words shell_out call walk name unfit argv n (st, s)) shell_of
  unfolding run_words run_command_line corshell_print
  run_words-Ends argv n st s h = elim (Bool-cases (strcmp_eq (argument argv 0) word_exit)) [
    | inl e ↦ (leave (st, corshell_print shell_out out_std (script_exit name n) s), rw e refl, h)
    | inr e ↦ elim (Bool-cases (strcmp_eq (argument argv 0) word_onerror)) [
      | inl f ↦ (
        go_on (on_error shell_out call walk name unfit argv n st s),
        rw (e, f) refl,
        on_error-lists argv n st s ∙ h,
      )
      | inr f ↦ elim (Bool-cases (strcmp_eq (argument argv 0) word_clearerror)) [
        | inl g ↦ (
          go_on (clear_error shell_out call walk name unfit n st s),
          rw (e, f, g) refl,
          clear_error-lists n st s ∙ h,
        )
        | inr g ↦ elim (Bool-cases (is_in_error st.error_state)) [
          | inl i ↦ (go_on (st, s), rw (e, f, g, i) refl, h)
          | inr i ↦
              let ((status, s'), run, same) = cmd_run-Ends argv s h in
              let noted = note_error shell_out call walk name unfit argv n status st s' in
              (
                go_on (check_cancel shell_out call walk name unfit argv n noted.0 noted.1),
                rw (run_words, run_command_line, e, f, g, i, run) refl,
                check_cancel-lists argv n noted.0 noted.1
                    ∙ note_error-lists argv n status st s'
                    ∙ same,
              )
        ]
      ]
    ]
  ]
