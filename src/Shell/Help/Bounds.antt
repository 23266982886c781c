-- ===== src/Shell/Help/Bounds.antt =====
-- Which bytes `corshell_cmd_help` of src/shell/corshell.c writes.
use Prim.Derive.{subst}
use nvol.Base.{
  ℕ, ◌+◌, ◌-◌, ◌%◌, ◌^◌, ◌≤◌, ◌<◌, ◌≡◌, ◌⊎◌, inl, inr, refl, sym, ◌∙◌, List, [], ◌∷◌, ◌++◌, Option,
  some, arith, ltb, leb, length, take, flatten, length-append, length-take, Bool-cases,
  Option-cases, ltb→lt,
}
use nvol.Dictionary.Keys.{c_string}
use nvol.Shell.Chain.{IsChain, positions, fold_commands, fold_commands-round, for_commands-fold}
use nvol.Shell.Help.{help_line, print_at, add_help, corshell_cmd_help}
use nvol.Shell.Runs.{commands_of, commands_of-positions}
use nvol.Shell.{Command, Lists, Iterator, Loop, leave, go_on, static_list, cmd_first}
use nvol.Strsub.Strings.{write_bytes_outside}

-- The name and the usage have fewer than 2 ^ 29 bytes each.
abbrev pub IsSmall : Command → Type 0
IsSmall cmd =
    (length (c_string cmd.cmd) < 2 ^ 29)
    × ((usage : List ℕ) → cmd.usage ≡ some usage → length (c_string usage) < 2 ^ 29)

abbrev pub AreSmall : List Command → Type 0
AreSmall [] = Unit
AreSmall (cmd ∷ rest) = IsSmall cmd × AreSmall rest

abbrev value_of : {A : Type 0} → Loop A → A
value_of (leave a) = a
value_of (go_on a) = a

after_round :
    {A : Type 0} (P : A → Type 0) (body : Iterator → Command → A → Option (Loop A)) (it : Iterator)
    (cmd : Command) (ps : List (Iterator × Command)) (a : A) (r : Loop A)
    → P (value_of r)
    → ((b : A) → P b → (c : A) × (fold_commands body ps b ≡ some c) × P c)
    → fold_commands body ((it, cmd) ∷ ps) a
      ≡ elim r [ leave b ↦ some b | go_on b ↦ fold_commands body ps b ]
    → (b : A) × (fold_commands body ((it, cmd) ∷ ps) a ≡ some b) × P b
after_round P body it cmd ps a (leave b) p rest e = (b, e, p)
after_round P body it cmd ps a (go_on b) p rest e = let (c, run, p') = rest b p in (c, e ∙ run, p')

-- A loop whose rounds return and keep `P` returns and keeps `P`.
fold_commands-keeps :
    {A : Type 0} (P : A → Type 0) (body : Iterator → Command → A → Option (Loop A))
    (ps : List (Iterator × Command)) (a : A)
    → ((it : Iterator) (cmd : Command) (b : A)
        → IsSmall cmd
        → P b
        → (r : Loop A) × (body it cmd b ≡ some r) × P (value_of r))
    → AreSmall (commands_of ps)
    → P a
    → (b : A) × (fold_commands body ps a ≡ some b) × P b
fold_commands-keeps P body [] a keeps small p = (a, refl, p)
fold_commands-keeps {A} P body ((it, cmd) ∷ ps) a keeps (own, small) p =
    let (r, run, p') = keeps it cmd a own p in
    after_round P body it cmd ps a r p' (λ b. fold_commands-keeps P body ps b keeps small)
      (fold_commands-round body it cmd ps a (some r) run)

module _ (cell : ℕ → ℕ) (dst len : ℕ) (small : len < 2 ^ 31) where
  -- The text so far and its NUL are in the buffer, outside of which the memory is as it was.
  record Within (r : ℕ × (ℕ → ℕ)) : Type 0 where
    fits : r.0 ≤ len - 1
    outside : (a : ℕ) → (a < dst) ⊎ (dst + len ≤ a) → r.1 a ≡ cell a

  print_at-outside :
      (mem : ℕ → ℕ) (offset a : ℕ) (text : List ℕ)
      → offset < len
      → (a < dst) ⊎ (dst + len ≤ a)
      → print_at mem (dst + offset) (len - offset) text a ≡ mem a
  unfolding print_at
  print_at-outside mem offset a text room out =
      let part = take (len - offset - 1) text in
      write_bytes_outside mem (dst + offset) (part ++ 0 ∷ []) a
        (omega (arith, out, length-append part (0 ∷ []), length-take (len - offset - 1) text))

  length-help_line :
      (cmd usage : List ℕ)
      → length (help_line cmd usage) ≡ length (c_string cmd) + length (c_string usage) + 3
  unfolding help_line
  length-help_line cmd usage = omega (
    arith,
    length-append (c_string cmd ++ 32 ∷ c_string usage) (13 ∷ 10 ∷ []),
    length-append (c_string cmd) (32 ∷ c_string usage),
  )

  add_help-Within :
      (it : Iterator) (cmd : Command) (r : ℕ × (ℕ → ℕ))
      → IsSmall cmd
      → Within r
      → (r' : Loop (ℕ × (ℕ → ℕ))) × (add_help dst len it cmd r ≡ some r') × Within (value_of r')
  unfolding add_help
  add_help-Within it cmd (offset, mem) (name, usages) w = elim (Option-cases cmd.usage) [
    | inl e ↦ (go_on (offset, mem), rw e refl, w)
    | inr (usage, e) ↦
        let l = (length (c_string usage) + length (c_string cmd.cmd)) % 2 ^ 32 in
        let text = help_line cmd.cmd usage in
        let size = length-help_line cmd.cmd usage in
        elim (Bool-cases (leb ((offset + 3) % 2 ^ 32) len)) [
          | inr over ↦ (go_on (offset, mem), rw (e, over) refl, w)
          | inl room ↦ elim (Bool-cases (ltb ((offset + l + 4) % 2 ^ 32) len)) [
            | inr over ↦ (leave (offset, mem), rw (e, room, over) refl, w)
            | inl fits ↦
                let below = ltb→lt _ _ fits in
                let short = usages usage e in
                let here : offset + length text + 1 < len =
                  omega (arith, below, short, name, size, w.fits, small) in
                (
                  go_on (
                    (offset + length text) % 2 ^ 32,
                    print_at mem (dst + offset) (len - offset) text,
                  ),
                  rw (e, room, fits) refl,
                  record {
                    fits = omega (arith, here, small);
                    outside = λ a out.
                        print_at-outside mem offset a text (omega (arith, here)) out
                        ∙ w.outside a out;
                  },
                )
          ]
        ]
  ]

  -- `corshell_cmd_help` with a buffer of fewer than 2 ^ 31 bytes, if the names and usages have fewer
  -- than 2 ^ 29 bytes each, with fuel for every command of the chain of lists: it returns, at most
  -- the size of the buffer, or 1 if that is 0, and leaves every address outside of the buffer as it was.
  pub corshell_cmd_help-bounds :
      (fuel : ℕ) (lists : Lists) (l : List ℕ) (css : List (List Command)) (a : ℕ)
      → IsChain lists static_list (static_list ∷ l) css
      → length (positions (static_list ∷ l) css) ≤ fuel
      → AreSmall (flatten css)
      → (a < dst) ⊎ (dst + len ≤ a)
      → (n : ℕ) × (mem : ℕ → ℕ) × (corshell_cmd_help fuel lists cell dst len ≡ some (n, mem))
        × (n ≤ len - 1 + 1)
        × (mem a ≡ cell a)
  unfolding corshell_cmd_help cmd_first
  corshell_cmd_help-bounds fuel lists l css a chain enough sizes out =
      let ps = positions (static_list ∷ l) css in
      let start : Within (0, cell) = record { fits = omega arith; outside = λ b h. refl } in
      let ((offset, mem), fold, w) =
        fold_commands-keeps Within (add_help dst len) ps (0, cell) add_help-Within
          (subst AreSmall (sym (commands_of-positions lists (static_list ∷ l) css chain.hold))
            sizes)
          start in
      let loop =
        for_commands-fold lists (λ a. some (go_on a)) (add_help dst len) fuel static_list l css
          (0, cell) chain enough
        ∙ fold in
      (
        (offset + 1) % 2 ^ 32,
        mem,
        rw (corshell_cmd_help, loop) refl,
        omega (arith, w.fits, small),
        w.outside a out,
      )
