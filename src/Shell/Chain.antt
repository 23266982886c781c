-- ===== src/Shell/Chain.antt =====
-- The lists of commands (src/shell/corshell.c) as a chain, and a loop over them as a fold.
pub mod Nodes
pub mod Links
use nvol.Base.{
  ℕ, zero, suc, ◌+◌, ◌^◌, ◌≤◌, ◌<◌, ◌≡◌, ◌≢◌, refl, ap, ◌∙◌, List, [], ◌∷◌, ◌++◌, Bool, true, false,
  Option, none, some, arith, leb, ◌==◌, not, ◌&&◌, ◌||◌, if◌then◌else◌, length, length-append,
  ==_ne,
}
use nvol.Base.Bytes.{inc32}
use nvol.Shell.{
  Command, CommandList, Lists, Iterator, Loop, leave, go_on, no_commands, cmd_get, list_ends,
  cmd_next, for_commands,
}
use nvol.Strsub.Chain.{Absent}

-- From `a` the `next` pointers lead through the distinct nodes of the list to null.
abbrev pub Chain : Lists → ℕ → List ℕ → Type 0
Chain lists a [] = a ≡ 0
Chain lists a (b ∷ l) = (a ≡ b) × (b ≢ 0) × Absent b l × Chain lists (lists b).next l

-- The entries of an array from the `i`th on, up to the `cnt`th or to one without a name.
abbrev pub Entries : (ℕ → Option Command) → ℕ → ℕ → List Command → Type 0
Entries cmds cnt i [] =
    (not (cnt == 0) && leb cnt i || elim (cmds i) [ none ↦ true | some cmd ↦ false ]) ≡ true
Entries cmds cnt i (cmd ∷ rest) =
    (cmds i ≡ some cmd)
    × ((not (cnt == 0) && leb cnt i) ≡ false)
    × (i + 1 < 2 ^ 32)
    × Entries cmds cnt (i + 1) rest

-- The list has these commands, at least one.
abbrev pub Holds : CommandList → List Command → Type 0
Holds node [] = ⊥
Holds node (cmd ∷ rest) =
    (cmds : ℕ → Option Command) × (node.cmds ≡ some cmds) × Entries cmds node.cnt 0 (cmd ∷ rest)

abbrev pub AllHold : Lists → List ℕ → List (List Command) → Type 0
AllHold lists [] [] = Unit
AllHold lists [] (cs ∷ css) = ⊥
AllHold lists (a ∷ l) [] = ⊥
AllHold lists (a ∷ l) (cs ∷ css) = Holds (lists a) cs × AllHold lists l css

-- Where the commands stand, in the order of the chain.
abbrev pub positions_from : ℕ → ℕ → List Command → List (Iterator × Command)
positions_from a i [] = []
positions_from a i (cmd ∷ rest) = (record { lst = a; idx = i }, cmd) ∷ positions_from a (i + 1) rest

abbrev pub positions : List ℕ → List (List Command) → List (Iterator × Command)
positions [] css = []
positions (a ∷ l) [] = []
positions (a ∷ l) (cs ∷ css) = positions_from a 0 cs ++ positions l css

-- A loop over positions that are known.
abbrev pub fold_commands :
    {A : Type 0}
    → (Iterator → Command → A → Option (Loop A))
    → List (Iterator × Command)
    → A
    → Option A
fold_commands body [] a = some a
fold_commands body ((it, cmd) ∷ rest) a = elim (body it cmd a) [
  | none ↦ none
  | some round ↦ elim round [ leave b ↦ some b | go_on b ↦ fold_commands body rest b ]
]

-- The first round of such a loop.
pub fold_commands-round :
    {A : Type 0} (body : Iterator → Command → A → Option (Loop A)) (it : Iterator) (cmd : Command)
    (rest : List (Iterator × Command)) (a : A) (r : Option (Loop A))
    → body it cmd a ≡ r
    → fold_commands body ((it, cmd) ∷ rest) a ≡ elim r [
      | none ↦ none
      | some round ↦ elim round [ leave b ↦ some b | go_on b ↦ fold_commands body rest b ]
    ]
fold_commands-round {A} body it cmd rest a r e =
    ap
      (λ (x : Option (Loop A)). elim x [
        | none ↦ none
        | some round ↦ elim round [ leave b ↦ some b | go_on b ↦ fold_commands body rest b ]
      ])
      e

module _ {A : Type 0} (lists : Lists) (unnamed : A → Option (Loop A))
    (body : Iterator → Command → A → Option (Loop A)) where
  abbrev Folds : ℕ → Iterator → A → List (Iterator × Command) → Type 0
  Folds fuel it x rest = for_commands fuel lists unnamed body it x ≡ fold_commands body rest x

  -- Two continuations of a round that agree.
  same_round :
      (r : Option (Loop A)) (f g : A → Option A)
      → ((y : A) → f y ≡ g y)
      → elim r [ none ↦ none | some round ↦ elim round [ leave b ↦ some b | go_on b ↦ f b ] ]
        ≡ elim r [ none ↦ none | some round ↦ elim round [ leave b ↦ some b | go_on b ↦ g b ] ]
  same_round none f g e = refl
  same_round (some (leave b)) f g e = refl
  same_round (some (go_on b)) f g e = e b

  -- One command, and what `_cmd_next` leads to.
  one :
      (f : ℕ) (it : Iterator) (cmd : Command) (rest : List (Iterator × Command)) (x : A)
      → no_commands lists it ≡ false
      → cmd_get lists it ≡ some cmd
      → ((y : A)
          → elim (cmd_next lists it) [
            | none ↦ some y
            | some it' ↦ for_commands f lists unnamed body it' y
          ]
            ≡ fold_commands body rest y)
      → Folds (suc f) it x ((it, cmd) ∷ rest)
  unfolding for_commands
  one f it cmd rest x there got next = rw (there, got) (same_round (body it cmd x) _ _ next)

  -- The rest of a list, and of the chain.
  from_entry :
      (f a i : ℕ) (cmd : Command) (cs : List Command) (l : List ℕ) (css : List (List Command))
      (cmds : ℕ → Option Command) (x : A)
      → (lists a).cmds ≡ some cmds
      → Entries cmds (lists a).cnt i (cmd ∷ cs)
      → Chain lists (lists a).next l
      → AllHold lists l css
      → length (positions_from a i (cmd ∷ cs) ++ positions l css) ≤ f
      → Folds f (record { lst = a; idx = i }) x (positions_from a i (cmd ∷ cs) ++ positions l css)
  unfolding no_commands cmd_get cmd_next list_ends for_commands
  from_entry zero a i cmd cs l css cmds x e entries chain hold fuel = absurd (omega arith)
  from_entry (suc f) a i cmd [] [] [] cmds x e (here, free, small, end) chain hold fuel =
      let next : inc32 i ≡ i + 1 = omega arith in
      one f (record { lst = a; idx = i }) cmd [] x (rw (no_commands, e) refl) (rw (cmd_get, e) here)
        (λ y. simp (cmd_next, list_ends, cmd_get, next, e, end, chain))
  from_entry (suc f) a i cmd [] [] (cs' ∷ css) cmds x e entries chain hold fuel = absurd hold
  from_entry (suc f) a i cmd [] (b ∷ l) [] cmds x e entries chain hold fuel = absurd hold
  from_entry (suc f) a i cmd [] (b ∷ l) ([] ∷ css) cmds x e entries chain hold fuel = absurd hold.0
  from_entry (suc f) a i cmd [] (b ∷ l) ((c ∷ cs') ∷ css) cmds x e (here, free, small, end)
        (to, real, once, chain) ((cmds', e', entries'), hold) fuel =
      let next : inc32 i ≡ i + 1 = omega arith in
      let rest = from_entry f b 0 c cs' l css cmds' in
      one f (record { lst = a; idx = i }) cmd (positions (b ∷ l) ((c ∷ cs') ∷ css)) x
        (rw (no_commands, e) refl) (rw (cmd_get, e) here)
        (λ y.
          simp (cmd_next, list_ends, cmd_get, next, e, end, to, ==_ne b 0 real)
            (rest y e' entries' chain hold (omega arith)))
  from_entry (suc f) a i cmd (cmd' ∷ cs) l css cmds x e
        (here, free, small, (there, free', small', entries)) chain hold fuel =
      let next : inc32 i ≡ i + 1 = omega arith in
      let rest = from_entry f a (i + 1) cmd' cs l css cmds in
      one f (record { lst = a; idx = i }) cmd
        (positions_from a (i + 1) (cmd' ∷ cs) ++ positions l css) x (rw (no_commands, e) refl)
        (rw (cmd_get, e) here)
        (λ y.
          simp (cmd_next, list_ends, cmd_get, next, e, free', there)
            (rest y e (there, free', small', entries) chain hold (omega arith)))

-- The chain starts with the static list, and these are its lists' commands.
pub record IsChain (lists : Lists) (first : ℕ) (l : List ℕ) (css : List (List Command))
    : Type 0 where
  pub chain : Chain lists first l
  pub hold : AllHold lists l css

-- With fuel for every command, the loop visits exactly the commands of the chain, in its order.
pub for_commands-fold :
    {A : Type 0} (lists : Lists) (unnamed : A → Option (Loop A))
    (body : Iterator → Command → A → Option (Loop A)) (f a : ℕ) (l : List ℕ)
    (css : List (List Command)) (x : A)
    → IsChain lists a (a ∷ l) css
    → length (positions (a ∷ l) css) ≤ f
    → for_commands f lists unnamed body (record { lst = a; idx = 0 }) x
      ≡ fold_commands body (positions (a ∷ l) css) x
for_commands-fold lists unnamed body f a l [] x h fuel = absurd h.hold
for_commands-fold lists unnamed body f a l ([] ∷ css) x h fuel = absurd h.hold.0
for_commands-fold lists unnamed body f a l ((c ∷ cs) ∷ css) x h fuel =
    let ((cmds, e, entries), hold) = h.hold in
    let (same, real, once, rest) = h.chain in
    from_entry lists unnamed body f a 0 c cs l css cmds x e entries rest hold fuel
