-- ===== src/Shell/Chain/Nodes.antt =====
-- The links between lists of commands, and writes to them (src/shell/corshell.c).
use nvol.Base.{
  ℕ, ◌≡◌, ◌≢◌, refl, sym, ap, ◌∙◌, List, [], ◌∷◌, ◌++◌, ◌==◌, ==_ne, ==_refl, ==_iff, Bool-cases,
  inl, inr,
}
use Prim.Derive.{subst}
use nvol.Shell.Chain.{Chain, Entries, Holds, AllHold}
use nvol.Shell.Lists.{write_list, set_next}
use nvol.Shell.{Command, Lists}
use nvol.Strsub.Chain.{Absent}

abbrev pub last_of : ℕ → List ℕ → ℕ
last_of a [] = a
last_of a (b ∷ l) = last_of b l

pub Absent-last_of : (a b : ℕ) (l rest : List ℕ) → Absent a (b ∷ l ++ rest) → a ≢ last_of b l
Absent-last_of a b [] rest (ne, out) = ne
Absent-last_of a b (c ∷ l) rest (ne, out) = Absent-last_of a c l rest out

pub Absent-end : (a b : ℕ) (l : List ℕ) → Absent a (b ∷ l) → a ≢ last_of b l
Absent-end a b [] (ne, out) = ne
Absent-end a b (c ∷ l) (ne, out) = Absent-end a c l out

pub Absent-snoc : (a h : ℕ) (l : List ℕ) → Absent a l → a ≢ h → Absent a (l ++ h ∷ [])
Absent-snoc a h [] out ne = (ne, tt)
Absent-snoc a h (b ∷ l) (other, out) ne = (other, Absent-snoc a h l out ne)

pub Absent-drop : (a h : ℕ) (xs ys : List ℕ) → Absent a (xs ++ h ∷ ys) → Absent a (xs ++ ys)
Absent-drop a h [] ys (ne, out) = out
Absent-drop a h (x ∷ xs) ys (ne, out) = (ne, Absent-drop a h xs ys out)

pub set_next_self : (lists : Lists) (a n : ℕ) → (set_next lists a n a).next ≡ n
unfolding set_next write_list
set_next_self lists a n = rw (==_refl a) refl

pub set_next_other :
    (lists : Lists) (a n b : ℕ) → a ≢ b → (set_next lists a n b).next ≡ (lists b).next
unfolding set_next write_list
set_next_other lists a n b h = rw (==_ne a b h) refl

pub set_next-cmds : (lists : Lists) (a n b : ℕ) → (set_next lists a n b).cmds ≡ (lists b).cmds
unfolding set_next write_list
set_next-cmds lists a n b = elim (Bool-cases (a == b)) [
  | inl same ↦ rw same (ap (λ c. (lists c).cmds) ((==_iff a b).0 same))
  | inr other ↦ rw other refl
]

pub set_next-cnt : (lists : Lists) (a n b : ℕ) → (set_next lists a n b).cnt ≡ (lists b).cnt
unfolding set_next write_list
set_next-cnt lists a n b = elim (Bool-cases (a == b)) [
  | inl same ↦ rw same (ap (λ c. (lists c).cnt) ((==_iff a b).0 same))
  | inr other ↦ rw other refl
]

-- The commands of a list do not depend on its link.
pub Holds-set_next :
    (lists : Lists) (a n b : ℕ) (cs : List Command)
    → Holds (lists b) cs
    → Holds (set_next lists a n b) cs
Holds-set_next lists a n b [] h = absurd h
Holds-set_next lists a n b (c ∷ cs) (cmds, e, entries) = (
  cmds,
  set_next-cmds lists a n b ∙ e,
  subst (λ k. Entries cmds k 0 (c ∷ cs)) (sym (set_next-cnt lists a n b)) entries,
)

pub AllHold-set_next :
    (lists : Lists) (a n : ℕ) (l : List ℕ) (css : List (List Command))
    → AllHold lists l css
    → AllHold (set_next lists a n) l css
AllHold-set_next lists a n [] [] h = tt
AllHold-set_next lists a n [] (cs ∷ css) h = absurd h
AllHold-set_next lists a n (b ∷ l) [] h = absurd h
AllHold-set_next lists a n (b ∷ l) (cs ∷ css) (h, rest) =
    (Holds-set_next lists a n b cs h, AllHold-set_next lists a n l css rest)

pub AllHold-snoc :
    (lists : Lists) (h : ℕ) (cs : List Command) (l : List ℕ) (css : List (List Command))
    → AllHold lists l css
    → Holds (lists h) cs
    → AllHold lists (l ++ h ∷ []) (css ++ cs ∷ [])
AllHold-snoc lists h cs [] [] all own = (own, tt)
AllHold-snoc lists h cs [] (c ∷ css) all own = absurd all
AllHold-snoc lists h cs (b ∷ l) [] all own = absurd all
AllHold-snoc lists h cs (b ∷ l) (c ∷ css) (first, all) own =
    (first, AllHold-snoc lists h cs l css all own)

-- A write to another node leaves a chain alone.
pub Chain-set_next :
    (lists : Lists) (b n a : ℕ) (l : List ℕ)
    → Chain lists a l
    → Absent b l
    → Chain (set_next lists b n) a l
Chain-set_next lists b n a [] c out = c
Chain-set_next lists b n a (h ∷ l) (e, real, once, c) (ne, out) = (
  e,
  real,
  once,
  rw (set_next_other lists b n h ne) (Chain-set_next lists b n (lists h).next l c out),
)
