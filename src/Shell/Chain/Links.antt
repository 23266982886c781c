-- ===== src/Shell/Chain/Links.antt =====
-- Lists of commands that `corshell_install` and `corshell_uninstall` of src/shell/corshell.c link.
use nvol.Base.{
  ℕ, zero, suc, ◌+◌, ◌<◌, ◌≡◌, ◌≢◌, refl, sym, ◌∙◌, List, [], ◌∷◌, ◌++◌, some, arith, length, ==_ne,
  ==_refl,
}
use nvol.Shell.Chain.Nodes.{
  Absent-last_of, Absent-end, Absent-snoc, Absent-drop, set_next_self, set_next_other,
  AllHold-set_next, AllHold-snoc, Chain-set_next, last_of,
}
use nvol.Shell.Chain.{Chain, Holds, AllHold, IsChain}
use nvol.Shell.Lists.{set_next, last_list, find_list, corshell_install, corshell_uninstall}
use nvol.Shell.{Command, Lists, static_list}
use nvol.Strsub.Chain.{Absent}

last_list-Chain :
    (f : ℕ) (lists : Lists) (a : ℕ) (l : List ℕ)
    → Chain lists a (a ∷ l)
    → length l < f
    → last_list f lists a ≡ some (last_of a l)
unfolding last_list
last_list-Chain zero lists a l c fuel = absurd (omega arith)
last_list-Chain (suc f) lists a [] (e, real, once, end) fuel = rw end refl
last_list-Chain (suc f) lists a (b ∷ l) (e, real, once, (to, real', once', c)) fuel =
    rw (to, ==_ne b 0 real') (last_list-Chain f lists b l (refl, real', once', c) (omega arith))

Absent-middle : (a h : ℕ) (xs ys : List ℕ) → Absent a (xs ++ h ∷ ys) → a ≢ h
Absent-middle a h [] ys (ne, out) = ne
Absent-middle a h (x ∷ xs) ys (ne, out) = Absent-middle a h xs ys out

last_of-real :
    (lists : Lists) (a : ℕ) (l rest : List ℕ) → Chain lists a (a ∷ l ++ rest) → last_of a l ≢ 0
last_of-real lists a [] rest (e, real, once, c) = real
last_of-real lists a (b ∷ l) rest (e, real, once, (to, real', once', c)) =
    last_of-real lists b l rest (refl, real', once', c)

-- The last node of the chain leads to the new one.
extended :
    (lists : Lists) (h a : ℕ) (l : List ℕ)
    → Chain lists a (a ∷ l)
    → h ≢ 0
    → Absent h (a ∷ l)
    → Chain (set_next (set_next lists h 0) (last_of a l) h) a (a ∷ l ++ h ∷ [])
extended lists h a [] (e, real, once, end) there (ne, out) = (
  e,
  real,
  ((λ s. ne (sym s)), tt),
  (
    set_next_self (set_next lists h 0) a h,
    there,
    tt,
    set_next_other (set_next lists h 0) a h h (λ s. ne (sym s)) ∙ set_next_self lists h 0,
  ),
)
extended lists h a (b ∷ l) (e, real, once, (to, real', once', c)) there (ne, out) = (
  e,
  real,
  Absent-snoc a h (b ∷ l) once (λ s. ne (sym s)),
  rw (set_next_other (set_next lists h 0) (last_of b l) h a (λ s. Absent-end a b l once (sym s))) (
      rw (set_next_other lists h 0 a ne, to)
        (extended lists h b l (refl, real', once', c) there out)),
)

-- `corshell_install` of a list that is not in the chain, with fuel for its nodes: it ends, and the
-- new list, with its commands, is the last of the chain.
pub corshell_install_lem :
    (fuel : ℕ) (lists : Lists) (h : ℕ) (l : List ℕ) (css : List (List Command)) (cs : List Command)
    → IsChain lists static_list (static_list ∷ l) css
    → length l < fuel
    → h ≢ 0
    → Absent h (static_list ∷ l)
    → Holds (lists h) cs
    → (lists' : Lists) × (corshell_install fuel lists h ≡ some lists')
      × IsChain lists' static_list (static_list ∷ l ++ h ∷ []) (css ++ cs ∷ [])
unfolding corshell_install
corshell_install_lem fuel lists h l css cs chain enough real out own =
    let walk = last_list-Chain fuel lists static_list l chain.chain enough in
    let end = last_of static_list l in
    let lists' = set_next (set_next lists h 0) end h in
    let all : AllHold lists (static_list ∷ l ++ h ∷ []) (css ++ cs ∷ []) =
      AllHold-snoc lists h cs (static_list ∷ l) css chain.hold own in
    (
      lists',
      rw (corshell_install, walk) refl,
      record {
        chain = extended lists h static_list l chain.chain real out;
        hold =
            AllHold-set_next (set_next lists h 0) end h (static_list ∷ l ++ h ∷ []) (css ++ cs ∷ [])
              (AllHold-set_next lists h 0 (static_list ∷ l ++ h ∷ []) (css ++ cs ∷ []) all);
      },
    )

find_list-Chain :
    (f : ℕ) (lists : Lists) (h a : ℕ) (xs ys : List ℕ) (prev : ℕ)
    → Chain lists a (a ∷ xs ++ h ∷ ys)
    → length xs + 1 < f
    → find_list f lists h a prev ≡ some (h, last_of a xs)
unfolding find_list
find_list-Chain zero lists h a xs ys prev c fuel = absurd (omega arith)
find_list-Chain (suc zero) lists h a xs ys prev c fuel = absurd (omega arith)
find_list-Chain (suc (suc f)) lists h a [] ys prev (e, real, (ne, once), (to, real', once', c))
      fuel =
    rw (==_ne a 0 real, ==_ne a h ne, to, ==_ne h 0 real', ==_refl h) refl
find_list-Chain (suc (suc f)) lists h a (b ∷ xs) ys prev (e, real, once, (to, real', once', c))
      fuel =
    rw (==_ne a 0 real, ==_ne a h (Absent-middle a h (b ∷ xs) ys once), to)
      (find_list-Chain (suc f) lists h b xs ys a (refl, real', once', c) (omega arith))

-- The last node of the front is led past the list.
unlinked :
    (lists : Lists) (h a : ℕ) (xs ys : List ℕ)
    → Chain lists a (a ∷ xs ++ h ∷ ys)
    → Chain (set_next lists (last_of a xs) (lists h).next) a (a ∷ xs ++ ys)
unlinked lists h a [] ys (e, real, (ne, out), (to, real', once', c)) = (
  e,
  real,
  out,
  rw (set_next_self lists a (lists h).next) (Chain-set_next lists a (lists h).next _ ys c out),
)
unlinked lists h a (b ∷ xs) ys (e, real, once, (to, real', once', c)) = (
  e,
  real,
  Absent-drop a h (b ∷ xs) ys once,
  rw
      (
        set_next_other lists (last_of b xs) (lists h).next a
            (λ s. Absent-last_of a b xs (h ∷ ys) once (sym s)),
        to,
      )
      (unlinked lists h b xs ys (refl, real', once', c)),
)

-- `corshell_uninstall` of a list in the chain, other than the static one, with fuel for the nodes
-- before it and one more: it ends, and the chain is what is left without the list, with the commands of the lists left.
pub corshell_uninstall_lem :
    (fuel : ℕ) (lists : Lists) (h : ℕ) (xs ys : List ℕ) (css : List (List Command))
    → Chain lists static_list (static_list ∷ xs ++ h ∷ ys)
    → AllHold lists (static_list ∷ xs ++ ys) css
    → length xs + 1 < fuel
    → (lists' : Lists) × (corshell_uninstall fuel lists h ≡ some lists')
      × IsChain lists' static_list (static_list ∷ xs ++ ys) css
unfolding corshell_uninstall
corshell_uninstall_lem fuel lists h xs ys css chain all enough =
    let found = find_list-Chain fuel lists h static_list xs ys 0 chain enough in
    let prev = last_of static_list xs in
    (
      set_next lists prev (lists h).next,
      rw
          (
            corshell_uninstall,
            found,
            ==_refl h,
            ==_ne prev 0 (last_of-real lists static_list xs (h ∷ ys) chain),
          )
          refl,
      record {
        chain = unlinked lists h static_list xs ys chain;
        hold = AllHold-set_next lists prev (lists h).next (static_list ∷ xs ++ ys) css all;
      },
    )
