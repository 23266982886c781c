-- ===== src/Shell/Lists.antt =====
-- The chain of command lists (src/shell/corshell.c): `corshell_install`, `corshell_uninstall` and
-- `corshell_init`.
use nvol.Base.{ℕ, zero, suc, Option, none, some, ◌==◌, ◌&&◌, not, if◌then◌else◌}
use nvol.Shell.{Command, CommandList, Lists, static_list}

unfoldable pub write_list : Lists → ℕ → CommandList → Lists
write_list lists a l b = if a == b then l else lists b

-- `corshell_init`, with the commands between the linker's symbols: an array, and its length.
unfoldable pub corshell_init : (ℕ → Option Command) → ℕ → Lists → Lists
unfolding write_list
corshell_init cmds cnt lists =
    if cnt == 0
    then lists
    else write_list lists static_list (record (lists static_list) { cmds = some cmds; cnt = cnt })

-- `while (l->next != 0) l = l->next`, with fuel.
unfoldable pub last_list : ℕ → Lists → ℕ → Option ℕ
last_list zero lists l = none
last_list (suc f) lists l =
    let rest = last_list f lists (lists l).next in if (lists l).next == 0 then some l else rest

-- `l->next = next`
unfoldable pub set_next : Lists → ℕ → ℕ → Lists
unfolding write_list
set_next lists l next = write_list lists l (record (lists l) { next = next })

-- `corshell_install`; `none` is a walk that does not end.
unfoldable pub corshell_install : ℕ → Lists → ℕ → Option Lists
unfolding last_list set_next
corshell_install fuel lists list = elim (last_list fuel lists static_list) [
  | none ↦ none
  | some l ↦ some (set_next (set_next lists list 0) l list)
]

-- The loop of `corshell_uninstall`, with fuel: the node that it stops at, and the one before.
unfoldable pub find_list : ℕ → Lists → ℕ → ℕ → ℕ → Option (ℕ × ℕ)
find_list zero lists list l prev = none
find_list (suc f) lists list l prev =
    let rest = find_list f lists list (lists l).next l in
    if l == 0 then some (l, prev) else if l == list then some (l, prev) else rest

-- `corshell_uninstall` of a list that is not null
unfoldable pub corshell_uninstall : ℕ → Lists → ℕ → Option Lists
unfolding find_list set_next
corshell_uninstall fuel lists list = elim (find_list fuel lists list static_list 0) [
  | none ↦ none
  | some (l, prev) ↦
      some (if l == list && not (prev == 0) then set_next lists prev (lists l).next else lists)
]
