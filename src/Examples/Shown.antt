-- ===== src/Examples/Shown.antt =====
-- Examples of src/registry/registrycmd.c and strtabcmd.c: a value is set, and shown.
use nvol.Base.{
  Bool, ℕ, zero, suc, ◌+◌, ◌≤◌, ◌<◌, ◌≡◌, ◌*◌, ◌^◌, List, [], ◌∷◌, some, true, arith, length,
}
use nvol.Base.Integer.{ℤ, pos}
use nvol.Dictionary.Init.{empty_table-absent}
use nvol.Dictionary.Keys.{key_type, c_string}
use nvol.Examples.Names.{name, name-IsBytes, names, no_names, names-IsOpen}
use nvol.Flash.Content.{IsBytes}
use nvol.Registry.Commands.Shown.{corshell_reg-shown}
use nvol.Registry.Commands.{Line, shown, answer, Session, corshell_reg}
use nvol.Registry.SetGet.{IsPair, IsNew}
use nvol.Registry.{set_key}
use nvol.Strtab
use nvol.Strtab.Commands
use nvol.Strtab.Commands.Shown.{corshell_strtab-shown}
use nvol.Strtab.Commands.{string, ok, key_of, corshell_strtab}
use nvol.Strtab.{strtab_lengt_max}
use nvol.Examples.Strings.{table, no_strings, table-IsOpen}
use nvol.Examples.Names.{content, content-IsBytes}

-- `12` with its NUL
abbrev twelve : List ℕ
twelve = 49 ∷ 50 ∷ 0 ∷ []

twelve-IsBytes : IsBytes twelve
twelve-IsBytes zero = omega arith
twelve-IsBytes (suc zero) = omega arith
twelve-IsBytes (suc (suc zero)) = omega arith
twelve-IsBytes (suc (suc (suc i))) = omega arith

twelve-IsPair : IsPair name twelve (length (c_string twelve) + 1)
unfolding c_string
twelve-IsPair = record {
  name = name-IsBytes;
  content = twelve-IsBytes;
  some_bytes = omega arith;
  short = omega arith;
  there = omega arith;
}

twelve-IsNew :
    IsNew names no_names name twelve (length (c_string twelve) + 1) names-IsOpen twelve-IsPair
unfolding key_type
twelve-IsNew = empty_table-absent (4 * 2 ^ 16 + 6) 53 (set_key name names.value).key_and_data

-- The world is the list of the lines.
abbrev log : Line → List Line → List Line
log line lines = line ∷ lines

abbrev session : Session (List Line)
session = record { registry = names; world = [] }

-- `reg`
abbrev reg : List ℕ
reg = 114 ∷ 101 ∷ 103 ∷ []

corshell_reg-shown_example :
    (s' s'' : Session (List Line)) × (corshell_reg log 9 0 [] (reg ∷ name ∷ twelve ∷ []) session
      ≡ some (pos 0, s'))
    × (corshell_reg log 9 0 [] (reg ∷ name ∷ []) s' ≡ some (pos 0, s''))
    × (s''.world ≡ shown (105 ∷ 112 ∷ 58 ∷ []) (49 ∷ 50 ∷ []) ∷ answer true ∷ [])
unfolding c_string
corshell_reg-shown_example =
    corshell_reg-shown log session no_names name twelve [] names-IsOpen twelve-IsPair 9 0 reg
      twelve-IsNew

-- `strtab 7 123` and `strtab 7`
four_bytes : 0 < length (c_string content) + 1
unfolding c_string
four_bytes = omega arith

four_short : length (c_string content) + 1 ≤ strtab_lengt_max
unfolding c_string
four_short = omega arith

-- What a number that does not fit leaves behind.
abbrev no_number : Bool × ℕ → ℤ
no_number r = pos 0

seven-IsNew :
    Strtab.SetGet.IsNew table no_strings
      (key_of no_number (55 ∷ []))
      content
      (length (c_string content) + 1)
      table-IsOpen
      content-IsBytes
      four_bytes
      four_short
unfolding key_type
seven-IsNew =
    empty_table-absent (4 * 2 ^ 16 + 1) 17
      (Strtab.set_key (key_of no_number (55 ∷ [])) table.buffer).key_and_data

abbrev lines : Commands.Line → List Commands.Line → List Commands.Line
lines line log = line ∷ log

abbrev strings : Commands.Session (List Commands.Line)
strings = record { strtab = table; world = [] }

corshell_strtab-shown_example :
    (s' s'' : Commands.Session (List Commands.Line)) × (corshell_strtab lines no_number 9 0 []
        ([] ∷ (55 ∷ []) ∷ content ∷ [])
        strings
      ≡ some (pos 0, s'))
    × (corshell_strtab lines no_number 9 0 [] ([] ∷ (55 ∷ []) ∷ []) s' ≡ some (pos 0, s''))
    × (s''.world ≡ string (49 ∷ 50 ∷ 51 ∷ []) ∷ ok ∷ [])
unfolding c_string
corshell_strtab-shown_example =
    corshell_strtab-shown lines no_number strings no_strings (55 ∷ []) content [] table-IsOpen
      content-IsBytes four_bytes four_short 9 0 [] seven-IsNew
