-- ===== src/Examples/Names.antt =====
-- Examples of src/registry/registry.c and src/registry/strtab.c: a name and a number are stored in
-- empty volumes on erased memory.
use nvol.Base.{
  ℕ, zero, suc, ◌+◌, ◌*◌, ◌^◌, ◌≡◌, refl, List, [], ◌∷◌, none, some, arith, replicate,
  get_or-replicate,
}
use nvol.Base.Bytes.{overlay}
use nvol.Base.Status.{eok, len}
use nvol.Dictionary.Init.{empty_table-IsValid, empty_table-absent}
use nvol.Dictionary.Keys.{key_type, binary_key}
use nvol.Dictionary.{Dictionary}
use nvol.Examples.{calm_heap, zero_head}
use nvol.Flash.Content.{IsBytes}
use nvol.Nvol.Insert.{IsTable}
use nvol.Nvol.Set.{HasRoom}
use nvol.Nvol.{Entry, Instance, max_records}
use nvol.Ramdrv.Nor.{ramdrv-IsNor}
use nvol.Ramdrv.{Ram}
use nvol.Registry.SetGet.{
  registry_config-IsConfig, IsOpen, IsPair, IsNew, registry_value_get-registry_value_set,
}
use nvol.Registry.Words.{Shared, registry_strsub_cb}
use nvol.Registry.Text.{on_sink, at, parse_loop-registry_value_set}
use nvol.Registry.WordValue.{AreCharacters}
use nvol.Strsub.Sink.{Sink, write_bytes}
use nvol.Strsub.Chain.{Chain}
use nvol.Strsub.Word.{AreLetters}
use nvol.Strsub.{Strsub, Parser, first_handler, is_char, opens, find_open, closes, parse_loop}
use nvol.Registry.{Registry, registry_config, set_key, registry_value_set, registry_value_get}

-- The 128 KiB of `_ramdrv_nvram`, erased.
abbrev pub large_ram : Ram
large_ram = record { size = 128 * 1024; cell = λ a. 255 }

-- Empty buckets for binary keys.
abbrev pub no_names : Dictionary Entry
no_names = record {
  key = binary_key;
  hashsize = 53;
  keyspec = 4 * 2 ^ 16 + 6;
  count = 0;
  hashtab = replicate 53 [];
}

abbrev pub empty_volume : ℕ → Dictionary Entry → Instance Ram
empty_volume sector dict = record {
  version = 0x0155;
  next_idx = 0;
  sector = sector;
  dict = some dict;
  inuse = 0;
  invalid = 0;
  error = 0;
  dev = large_ram;
  heap = calm_heap;
}

pub no_names-IsTable : IsTable no_names calm_heap
unfolding key_type
no_names-IsTable = record {
  valid = empty_table-IsValid (4 * 2 ^ 16 + 6) 53 (omega arith);
  below = λ q np h. let e = empty_table-absent {V = Entry} (4 * 2 ^ 16 + 6) 53 q in absurd (cc);
  answers = refl;
}

abbrev pub names : Registry
names = record {
  volume = empty_volume 0 no_names;
  value = record { head = zero_head; key_and_data = replicate 248 0 };
  it = record { np = none; prev = none; idx = 0; cmp = none };
  key = replicate 25 0;
}

pub names-HasRoom :
    HasRoom registry_config ramdrv-IsNor registry_config-IsConfig names.volume no_names
unfolding max_records
names-HasRoom = record {
  loaded = refl;
  table = no_names-IsTable;
  reach = record { capacity = omega arith; address = omega arith };
  slot = omega arith;
  blank = λ i h. refl;
  headroom = omega arith;
}

pub names-IsOpen : IsOpen names no_names
names-IsOpen = record {
  volume = record { room = names-HasRoom; key = refl; keyspec = refl; words = refl; remote = refl };
  bytes = λ i. rw (get_or-replicate {A = ℕ} 248 i 0) (omega arith);
}

-- The name `ip`, and three bytes.
abbrev pub name : List ℕ
name = 105 ∷ 112 ∷ []

abbrev pub content : List ℕ
content = 49 ∷ 50 ∷ 51 ∷ []

pub name-IsBytes : IsBytes name
name-IsBytes zero = omega arith
name-IsBytes (suc zero) = omega arith
name-IsBytes (suc (suc i)) = omega arith

pub content-IsBytes : IsBytes content
content-IsBytes zero = omega arith
content-IsBytes (suc zero) = omega arith
content-IsBytes (suc (suc zero)) = omega arith
content-IsBytes (suc (suc (suc i))) = omega arith

name-IsPair : IsPair name content 3
name-IsPair = record {
  name = name-IsBytes;
  content = content-IsBytes;
  some_bytes = omega arith;
  short = omega arith;
  there = omega arith;
}

name-IsNew : IsNew names no_names name content 3 names-IsOpen name-IsPair
unfolding key_type
name-IsNew = empty_table-absent (4 * 2 ^ 16 + 6) 53 (set_key name names.value).key_and_data

registry_value_get-registry_value_set_example :
    (r' r'' : Registry) × (registry_value_set (some name) (some content) 3 names ≡ some (eok, r'))
    × (registry_value_get (some name) 5 (record r' { value = names.value })
        ≡ some ((len 3, 49 ∷ 50 ∷ 51 ∷ 0 ∷ 0 ∷ []), r''))
    × (r''.volume ≡ r'.volume)
unfolding overlay
registry_value_get-registry_value_set_example =
    registry_value_get-registry_value_set names no_names name content 3 names-IsOpen name-IsPair
      names.value 5 name-IsNew (omega arith) (omega arith)

-- The registry as the handler of the words in square brackets.
abbrev brackets : Strsub (Shared Sink)
brackets = record {
  escape = 92;
  tokens = some (91, 93) ∷ some (37, 37) ∷ some (60, 62) ∷ [];
  handlers = 5 ∷ 0 ∷ 0 ∷ [];
  memory = λ a. record { next = 0; cb = registry_strsub_cb };
}

name-AreCharacters : AreCharacters name
name-AreCharacters = (λ e. absurd (omega (arith, e)), (λ e. absurd (omega (arith, e)), tt))

brackets-Chain : Chain brackets.memory (first_handler brackets 0) (5 ∷ [])
brackets-Chain = (refl, λ e. absurd (omega (arith, e)), tt, refl)

name-AreLetters : AreLetters 3 brackets on_sink 0 name
unfolding closes is_char
name-AreLetters = (λ e. absurd (omega (arith, e)), refl, (λ e. absurd (omega (arith, e)), refl, tt))

-- The parser at the text `[ip]`.
abbrev parser : ℕ → List ℕ → ℕ → Registry → (ℕ → ℕ) → Parser (Shared Sink)
parser k start o r cell =
    at names no_names name content 3 names-IsOpen name-IsPair name-AreCharacters (omega arith) 3 5
      brackets brackets-Chain refl (omega arith) k start o r cell 50 16

parse_loop-registry_value_set_example :
    (r' r'' : Registry) × (registry_value_set (some name) (some content) 3 names ≡ some (eok, r'))
    × (parse_loop 3 brackets on_sink (91 ∷ 105 ∷ 112 ∷ 93 ∷ 0 ∷ []) 5 (parser 0 [] 0 r' (λ a. 255))
        ≡ parse_loop 3 brackets on_sink (0 ∷ []) 1 (
            parser 3
              (91 ∷ 105 ∷ 112 ∷ 93 ∷ 0 ∷ [])
              3
              r''
              (write_bytes (λ a. 255) 50 (49 ∷ 50 ∷ 51 ∷ []))))
    × (r''.volume ≡ r'.volume)
unfolding is_char opens find_open closes
parse_loop-registry_value_set_example =
    parse_loop-registry_value_set names no_names name content 3 names-IsOpen name-IsPair
      name-AreCharacters (omega arith) 3 5 brackets brackets-Chain refl (omega arith) 91 93 0 5 0 50
      16 (0 ∷ []) [] (λ a. 255) name-IsNew (λ e. absurd (omega (arith, e))) refl refl
      name-AreLetters (λ e. absurd (omega (arith, e))) refl (omega arith) (omega arith)
      (omega arith)
