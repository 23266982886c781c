-- ===== src/Strsub.antt =====
-- src/common/strsub.c: text in which delimited words are replaced by what handlers find for them.
-- A pointer into a text is the list of the bytes from there on. The handlers are nodes that their
-- owners provide, so they stand in a memory, and 0 is the null pointer.
pub mod Sink
pub mod Plain
pub mod Strings
pub mod Chain
pub mod Word
pub mod Keeps
pub mod Bounds
pub mod Twice
use nvol.Base.{
  ℕ, zero, suc, ◌+◌, ◌-◌, ◌%◌, ◌^◌, List, [], ◌∷◌, Bool, true, false, Option, none, some, ltb, leb,
  ◌==◌, not, ◌&&◌, if◌then◌else◌, get_or, set, take, drop, length,
}

-- `strsub_token_t`
pub data Token : Type 0 where
  dull esc token1 token2 token3 last : Token

-- A token as an index, where it is one: at least 0 and below `StrsubLast`.
unfoldable pub token_index : Token → Option ℕ
token_index dull = none
token_index esc = none
token_index token1 = some 0
token_index token2 = some 1
token_index token3 = some 2
token_index last = none

-- An int32_t that is a number of bytes, or negative.
pub data Answer : Type 0 where
  wrote : ℕ → Answer
  refused : Answer

-- The comparison of a byte with a `char`, which is signed.
unfoldable pub is_char : ℕ → ℕ → Bool
is_char c token = c == token && ltb token 128

module _ (S : Type 0) where
  -- `STRSUB_REPLACE_CB`: the bytes, their number, the offset; `S` is what `arg` leads to.
  abbrev pub Replace : Type 0
  Replace = List ℕ → ℕ → ℕ → S → Answer × S

  -- `STRSUB_LOOKUP_CB`
  abbrev pub Lookup : Type 0
  Lookup = Replace → List ℕ → ℕ → ℕ → S → Answer × S

  -- `STRSUB_HANDLER_T`
  pub record Handler : Type 0 where
    pub next : ℕ
    pub cb : Lookup

  -- `STRSUB_INSTANCE_T` and the memory that its handlers stand in; a token string is its first two
  -- characters.
  pub record Strsub : Type 0 where
    pub escape : ℕ
    pub tokens : List (Option (ℕ × ℕ))
    pub handlers : List ℕ
    pub memory : ℕ → Handler

  -- The local variables of `strsub_parse`; `word` is `start_of_word - 1`.
  pub record Parser : Type 0 where
    pub state : Token
    pub word : List ℕ
    pub offset : ℕ
    pub res : Answer
    pub arg : S

module _ {S : Type 0} where
  unfoldable pub write_handler : (ℕ → Handler S) → ℕ → Handler S → ℕ → Handler S
  write_handler m a h b = if a == b then h else m b

  -- `instance->handlers[i]`
  abbrev pub first_handler : Strsub S → ℕ → ℕ
  first_handler instance i = get_or instance.handlers i 0

  -- `strsub_install_handler`
  unfoldable pub strsub_install_handler : Strsub S → Token → ℕ → Lookup S → Bool × Strsub S
  unfolding token_index write_handler
  strsub_install_handler instance token handler cb = elim (token_index token) [
    | none ↦ (false, instance)
    | some i ↦ (
      true,
      record instance {
        memory =
            write_handler instance.memory handler
              (record { next = first_handler instance i; cb = cb });
        handlers = set instance.handlers i handler;
      },
    )
  ]

  -- The loop of `strsub_uninstall_handler`, with fuel: the node it stops at and the one before.
  unfoldable pub find_handler : ℕ → (ℕ → Handler S) → ℕ → ℕ → ℕ → Option (ℕ × ℕ)
  find_handler zero memory handler l prev = none
  find_handler (suc f) memory handler l prev =
      let rest = find_handler f memory handler (memory l).next l in
      if l == 0 then some (l, prev) else if l == handler then some (l, prev) else rest

  -- `strsub_uninstall_handler`; `none` is undefined behaviour, or a walk that does not end.
  unfoldable pub strsub_uninstall_handler : ℕ → Strsub S → Token → ℕ → Option (Strsub S)
  unfolding token_index write_handler find_handler
  strsub_uninstall_handler fuel instance token handler = elim (token_index token) [
    | none ↦ none
    | some i ↦ elim (find_handler fuel instance.memory handler (first_handler instance i) 0) [
      | none ↦ none
      | some (l, prev) ↦
          if not (l == handler)
          then some instance
          else if l == 0
          then none
          else if prev == 0
          then some
              (record instance { handlers = set instance.handlers i (instance.memory l).next })
          else some (record instance {
            memory =
                write_handler instance.memory prev
                  (record (instance.memory prev) { next = (instance.memory l).next });
          })
    ]
  ]

  -- Whether the character opens token `i`, which has handlers.
  unfoldable pub opens : Strsub S → ℕ → ℕ → Bool
  unfolding is_char
  opens instance c i = elim (get_or instance.tokens i none) [
    | none ↦ false
    | some (opening, closing) ↦ not (first_handler instance i == 0) && is_char c opening
  ]

  -- The loop over the tokens.
  unfoldable pub find_open : Strsub S → ℕ → Option Token
  unfolding opens
  find_open instance c =
      if opens instance c 0
      then some token1
      else if opens instance c 1
      then some token2
      else if opens instance c 2
      then some token3
      else none

  -- `instance->tokens[state][1]`
  unfoldable pub closes : Strsub S → ℕ → ℕ → Bool
  unfolding is_char
  closes instance c i = elim (get_or instance.tokens i none) [
    | none ↦ false
    | some (opening, closing) ↦ is_char c closing
  ]

  -- The loop over the handlers of a token, with fuel: the first answer that is not negative.
  unfoldable pub try_handlers :
      ℕ → (ℕ → Handler S) → Replace S → List ℕ → ℕ → ℕ → ℕ → S → Option (Option ℕ × S)
  try_handlers zero memory cb str len offset start s = none
  try_handlers (suc f) memory cb str len offset start s =
      if start == 0
      then some (none, s)
      else let (answer, s') = (memory start).cb cb str len offset s in
        elim answer [
          | wrote n ↦ some (some n, s')
          | refused ↦ try_handlers f memory cb str len offset (memory start).next s'
        ]

  -- `if ((res = cb (...)) > 0) offset += res`
  unfoldable pub emitted : Parser S → Answer × S → Parser S
  emitted st (wrote n, s) = record st { res = wrote n; offset = st.offset + n; arg = s }
  emitted st (refused, s) = record st { res = refused; arg = s }

  -- The end of a word at `p`: its handlers, or the text as it stands.
  unfoldable pub close_word : ℕ → Strsub S → Replace S → List ℕ → ℕ → Parser S → Option (Parser S)
  unfolding try_handlers emitted
  close_word fuel instance cb p i st =
      let str = drop 1 st.word in
      let len = length str - length p in
      elim (try_handlers fuel instance.memory cb str len st.offset (first_handler instance i)
        st.arg) [
          | none ↦ none
          | some (found, s) ↦ elim found [
            | some n ↦
                some (record st { state = dull; res = wrote n; offset = st.offset + n; arg = s })
            | none ↦ some (record (emitted st (cb st.word (len + 2) st.offset s)) { state = dull })
          ]
        ]

  -- One character of a word.
  unfoldable pub in_word : ℕ → Strsub S → Replace S → List ℕ → ℕ → ℕ → Parser S → Option (Parser S)
  unfolding closes close_word
  in_word fuel instance cb p c i st =
      if closes instance c i then close_word fuel instance cb p i st else some st

  -- One character outside of words.
  unfoldable pub in_dull : Strsub S → Replace S → List ℕ → ℕ → Parser S → Parser S
  unfolding find_open emitted is_char
  in_dull instance cb p c st =
      if not (instance.escape == 0) && is_char c instance.escape
      then record st { state = esc }
      else elim (find_open instance c) [
        | some token ↦ record st { state = token; word = p }
        | none ↦ emitted st (cb p 1 st.offset st.arg)
      ]

  -- The body of the loop of `strsub_parse` for the character `c` at `p`.
  unfoldable pub parse_char :
      ℕ → Strsub S → Replace S → List ℕ → ℕ → Token → Parser S → Option (Parser S)
  unfolding in_dull in_word emitted
  parse_char fuel instance cb p c dull st = some (in_dull instance cb p c st)
  parse_char fuel instance cb p c esc st =
      some (record (emitted st (cb p 1 st.offset st.arg)) { state = dull })
  parse_char fuel instance cb p c token1 st = in_word fuel instance cb p c 0 st
  parse_char fuel instance cb p c token2 st = in_word fuel instance cb p c 1 st
  parse_char fuel instance cb p c token3 st = in_word fuel instance cb p c 2 st
  parse_char fuel instance cb p c last st = some (record st { state = dull })

  -- The loop: up to a negative answer, the closing NUL, or `left` characters. A list without a NUL ends
  -- the text as well; C would read on there.
  unfoldable pub parse_loop : ℕ → Strsub S → Replace S → List ℕ → ℕ → Parser S → Option (Parser S)
  parse_loop fuel instance cb [] left st = some st
  parse_loop fuel instance cb (c ∷ p) left st = elim st.res [
    | refused ↦ some st
    | wrote n ↦
        if c == 0
        then some st
        else if left == 0
        then some st
        else elim (parse_char fuel instance cb (c ∷ p) c st.state st) [
          | none ↦ none
          | some st' ↦ parse_loop fuel instance cb p (left - 1) st'
        ]
  ]

  -- The closing NUL, unless the last answer was negative.
  unfoldable pub terminate : Replace S → Parser S → ℕ × S
  terminate cb st = elim st.res [
    | refused ↦ (st.offset, st.arg)
    | wrote n ↦ (st.offset, (cb (0 ∷ []) 1 st.offset st.arg).1)
  ]

  -- `strsub_parse`: the offset, and what became of `arg`. `fuel` bounds the walks over handlers.
  unfoldable pub strsub_parse : ℕ → Strsub S → Replace S → List ℕ → ℕ → S → Option (ℕ × S)
  unfolding parse_loop terminate
  strsub_parse fuel instance cb buffer len s =
      elim (parse_loop fuel instance cb buffer len
        (record { state = dull; word = buffer; offset = 0; res = wrote 0; arg = s })) [
          | none ↦ none
          | some st ↦ some (terminate cb st)
        ]
