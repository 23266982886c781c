-- ===== src/Strsub/Chain.antt =====
-- The handlers of a token (src/common/strsub.c): a chain of nodes in memory, which
-- `strsub_install_handler` and `strsub_uninstall_handler` link and unlink, and which the parser walks.
use nvol.Base.{
  ℕ, zero, suc, ◌<◌, ◌≡◌, ◌≢◌, refl, sym, ap, ◌∙◌, List, [], ◌∷◌, ◌++◌, true, Option, none, some,
  arith, length, set, ==_ne, ==_refl, get_or-set_self, get_or-set_ne, ◌⊎◌, inl, inr,
}
use nvol.Strsub.{
  Token, token_index, Answer, wrote, refused, Replace, Lookup, Handler, Strsub, write_handler,
  first_handler, strsub_install_handler, find_handler, strsub_uninstall_handler, try_handlers,
}

abbrev pub Absent : ℕ → List ℕ → Type 0
Absent a [] = Unit
Absent a (b ∷ l) = (a ≢ b) × Absent a l

Absent-append : (a h : ℕ) (xs ys : List ℕ) → Absent a (xs ++ h ∷ ys) → Absent a (xs ++ ys)
Absent-append a h [] ys (ne, out) = out
Absent-append a h (x ∷ xs) ys (ne, out) = (ne, Absent-append a h xs ys out)

Absent-middle : (a h : ℕ) (xs ys : List ℕ) → Absent a (xs ++ h ∷ ys) → a ≢ h
Absent-middle a h [] ys (ne, out) = ne
Absent-middle a h (x ∷ xs) ys (ne, out) = Absent-middle a h xs ys out

-- The last node of a chain, and the one before it where the chain is empty.
abbrev last_of : List ℕ → ℕ → ℕ
last_of [] prev = prev
last_of (x ∷ xs) prev = last_of xs x

Absent-last_of : (a x : ℕ) (xs rest : List ℕ) → Absent a (x ∷ xs ++ rest) → a ≢ last_of xs x
Absent-last_of a x [] rest (ne, out) = ne
Absent-last_of a x (y ∷ xs) rest (ne, out) = Absent-last_of a y xs rest out

pub Answer-cases : (a : Answer) → ((n : ℕ) × (a ≡ wrote n)) ⊎ (a ≡ refused)
Answer-cases (wrote n) = inl (n, refl)
Answer-cases refused = inr refl

module _ {S : Type 0} where
  -- From `a` the `next` pointers lead through the distinct nodes of the list to null.
  abbrev pub Chain : (ℕ → Handler S) → ℕ → List ℕ → Type 0
  Chain memory a [] = a ≡ 0
  Chain memory a (h ∷ l) = (a ≡ h) × (h ≢ 0) × Absent h l × Chain memory (memory h).next l

  -- A write to another node leaves a chain alone.
  pub Chain-write :
      (memory : ℕ → Handler S) (a b : ℕ) (v : Handler S) (l : List ℕ)
      → Chain memory a l
      → Absent b l
      → Chain (write_handler memory b v) a l
  unfolding write_handler
  Chain-write memory a b v [] c out = c
  Chain-write memory a b v (h ∷ l) (e, real, once, c) (ne, out) =
      (e, real, once, rw (==_ne b h ne) (Chain-write memory (memory h).next b v l c out))

  Chain-real :
      (memory : ℕ → Handler S) (h : ℕ) (xs ys : List ℕ) (a : ℕ)
      → Chain memory a (xs ++ h ∷ ys)
      → h ≢ 0
  Chain-real memory h [] ys a (e, real, once, c) = real
  Chain-real memory h (x ∷ xs) ys a (e, real, once, c) = Chain-real memory h xs ys (memory x).next c

  last_of-real :
      (memory : ℕ → Handler S) (x : ℕ) (xs rest : List ℕ) (a : ℕ)
      → Chain memory a (x ∷ xs ++ rest)
      → last_of xs x ≢ 0
  last_of-real memory x [] rest a (e, real, once, c) = real
  last_of-real memory x (y ∷ xs) rest a (e, real, once, c) =
      last_of-real memory y xs rest (memory x).next c

  -- The walk stops at the handler, with the node before it.
  find_handler-Chain :
      (memory : ℕ → Handler S) (h : ℕ) (xs ys : List ℕ) (fuel a prev : ℕ)
      → Chain memory a (xs ++ h ∷ ys)
      → length xs < fuel
      → find_handler fuel memory h a prev ≡ some (h, last_of xs prev)
  unfolding find_handler
  find_handler-Chain memory h xs ys zero a prev c fuel = absurd (omega arith)
  find_handler-Chain memory h [] ys (suc f) a prev (e, real, once, c) fuel =
      rw (e, ==_ne h 0 real, ==_refl h)
  find_handler-Chain memory h (x ∷ xs) ys (suc f) a prev (e, real, once, c) fuel =
      let other : x ≢ h = Absent-middle x h xs ys once in
      rw (e, ==_ne x 0 real, ==_ne x h other)
        (find_handler-Chain memory h xs ys f (memory x).next x c (omega arith))

  -- Leading the last node of the front past the handler takes the handler out.
  unlink_Chain :
      (memory : ℕ → Handler S) (h x : ℕ) (xs ys : List ℕ) (a : ℕ)
      → Chain memory a (x ∷ xs ++ h ∷ ys)
      → Chain
          (write_handler memory
            (last_of xs x)
            (record (memory (last_of xs x)) { next = (memory h).next }))
          a
          (x ∷ xs ++ ys)
  unfolding write_handler
  unlink_Chain memory h x [] ys a (e, real, (ne, out), (eh, realh, onceh, c)) =
      (e, real, out, rw (==_refl x) (Chain-write memory (memory h).next x _ ys c out))
  unlink_Chain memory h x (y ∷ xs) ys a (e, real, out, c) = (
    e,
    real,
    Absent-append x h (y ∷ xs) ys out,
    rw (==_ne (last_of xs y) x (λ same. Absent-last_of x y xs (h ∷ ys) out (sym same)))
        (unlink_Chain memory h y xs ys (memory x).next c),
  )

  pub installed :
      (instance : Strsub S) (token : Token) (h : ℕ) (cb : Lookup S) (i : ℕ)
      → token_index token ≡ some i
      → strsub_install_handler instance token h cb ≡ (
        true,
        record instance {
          memory =
              write_handler instance.memory h (record { next = first_handler instance i; cb = cb });
          handlers = set instance.handlers i h;
        },
      )
  unfolding strsub_install_handler
  installed instance token h cb i e = simp (strsub_install_handler, e)

  -- `strsub_install_handler` of a node that is not in the chains of its token, which can be one of a
  -- text, and of another one: it succeeds, the node is first in the chain of its token with the
  -- function given, and the chain of the other token is as before.
  strsub_install_handler_lem :
      (instance : Strsub S) (token : Token) (h : ℕ) (cb : Lookup S) (i j : ℕ) (l l' : List ℕ)
      → token_index token ≡ some i
      → i < length instance.handlers
      → i ≢ j
      → Chain instance.memory (first_handler instance i) l
      → Chain instance.memory (first_handler instance j) l'
      → h ≢ 0
      → Absent h l
      → Absent h l'
      → (instance' : Strsub S) × (strsub_install_handler instance token h cb ≡ (true, instance'))
        × Chain instance'.memory (first_handler instance' i) (h ∷ l)
        × ((instance'.memory h).cb ≡ cb)
        × Chain instance'.memory (first_handler instance' j) l'
  unfolding write_handler
  strsub_install_handler_lem instance token h cb i j l l' e inside ne c c' real out out' =
      let v : Handler S = record { next = first_handler instance i; cb = cb } in
      (
        record instance {
          memory = write_handler instance.memory h v;
          handlers = set instance.handlers i h;
        },
        installed instance token h cb i e,
        (
          get_or-set_self instance.handlers i h 0 inside,
          real,
          out,
          rw (==_refl h) (Chain-write instance.memory (first_handler instance i) h v l c out),
        ),
        rw (==_refl h),
        rw (get_or-set_ne instance.handlers i j h 0 ne)
            (Chain-write instance.memory (first_handler instance j) h v l' c' out'),
      )

  -- `strsub_uninstall_handler` of a node in the chain of its token, which can be one of a text, with
  -- fuel for the nodes before it: it ends, and the chain of the token is what is left without the node.
  strsub_uninstall_handler_lem :
      (fuel : ℕ) (instance : Strsub S) (token : Token) (h i : ℕ) (xs ys : List ℕ)
      → token_index token ≡ some i
      → i < length instance.handlers
      → Chain instance.memory (first_handler instance i) (xs ++ h ∷ ys)
      → length xs < fuel
      → (instance' : Strsub S) × (strsub_uninstall_handler fuel instance token h ≡ some instance')
        × Chain instance'.memory (first_handler instance' i) (xs ++ ys)
  unfolding strsub_uninstall_handler
  strsub_uninstall_handler_lem fuel instance token h i [] ys e inside (eh, real, once, c) enough =
      let found =
        find_handler-Chain instance.memory h [] ys fuel (first_handler instance i) 0
          (eh, real, once, c) enough in
      (
        record instance { handlers = set instance.handlers i (instance.memory h).next },
        simp (strsub_uninstall_handler, e, found, ==_refl h, ==_ne h 0 real),
        rw (get_or-set_self instance.handlers i (instance.memory h).next 0 inside) c,
      )
  strsub_uninstall_handler_lem fuel instance token h i (x ∷ xs) ys e inside c enough =
      let found =
        find_handler-Chain instance.memory h (x ∷ xs) ys fuel (first_handler instance i) 0 c
          enough in
      let prev = last_of xs x in
      let real : h ≢ 0 = Chain-real instance.memory h (x ∷ xs) ys _ c in
      let real' : prev ≢ 0 = last_of-real instance.memory x xs (h ∷ ys) _ c in
      (
        record instance {
          memory =
              write_handler instance.memory prev
                (record (instance.memory prev) { next = (instance.memory h).next });
        },
        simp (strsub_uninstall_handler, e, found, ==_refl h, ==_ne h 0 real, ==_ne prev 0 real'),
        unlink_Chain instance.memory h x xs ys (first_handler instance i) c,
      )

  -- The answer of the first handler in the list that has one, and what they leave of `arg`.
  unfoldable pub first_answer :
      (ℕ → Handler S) → Replace S → List ℕ → ℕ → ℕ → List ℕ → S → Option ℕ × S
  first_answer memory cb str len offset [] s = (none, s)
  first_answer memory cb str len offset (h ∷ l) s =
      let (answer, s') = (memory h).cb cb str len offset s in
      elim answer [ wrote n ↦ (some n, s') | refused ↦ first_answer memory cb str len offset l s' ]

  -- A handler that has an answer is the last one asked.
  pub first_answer-wrote :
      (memory : ℕ → Handler S) (cb : Replace S) (str : List ℕ) (len offset h n : ℕ) (l : List ℕ)
      (s s' : S)
      → (memory h).cb cb str len offset s ≡ (wrote n, s')
      → first_answer memory cb str len offset (h ∷ l) s ≡ (some n, s')
  unfolding first_answer
  first_answer-wrote memory cb str len offset h n l s s' e = simp (first_answer, e)

  -- The walk over the handlers of a token ends, and asks them in the order of the chain until one has
  -- an answer that is not negative.
  pub try_handlers-Chain :
      (memory : ℕ → Handler S) (cb : Replace S) (str : List ℕ) (len offset : ℕ) (l : List ℕ)
      (fuel a : ℕ) (s : S)
      → Chain memory a l
      → length l < fuel
      → try_handlers fuel memory cb str len offset a s
        ≡ some (first_answer memory cb str len offset l s)
  unfolding try_handlers first_answer
  try_handlers-Chain memory cb str len offset l zero a s c fuel = absurd (omega arith)
  try_handlers-Chain memory cb str len offset [] (suc f) a s e fuel = rw e refl
  try_handlers-Chain memory cb str len offset (h ∷ l) (suc f) a s (e, real, once, c) fuel =
      ap (λ (x : ℕ). try_handlers (suc f) memory cb str len offset x s) e
      ∙ elim (Answer-cases ((memory h).cb cb str len offset s).0) [
        | inl (n, w) ↦ simp (try_handlers, first_answer, ==_ne h 0 real, w)
        | inr w ↦
            simp (try_handlers, first_answer, ==_ne h 0 real, w)
              (try_handlers-Chain memory cb str len offset l f (memory h).next
                ((memory h).cb cb str len offset s).1 c (omega arith))
      ]
