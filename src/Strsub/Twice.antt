-- ===== src/Strsub/Twice.antt =====
-- A handler that is installed twice (src/common/strsub.c).
use nvol.Base.{
  ℕ, zero, suc, ◌<◌, ◌≡◌, ◌≢◌, refl, ap, ◌∙◌, List, true, none, some, length, set, ==_ne, ==_refl,
  get_or-set_self, length-set,
}
use nvol.Strsub.Chain.{installed}
use nvol.Strsub.{
  Token, token_index, refused, Replace, Lookup, Handler, Strsub, write_handler, first_handler,
  strsub_install_handler, try_handlers,
}

module _ {S : Type 0} where
  -- The walk over a node that leads to itself and never has an answer does not end.
  walk_forever :
      (memory : ℕ → Handler S) (cb : Replace S) (str : List ℕ) (len o h fuel : ℕ) (s : S)
      → h ≢ 0
      → (memory h).next ≡ h
      → ((s : S) → ((memory h).cb cb str len o s).0 ≡ refused)
      → try_handlers fuel memory cb str len o h s ≡ none
  unfolding try_handlers
  walk_forever memory cb str len o h zero s real loop refuses = refl
  walk_forever memory cb str len o h (suc f) s real loop refuses =
      simp (try_handlers, ==_ne h 0 real, refuses s, loop)
        (walk_forever memory cb str len o h f ((memory h).cb cb str len o s).1 real loop refuses)

  -- A handler that is installed for a token for which it is installed already leads to itself, so
  -- that the walk over the handlers of the token does not end if it has no answer.
  pub install_twice-endless :
      (instance : Strsub S) (token : Token) (h i fuel : ℕ) (f g : Lookup S) (cb : Replace S)
      (str : List ℕ) (len o : ℕ) (s : S)
      → token_index token ≡ some i
      → i < length instance.handlers
      → h ≢ 0
      → ((s : S) → (g cb str len o s).0 ≡ refused)
      → (once : Strsub S) × (twice : Strsub S) × (strsub_install_handler instance token h f
          ≡ (true, once))
        × (strsub_install_handler once token h g ≡ (true, twice))
        × (try_handlers fuel twice.memory cb str len o (first_handler twice i) s ≡ none)
  unfolding write_handler
  install_twice-endless instance token h i fuel f g cb str len o s e inside real refuses =
      let v : Handler S = record { next = first_handler instance i; cb = f } in
      let once : Strsub S = record instance {
        memory = write_handler instance.memory h v;
        handlers = set instance.handlers i h;
      } in
      let v' : Handler S = record { next = first_handler once i; cb = g } in
      let twice : Strsub S = record once {
        memory = write_handler once.memory h v';
        handlers = set once.handlers i h;
      } in
      let first = get_or-set_self instance.handlers i h 0 inside in
      let again =
        get_or-set_self once.handlers i h 0 (rw (length-set instance.handlers i h) inside) in
      (
        once,
        twice,
        installed instance token h f i e,
        installed once token h g i e,
        ap (λ (a : ℕ). try_handlers fuel twice.memory cb str len o a s) again
            ∙ walk_forever twice.memory cb str len o h fuel s real (rw (==_refl h) first)
                (λ s'. rw (==_refl h) (refuses s')),
      )
