-- ===== src/Shell/Split/Cut.antt =====
-- The buffer of `corshell_cmd_split` of src/shell/corshell.c, as it is cut into words.
use nvol.Base.{
  ℕ, ◌+◌, ◌≡◌, sym, ap, ap₂, ◌∙◌, List, [], ◌∷◌, ◌++◌, length, drop, set, length-append,
  append_assoc, drop_append,
}
use nvol.Dictionary.Keys.{c_string}
use nvol.Shell.Split.Words.{set-middle, words_at-snoc, IsWhole, c_string-IsWhole}
use nvol.Shell.Split.{words_at}

-- The part of the buffer that holds the words so far, whatever follows it.
abbrev pub Cut : List ℕ → List ℕ → List (List ℕ) → Type 0
Cut done argv ws = (tail : List ℕ) → words_at (done ++ tail) argv ≡ ws

pub Cut-more :
    (done more argv : List ℕ) (ws : List (List ℕ)) → Cut done argv ws → Cut (done ++ more) argv ws
Cut-more done more argv ws cut tail =
    ap (λ t. words_at t argv) (append_assoc done more tail) ∙ cut (more ++ tail)

-- A word behind that part, and its NUL.
pub Cut-snoc :
    (done w more argv : List ℕ) (ws : List (List ℕ))
    → Cut done argv ws
    → IsWhole w
    → Cut (done ++ w ++ 0 ∷ more) (argv ++ length done ∷ []) (ws ++ w ∷ [])
Cut-snoc done w more argv ws cut whole tail =
    let from_word : List ℕ = w ++ 0 ∷ (more ++ tail) in
    let shape : done ++ w ++ 0 ∷ more ++ tail ≡ done ++ from_word =
      append_assoc (done ++ w) (0 ∷ more) tail ∙ append_assoc done w (0 ∷ (more ++ tail)) in
    words_at-snoc (done ++ w ++ 0 ∷ more ++ tail) argv (length done)
    ∙ ap₂ (λ t u. t ++ u ∷ []) (ap (λ t. words_at t argv) shape ∙ cut from_word)
        (ap (λ t. c_string (drop (length done) t)) shape
          ∙ ap c_string (drop_append done from_word)
          ∙ c_string-IsWhole w (more ++ tail) whole)

-- The NUL at the end of a word.
pub cut_at :
    (done w rest : List ℕ) (c p : ℕ)
    → p ≡ length done + length w
    → set (done ++ (w ++ c ∷ rest)) p 0 ≡ done ++ w ++ 0 ∷ rest
cut_at done w rest c p e =
    ap₂ (λ t q. set t q 0) (sym (append_assoc done w (c ∷ rest))) (e ∙ sym (length-append done w))
    ∙ set-middle (done ++ w) rest c
