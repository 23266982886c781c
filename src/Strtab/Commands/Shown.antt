-- ===== src/Strtab/Commands/Shown.antt =====
-- What the command `strtab` of src/registry/strtabcmd.c shows of a string that it set.
use Prim.Native.Nat.{min}
use nvol.Base.{
  Bool, ℕ, zero, suc, ◌+◌, ◌≤◌, ◌<◌, ◌≡◌, refl, ap, ◌∙◌, List, [], ◌∷◌, ◌++◌, true, some,
  if◌then◌else◌, arith, ltb, length, drop, lt→ltb,
}
use nvol.Base.Bytes.{overlay}
use nvol.Base.Integer.{ℤ, pos}
use nvol.Base.State.{bind_run, pure, ◌>>◌}
use nvol.Base.Status.{eok, len}
use nvol.Dictionary.Keys.{c_string}
use nvol.Dictionary.{Dictionary}
use nvol.Flash.Content.{IsBytes}
use nvol.Nvol.{Entry}
use nvol.Registry.Commands.{is_positive}
use nvol.Registry.Texts.{strncpy}
use nvol.Strtab.Commands.{
  Line, string, error, ok, Session, on_strtab, on_strtab_run, say, key_of, as_result,
  corshell_strtab,
}
use nvol.Strtab.SetGet.{IsOpen, IsNew, strtab_get-strtab_set}
use nvol.Strtab.{strtab_lengt_max, strtab_get, strtab_set}

-- A string that was copied with its NUL.
c_string-strncpy :
    (text rest : List ℕ) (n : ℕ)
    → n ≡ length (c_string text) + 1
    → c_string (strncpy n text ++ rest) ≡ c_string text
unfolding c_string strncpy
c_string-strncpy text rest zero e = absurd (omega arith)
c_string-strncpy [] rest (suc n) e = refl
c_string-strncpy (zero ∷ text) rest (suc n) e = refl
c_string-strncpy (suc c ∷ text) rest (suc n) e =
    ap (λ t. suc c ∷ t) (c_string-strncpy text rest n (omega arith))

module _ {W : Type 0} (print : Line → W → W) (unfit : Bool × ℕ → ℤ) (s : Session W)
    (dict : Dictionary Entry) (id text buffer : List ℕ) (is : IsOpen s.strtab dict)
    (content : IsBytes text) (some_bytes : 0 < length (c_string text) + 1)
    (short : length (c_string text) + 1 ≤ strtab_lengt_max) where
  -- `strtab` with a number and a string sets it and prints `OK`, and `strtab` with the number alone, and
  -- any buffer, then prints the string: in a string table in use with room that does not have the key
  -- yet, for a string that fits.
  pub corshell_strtab-shown :
      (fuel junk : ℕ) (name : List ℕ)
      → IsNew s.strtab dict
          (key_of unfit id)
          text
          (length (c_string text) + 1)
          is
          content
          some_bytes
          short
      → (s' s'' : Session W) × (corshell_strtab print unfit fuel junk buffer
            (name ∷ id ∷ text ∷ [])
            s
          ≡ some (pos 0, s'))
        × (corshell_strtab print unfit fuel junk buffer (name ∷ id ∷ []) s' ≡ some (pos 0, s''))
        × (s''.world ≡ print (string (c_string text)) (print ok s.world))
  unfolding corshell_strtab say is_positive overlay
  corshell_strtab-shown fuel junk name absent =
      let n = length (c_string text) + 1 in
      let key = key_of unfit id in
      let (t', set, gets) =
        strtab_get-strtab_set s.strtab dict key text n is content some_bytes short absent in
      let (t'', got, same) = gets t'.buffer strtab_lengt_max in
      let bytes = strncpy (min n strtab_lengt_max) text in
      let s1 : Session W = record s { strtab = t' } in
      let s' : Session W = record s1 { world = print ok s.world } in
      let s2 : Session W = record s' { strtab = t'' } in
      let whole : min n strtab_lengt_max ≡ n = omega (arith, short) in
      let shown : c_string (overlay bytes buffer) ≡ c_string text =
        c_string-strncpy text (drop (length bytes) buffer) (min n strtab_lengt_max) whole in
      let s'' : Session W = record s2 {
        world = print (string (c_string (overlay bytes buffer))) s'.world;
      } in
      let positive : ltb 0 n ≡ true = lt→ltb 0 n (omega arith) in
      (
        s',
        s'',
        bind_run (on_strtab print (strtab_set key text n)) _ s s1 eok
            (on_strtab_run print (strtab_set key text n) s eok t' set),
        bind_run (on_strtab print (strtab_get key true strtab_lengt_max)) _ s' s2 (len n, bytes)
              (on_strtab_run print (strtab_get key true strtab_lengt_max) s' (len n, bytes) t'' got)
            ∙ ap
                (λ b.
                  (do
                    say print (
                        if b
                        then string (c_string (overlay bytes buffer))
                        else error (as_result (len n)))
                    pure (pos 0))
                    s2)
                positive,
        ap (λ t. print (string t) s'.world) shown,
      )
