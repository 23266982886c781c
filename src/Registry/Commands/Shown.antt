-- ===== src/Registry/Commands/Shown.antt =====
-- What the command `reg` of src/registry/registrycmd.c shows of a value that it set.
use Prim.Native.Nat.{min}
use nvol.Base.{
  ℕ, zero, suc, ◌+◌, ◌≤◌, ◌≡◌, refl, ap, ◌∙◌, List, [], ◌∷◌, ◌++◌, true, if◌then◌else◌, some, arith,
  ltb, length, take, drop, replicate, append_assoc, lt→ltb,
}
use nvol.Base.Bytes.{overlay}
use nvol.Base.Integer.{pos}
use nvol.Base.State.{bind_run, pure, ◌>>=◌, ◌>>◌}
use nvol.Base.Status.{eok, len}
use nvol.Dictionary.Keys.{c_string}
use nvol.Dictionary.{Dictionary}
use nvol.Nvol.{Entry}
use nvol.Registry.Commands.{
  Line, shown, answer, Session, on_registry, on_registry_run, entries_found, reg_show, say,
  reg_print, is_positive, corshell_reg,
}
use nvol.Registry.Buffer.{filled}
use nvol.Registry.SetGet.{IsOpen, IsPair, IsNew, registry_value_set_new, get_value_lem}
use nvol.Registry.{Registry, registry_value_length_max, registry_value_get, registry_value_set}

c_string-take :
    (text rest : List ℕ)
    → length (c_string text) + 1 ≤ length text
    → c_string (take (length (c_string text) + 1) text ++ rest) ≡ c_string text
unfolding c_string
c_string-take [] rest h = absurd (omega arith)
c_string-take (zero ∷ text) rest h = refl
c_string-take (suc c ∷ text) rest h =
    let e : suc (length (c_string text)) + 1 ≡ suc (length (c_string text) + 1) = omega arith in
    rw e (ap (λ t. suc c ∷ t) (c_string-take text rest (omega arith)))

-- The string in a buffer to which the value, with its NUL, was copied.
value_shown :
    (text old buffer : List ℕ) (m : ℕ)
    → m ≡ length (c_string text) + 1
    → m ≤ length text
    → c_string (overlay (overlay (take m text) old) buffer) ≡ c_string text
unfolding overlay
value_shown text old buffer m e there =
    let part : List ℕ = take m text in
    let behind : List ℕ = drop (length part) old in
    let rest : List ℕ = drop (length (part ++ behind)) buffer in
    ap c_string (append_assoc part behind rest)
    ∙ ap (λ k. c_string (take k text ++ (behind ++ rest))) e
    ∙ c_string-take text (behind ++ rest) (omega (arith, e, there))

module _ {W : Type 0} (print : Line → W → W) (s : Session W) (dict : Dictionary Entry)
    (key text buffer : List ℕ) (is : IsOpen s.registry dict)
    (pair : IsPair key text (length (c_string text) + 1)) where
  -- `reg` with a name and a string sets it and prints `OK`, and `reg` with the name alone, and any
  -- buffer, then prints the name with the string: in a registry with room that does not have the name
  -- yet, for a string that fits.
  pub corshell_reg-shown :
      (fuel junk : ℕ) (name : List ℕ)
      → IsNew s.registry dict key text (length (c_string text) + 1) is pair
      → (s' s'' : Session W) × (corshell_reg print fuel junk buffer (name ∷ key ∷ text ∷ []) s
          ≡ some (pos 0, s'))
        × (corshell_reg print fuel junk buffer (name ∷ key ∷ []) s' ≡ some (pos 0, s''))
        × (s''.world
            ≡ print
                (shown (take 39 (c_string key ++ 58 ∷ [])) (c_string text))
                (print (answer true) s.world))
  unfolding corshell_reg say reg_print is_positive
  corshell_reg-shown fuel junk name absent =
      let n = length (c_string text) + 1 in
      let size = registry_value_length_max in
      let (volume, dict', set, sets) =
        registry_value_set_new s.registry dict key text n is pair absent in
      let r' : Registry = record s.registry {
        volume = volume;
        value = record {
          head = s.registry.value.head;
          key_and_data = filled key text n s.registry.value.key_and_data;
        };
      } in
      let (r'', got, same) =
        get_value_lem s.registry dict key text n is pair volume dict' sets r' size refl
          (omega arith) (omega arith) in
      let s1 : Session W = record s { registry = r' } in
      let s' : Session W = record s1 { world = print (answer true) s.world } in
      let bytes : List ℕ = overlay (take (min size n) text) (replicate size 0) in
      let m : min size n ≡ length (c_string text) + 1 = omega (arith, pair.short) in
      let string =
        value_shown text (replicate size 0) buffer (min size n) m (omega (arith, pair.there)) in
      let positive : ltb 0 (min size n) ≡ true = lt→ltb 0 (min size n) (omega (arith, m)) in
      let s2 : Session W = record s' { registry = r'' } in
      let line = shown (take 39 (c_string key ++ 58 ∷ [])) (c_string (overlay bytes buffer)) in
      let s'' : Session W = record s2 { world = print line s'.world } in
      let ran = on_registry_run print (registry_value_set (some key) (some text) n) s eok r' set in
      let read =
        on_registry_run print (registry_value_get (some key) size) s' (len (min size n), bytes) r''
          got in
      (
        s',
        s'',
        bind_run (on_registry print (registry_value_set (some key) (some text) n)) _ s s1 eok ran,
        bind_run (on_registry print (registry_value_get (some key) size)) _ s' s2
              (len (min size n), bytes) read
            ∙ ap
                (λ b.
                  (if b then (do reg_print print key (overlay bytes buffer); pure (pos 0)) else (do
                    cnt ← reg_show print fuel junk (some key) (overlay bytes buffer)
                    say print (entries_found cnt)
                    pure (pos 0)))
                    s2)
                positive,
        ap (λ t. print (shown (take 39 (c_string key ++ 58 ∷ [])) t) s'.world) string,
      )
