-- ===== src/Shell/Script/Rounds.antt =====
-- A round of the loop of `corshell_script_run` of src/shell/corshell.c.
use nvol.Base.{
  Bool, ℕ, zero, suc, ◌+◌, ◌-◌, ◌<◌, ◌≡◌, refl, sym, ap₂, arith, List, [], ◌∷◌, Option, true, false,
  none, some, ltb, ◌==◌, if◌then◌else◌, length, drop, get_or,
}
use nvol.Shell.Lines.{line_size_max, copy_line, skip_breaks}
use nvol.Shell.Lines.Progress.{passed_lem}
use nvol.Shell.Script.{Script, run_line, script_loop}
use nvol.Shell.{ℤ, Loop, leave, go_on, Shell, ShellOut, Call}
use nvol.Strsub.Sink.{Sink}
use nvol.Strsub.{Strsub}

drop-nil : (k : ℕ) → drop {A = ℕ} k [] ≡ []
drop-nil zero = refl
drop-nil (suc k) = refl

-- The line that starts at `i`, its end, its number, and where the next one starts.
abbrev pub line_at : List ℕ → ℕ → ℕ → List ℕ
line_at start size i = copy_line (drop i start) (size - i) (line_size_max - 1)

abbrev pub end_at : List ℕ → ℕ → ℕ → ℕ
end_at start size i = i + length (line_at start size i)

abbrev pub number_at : List ℕ → ℕ → ℕ → ℕ → ℕ
number_at start size i n = if get_or start (end_at start size i) 0 == 10 then suc n else n

abbrev pub breaks_at : List ℕ → ℕ → ℕ → ℕ × ℕ
breaks_at start size i = skip_breaks (drop (end_at start size i) start) (size - end_at start size i)

abbrev pub next_at : List ℕ → ℕ → ℕ → ℕ
next_at start size i = end_at start size i + (breaks_at start size i).0

pub drop_add : (i k : ℕ) (xs : List ℕ) → drop (i + k) xs ≡ drop k (drop i xs)
drop_add zero k xs = let e : 0 + k ≡ k = omega arith in rw e refl
drop_add (suc i) k [] = let e : suc i + k ≡ suc (i + k) = omega arith in rw e (sym (drop-nil k))
drop_add (suc i) k (x ∷ xs) =
    let e : suc i + k ≡ suc (i + k) = omega arith in rw e (drop_add i k xs)

-- A round that starts before the end goes on by one byte at least.
pub next_at_lem : (start : List ℕ) (size i : ℕ) → i < size → i < next_at start size i
next_at_lem start size i h =
    let line = line_at start size i in
    let far = drop_add i (length line) start in
    let left : size - (i + length line) ≡ size - i - length line = omega arith in
    let same : (breaks_at start size i).0
        ≡ (skip_breaks (drop (length line) (drop i start)) (size - i - length line)).0 =
      ap₂ (λ t k. (skip_breaks t k).0) far left in
    omega (arith, same, passed_lem (drop i start) (size - i) (omega arith))

module _ {W : Type 0} (shell_out : ShellOut W) (call : Call W) (walk : ℕ) (name : List ℕ)
    (unfit : Bool × ℕ → ℤ) (fuel : ℕ) (instance : Strsub Sink) (buffer f : ℕ) (start : List ℕ)
    (size i n : ℕ) (st : Script × Shell W) (st' : Script × Shell W) where
  abbrev Loops : Option (Script × Shell W) → Type 0
  Loops r =
      script_loop shell_out call walk name unfit fuel instance buffer (suc f) start size i n st ≡ r

  abbrev Runs : Option (Loop (Script × Shell W)) → Type 0
  Runs r =
      run_line shell_out call walk name unfit fuel instance buffer (line_at start size i)
        (number_at start size i n) st
      ≡ r

  pub round-none : Runs none → Loops none
  unfolding script_loop
  round-none e = rw (script_loop, e) refl

  pub round-leave : Runs (some (leave st')) → Loops (some st')
  unfolding script_loop
  round-leave e = rw (script_loop, e) refl

  pub round-last :
      Runs (some (go_on st')) → ltb (next_at start size i) size ≡ false → Loops (some st')
  unfolding script_loop
  round-last e over = rw (script_loop, e, over) refl

  pub round-next :
      Runs (some (go_on st'))
      → ltb (next_at start size i) size ≡ true
      → Loops (
          script_loop shell_out call walk name unfit fuel instance buffer f start size
            (next_at start size i)
            (number_at start size i n + (breaks_at start size i).1)
            st')
  unfolding script_loop
  round-next e more = rw (script_loop, e, more) refl
