-- ===== src/Shell/Pipeline.antt =====
-- A line of commands and '|' is parsed into the chain of the commands.
use sistemas_operativos_fiub.Common.{
  ℕ, zero, suc, ◌+◌, ◌<◌, ◌≡◌, refl, ◌∙◌, true, false, ◌||◌, Option, none, some, List, [], ◌∷◌,
  ◌++◌, ◌==◌, if_both, has_char, Texto, length, take, arith,
}
use sistemas_operativos_fiub.Shell.Buffer.{
  block_contains, skip_right, skip_spaces, split_at, split_line, string_at,
}
use sistemas_operativos_fiub.Shell.Parser.{
  Cmd, Environ, ExecCmd, Parsed, ok, breaks, out_of_steps, ◌>>=◌, join_right, parse_back,
  parse_background, parse_cmd, parse_cmd_at, parse_exec, parse_foreground, parse_line,
  pipe_cmd_create, exec, pipe, pipe_no_left, back_cmd_create,
}

-- A part of a line: not empty, its first byte is no space, and it has neither '|' nor NUL.
unfoldable pub IsPart : Texto → Type 0
IsPart [] = ⊥
IsPart (b ∷ bs) =
    ((b == 32) ≡ false) × (has_char (b ∷ bs) 124 ≡ false) × (has_char (b ∷ bs) 0 ≡ false)

unfoldable pub AllParts : List Texto → Type 0
AllParts [] = Unit
AllParts (s ∷ ss) = IsPart s × AllParts ss

-- The array with a line: the first part and the others, each after a '|', then three NULs and other
-- bytes.
unfoldable pub line : List ℕ → Texto → List Texto → List ℕ
line rest s [] = s ++ 0 ∷ 0 ∷ 0 ∷ rest
line rest s (t ∷ ts) = s ++ 124 ∷ line rest t ts

-- A pipe from the command on the left to the one on the right, or the one there is.
unfoldable pub left_of : Option Cmd → Option Cmd → Option Cmd
left_of (some l) (some r) = some (pipe l r)
left_of (some l) none = some l
left_of none (some r) = some (pipe_no_left r)
left_of none none = none

-- The commands of the parts, each on the left of those after it.
unfoldable pub pipeline : Environ → ℕ → Texto → List Texto → Parsed (Option Cmd)
pipeline e before s [] = parse_cmd e before s
pipeline e before s (t ∷ ts) =
    parse_cmd e before s >>= λ l. pipeline e 0 t ts >>= λ r. ok (left_of l r)

split_at-append :
    (s : Texto) (x : ℕ) (right : List ℕ)
    → has_char s 124 ≡ false
    → has_char s 0 ≡ false
    → (x == 124 || x == 0) ≡ true
    → split_at 124 (s ++ x ∷ right) ≡ some (s, right)
unfolding split_at has_char
split_at-append [] x right h z stop = rw (split_at, stop) refl
split_at-append (b ∷ bs) x right h z stop =
    let next : split_at 124 (bs ++ x ∷ right) ≡ some (bs, right) =
      split_at-append bs x right (ground arith) (ground arith) stop in
    let here : (b == 124 || b == 0) ≡ false = ground arith in rw (split_at, here, next) refl

split_line-append :
    (b : ℕ) (s : Texto) (x c : ℕ) (right : List ℕ)
    → IsPart (b ∷ s)
    → (x == 124 || x == 0) ≡ true
    → (c == 32) ≡ false
    → split_line 124 (b ∷ (s ++ x ∷ c ∷ right)) ≡ some (b ∷ s, c ∷ right)
unfolding split_line skip_spaces IsPart
split_line-append b s x c right p stop nonspace =
    rw
      (
        split_line,
        split_at-append (b ∷ s) x (c ∷ right) p.1 p.2 stop,
        skip_right,
        skip_spaces,
        nonspace,
      )
      refl

-- A result that is no missing command.
unfoldable IsCommand : Parsed (Option Cmd) → Type 0
IsCommand (ok none) = ⊥
IsCommand (ok (some c)) = Unit
IsCommand breaks = Unit
IsCommand out_of_steps = Unit

some-IsCommand : (m : Parsed ExecCmd) (f : ExecCmd → Cmd) → IsCommand (m >>= λ c. ok (some (f c)))
unfolding IsCommand
some-IsCommand (ok c) f = tt
some-IsCommand breaks f = tt
some-IsCommand out_of_steps f = tt

parse_background-IsCommand :
    (e : Environ) (before : ℕ) (s : Texto) (i : Option ℕ)
    → IsCommand (parse_background e before s i)
unfolding parse_background parse_foreground parse_back
parse_background-IsCommand e before s none = some-IsCommand (parse_exec e s) exec
parse_background-IsCommand e before s (some i) =
    if_both IsCommand _ _ _ (some-IsCommand (parse_exec e (take i s)) back_cmd_create)
      (some-IsCommand (parse_exec e s) exec)

parse_cmd-IsCommand :
    (e : Environ) (before b : ℕ) (s : Texto) → IsCommand (parse_cmd e before (b ∷ s))
unfolding parse_cmd
parse_cmd-IsCommand e before b s =
    parse_background-IsCommand e before (b ∷ s) (block_contains (b ∷ s) 38)

>>=-IsCommand :
    (m : Parsed (Option Cmd)) (f g : Option Cmd → Parsed (Option Cmd))
    → IsCommand m
    → ((c : Cmd) → f (some c) ≡ g (some c))
    → (m >>= f) ≡ (m >>= g)
unfolding IsCommand
>>=-IsCommand (ok none) f g h e = absurd h
>>=-IsCommand (ok (some c)) f g h e = e c
>>=-IsCommand breaks f g h e = refl
>>=-IsCommand out_of_steps f g h e = refl

-- What follows the last part parses to no command.
parse_line_end :
    (e : Environ) (steps : ℕ) (rest : List ℕ) → parse_line e (suc steps) 0 (0 ∷ 0 ∷ rest) ≡ ok none
unfolding parse_line split_line split_at skip_spaces parse_cmd join_right parse_cmd_at string_at
    pipe_cmd_create
parse_line_end e steps rest = refl

>>=-ok : (m : Parsed (Option Cmd)) → (m >>= λ l. ok l) ≡ m
>>=-ok (ok a) = refl
>>=-ok breaks = refl
>>=-ok out_of_steps = refl

line_first :
    (rest : List ℕ) (b : ℕ) (s : Texto) (ts : List Texto)
    → (right : List ℕ) × (line rest (b ∷ s) ts ≡ b ∷ right)
unfolding line
line_first rest b s [] = (_, refl)
line_first rest b s (t ∷ ts) = (_, refl)

split_line-line :
    (rest : List ℕ) (s t : Texto) (ts : List Texto)
    → IsPart s
    → IsPart t
    → split_line 124 (line rest s (t ∷ ts)) ≡ some (s, line rest t ts)
unfolding line IsPart
split_line-line rest [] t ts p q = absurd p
split_line-line rest (b ∷ s) [] ts p q = absurd q
split_line-line rest (b ∷ s) (c ∷ t) ts p q =
    let (right, e) = line_first rest c t ts in rw e (split_line-append b s 124 c right p refl q.0)

last_part :
    (e : Environ) (rest : List ℕ) (f before : ℕ) (s : Texto)
    → IsPart s
    → parse_line e (suc (suc f)) before (line rest s []) ≡ parse_cmd e before s
unfolding parse_line line IsPart join_right pipe_cmd_create
last_part e rest f before [] p = absurd p
last_part e rest f before (b ∷ s) p =
    rw (parse_line, line, split_line-append b s 0 0 (0 ∷ rest) p refl refl)
      (>>=-IsCommand (parse_cmd e before (b ∷ s)) _ (λ l. ok l) (parse_cmd-IsCommand e before b s)
          (λ c. rw (join_right, parse_line_end e f rest) refl)
        ∙ >>=-ok (parse_cmd e before (b ∷ s)))

pipe_cmd_create-left_of :
    (l : Cmd) (parsed : Parsed (Option Cmd))
    → (parsed >>= λ r. ok (pipe_cmd_create (some l) r)) ≡ (parsed >>= λ r. ok (left_of (some l) r))
unfolding pipe_cmd_create left_of
pipe_cmd_create-left_of l (ok none) = refl
pipe_cmd_create-left_of l (ok (some r)) = refl
pipe_cmd_create-left_of l breaks = refl
pipe_cmd_create-left_of l out_of_steps = refl

first_part :
    (e : Environ) (f before : ℕ) (s : Texto) (buf right : List ℕ) (parsed : Parsed (Option Cmd))
    → IsPart s
    → split_line 124 buf ≡ some (s, right)
    → parse_line e f 0 right ≡ parsed
    → parse_line e (suc f) before buf
      ≡ (parse_cmd e before s >>= λ l. parsed >>= λ r. ok (left_of l r))
unfolding parse_line IsPart join_right
first_part e f before [] buf right parsed p split next = absurd p
first_part e f before (b ∷ s) buf right parsed p split next =
    rw (parse_line, split)
      (>>=-IsCommand (parse_cmd e before (b ∷ s)) _ (λ l. parsed >>= λ r. ok (left_of l r))
        (parse_cmd-IsCommand e before b s)
        (λ c. rw (join_right, next) (pipe_cmd_create-left_of c parsed)))

-- On a line of parts, each starting with a byte that is no space and without '|' or NUL, and with a
-- '|' between one and the next, parse_line gives the chain of pipe nodes, from left to right, over
-- what parse_cmd gives for each part, for any number of steps from the number of parts and two on.
pub parse_line-pipeline :
    (e : Environ) (rest : List ℕ) (steps before : ℕ) (s : Texto) (ss : List Texto)
    → IsPart s
    → AllParts ss
    → length ss + 1 < steps
    → parse_line e steps before (line rest s ss) ≡ pipeline e before s ss
unfolding pipeline AllParts
parse_line-pipeline e rest zero before s ss p ps h = absurd (omega arith)
parse_line-pipeline e rest (suc zero) before s ss p ps h = absurd (omega arith)
parse_line-pipeline e rest (suc (suc f)) before s [] p ps h = last_part e rest f before s p
parse_line-pipeline e rest (suc (suc f)) before s (t ∷ ts) p ps h =
    first_part e (suc f) before s _ (line rest t ts) (pipeline e 0 t ts) p
      (split_line-line rest s t ts p ps.0)
      (parse_line-pipeline e rest (suc f) 0 t ts ps.0 ps.1 (omega arith))
