-- ===== src/Shell/Run.antt =====
-- From a line of plain commands to the processes.
use mathlib.Core.Path.{subst}
use sistemas_operativos_fiub.Common.{
  ℕ, suc, ◌+◌, ◌*◌, ◌<◌, ◌≡◌, refl, ap, ◌∙◌, Bool, false, some, List, [], ◌∷◌, map, has_char, Texto,
  ◌++◌, ◌==◌, str_eq, length, length-append, arith,
}
use sistemas_operativos_fiub.Shell.Parser.{
  Cmd, Environ, ok, ◌>>=◌, exec, pipe, exec_cmd_create, parse_background, parse_cmd,
  parse_foreground,
}
use sistemas_operativos_fiub.Shell.Buffer.{string_at}
use sistemas_operativos_fiub.Shell.Builtin.{
  Directories, starts, exit_text, has_cd, pwd_text, run_cmd, run_cmd-run_line,
}
use sistemas_operativos_fiub.Shell.Exec.{
  Fds, Processes, both, exec_cmd, exec_command, pipe_read, pipe_write, run_line, runs,
  set_environ_vars,
}
use sistemas_operativos_fiub.Shell.Pipeline.{
  AllParts, IsPart, left_of, line, parse_line-pipeline, pipeline,
}
use sistemas_operativos_fiub.Shell.Words.{
  AllWords, block_contains-eq-none, parse_exec-unwords, unwords,
}

-- The words of a plain command: fewer than MAXARGS, the text of them a part of a line without '&'.
pub record IsStage (ws : List Texto) : Type 0 where
  pub part : IsPart (unwords ws)
  pub foreground : has_char (unwords ws) 38 ≡ false
  pub words : AllWords ws
  pub few : length ws < 20

unfoldable pub AllStages : List (List Texto) → Type 0
AllStages [] = Unit
AllStages (ws ∷ vs) = IsStage ws × AllStages vs

-- The processes of a pipeline: each program with its words, its output into the next one's input.
unfoldable pub connected : ℕ → Fds → List Texto → List (List Texto) → Processes
connected n fds ws [] = runs ws [] fds
connected n fds ws (v ∷ vs) =
    both (connected (2 * n + 2) (record fds { stdin = pipe_read n }) v vs)
      (runs ws [] (record fds { stdout = pipe_write n }))

abbrev command_of : List Texto → Cmd
command_of ws = exec (record (exec_cmd_create (unwords ws)) { argv = ws })

unfoldable chain_of : List Texto → List (List Texto) → Cmd
chain_of ws [] = command_of ws
chain_of ws (v ∷ vs) = pipe (command_of ws) (chain_of v vs)

parse_cmd-foreground :
    (e : Environ) (before : ℕ) (t : Texto)
    → IsPart t
    → has_char t 38 ≡ false
    → parse_cmd e before t ≡ parse_foreground e t
unfolding parse_cmd parse_background IsPart
parse_cmd-foreground e before [] p h = absurd p
parse_cmd-foreground e before (b ∷ t) p h = rw (parse_cmd, block_contains-eq-none (b ∷ t) 38 h) refl

parse_cmd-unwords :
    (e : Environ) (before : ℕ) (ws : List Texto)
    → IsStage ws
    → parse_cmd e before (unwords ws) ≡ ok (some (command_of ws))
unfolding parse_foreground
parse_cmd-unwords e before ws s =
    parse_cmd-foreground e before (unwords ws) s.part s.foreground
    ∙ rw (parse_foreground, parse_exec-unwords e ws s.words s.few) refl

pipeline-chain_of :
    (e : Environ) (before : ℕ) (ws : List Texto) (vs : List (List Texto))
    → IsStage ws
    → AllStages vs
    → pipeline e before (unwords ws) (map unwords vs) ≡ ok (some (chain_of ws vs))
unfolding pipeline AllStages chain_of left_of
pipeline-chain_of e before ws [] s ss = parse_cmd-unwords e before ws s
pipeline-chain_of e before ws (v ∷ vs) s ss =
    rw (pipeline, parse_cmd-unwords e before ws s, pipeline-chain_of e 0 v vs ss.0 ss.1) refl

exec_cmd-connected :
    (opens : Texto → Bool) (n : ℕ) (fds : Fds) (ws : List Texto) (vs : List (List Texto))
    → exec_cmd opens n fds (chain_of ws vs) ≡ connected n fds ws vs
unfolding exec_cmd exec_command set_environ_vars chain_of connected
exec_cmd-connected opens n fds ws [] = refl
exec_cmd-connected opens n fds ws (v ∷ vs) =
    ap (λ p. both p (runs ws [] (record fds { stdout = pipe_write n })))
      (exec_cmd-connected opens (2 * n + 2) (record fds { stdin = pipe_read n }) v vs)

AllStages-AllParts : (vs : List (List Texto)) → AllStages vs → AllParts (map unwords vs)
unfolding AllStages AllParts
AllStages-AllParts [] s = tt
AllStages-AllParts (v ∷ vs) s = (s.0.part, AllStages-AllParts vs s.1)

length-line :
    (rest : List ℕ) (s : Texto) (vs : List (List Texto))
    → length vs + 1 < length (line rest s (map unwords vs))
unfolding line
length-line rest s [] = omega (arith, length-append s (0 ∷ 0 ∷ 0 ∷ rest))
length-line rest s (v ∷ vs) = omega (
  arith,
  length-append s (124 ∷ line rest (unwords v) (map unwords vs)),
  length-line rest (unwords v) vs,
)

length-map-unwords : (vs : List (List Texto)) → length (map unwords vs) ≡ length vs
length-map-unwords [] = refl
length-map-unwords (v ∷ vs) = ap suc (length-map-unwords vs)

run_line-connected :
    (e : Environ) (opens : Texto → Bool) (fds : Fds) (rest : List ℕ) (ws : List Texto)
    (vs : List (List Texto))
    → IsStage ws
    → AllStages vs
    → run_line e opens fds (line rest (unwords ws) (map unwords vs)) ≡ ok (connected 0 fds ws vs)
unfolding run_line
run_line-connected e opens fds rest ws vs s ss =
    rw
      (
        run_line,
        parse_line-pipeline e rest (suc (length (line rest (unwords ws) (map unwords vs)))) 0
            (unwords ws) (map unwords vs) s.part (AllStages-AllParts vs ss)
            (omega (arith, length-line rest (unwords ws) vs, length-map-unwords vs)),
        pipeline-chain_of e 0 ws vs s ss,
      )
      (ap ok (exec_cmd-connected opens 0 fds ws vs))

-- The text of a line, and one that no built-in command takes.
unfoldable pub text_of : Texto → List Texto → Texto
text_of s [] = s
text_of s (t ∷ ts) = s ++ 124 ∷ text_of t ts

pub record IsExternal (text : Texto) : Type 0 where
  pub no_cd : has_cd text ≡ false
  pub no_exit : str_eq text exit_text ≡ false
  pub no_pwd : str_eq text pwd_text ≡ false

string_at-append :
    (s : Texto) (bs : List ℕ) (t : Texto)
    → has_char s 0 ≡ false
    → string_at bs ≡ some t
    → string_at (s ++ bs) ≡ some (s ++ t)
unfolding string_at has_char
string_at-append [] bs t no_nul e = e
string_at-append (b ∷ s) bs t no_nul e =
    let here : (b == 0) ≡ false = ground arith in
    rw (string_at, here, string_at-append s bs t (ground arith) e) refl

IsPart-no_nul : (s : Texto) → IsPart s → has_char s 0 ≡ false
unfolding IsPart
IsPart-no_nul [] p = absurd p
IsPart-no_nul (b ∷ s) p = p.2

append_nil : (s : Texto) → s ++ [] ≡ s
append_nil [] = refl
append_nil (b ∷ s) = ap (λ t. b ∷ t) (append_nil s)

string_at-line :
    (rest : List ℕ) (s : Texto) (ss : List Texto)
    → IsPart s
    → AllParts ss
    → string_at (line rest s ss) ≡ some (text_of s ss)
unfolding string_at line text_of AllParts
string_at-line rest s [] p ps =
    string_at-append s _ [] (IsPart-no_nul s p) refl ∙ ap some (append_nil s)
string_at-line rest s (t ∷ ts) p ps =
    string_at-append s _ (124 ∷ text_of t ts) (IsPart-no_nul s p)
      (rw (string_at, string_at-line rest t ts ps.0 ps.1) refl)

text_of-IsPart :
    (s : Texto) (ss : List Texto) → IsPart s → (b : ℕ) × (t : Texto) × (text_of s ss ≡ b ∷ t)
unfolding IsPart text_of
text_of-IsPart [] ss p = absurd p
text_of-IsPart (b ∷ s) [] p = (b, s, refl)
text_of-IsPart (b ∷ s) (t ∷ ts) p = (b, _, refl)

-- A line of plain commands with a '|' between one and the next, whose text does not have "cd" in it
-- and is not "exit" or "pwd", each command of fewer than MAXARGS words with one space between them,
-- no word being empty, having a space, '>', '<' or '=', or starting with '$', and no command having
-- '|', '&' or NUL: run_cmd starts a child for it, which runs each program with its words, no variable
-- set, the output of each connected to the input of the next, and the other descriptors as they were.
pub run_cmd-connected :
    (e : Environ) (d : Directories) (opens : Texto → Bool) (fds : Fds) (rest : List ℕ)
    (ws : List Texto) (vs : List (List Texto))
    → IsStage ws
    → AllStages vs
    → IsExternal (text_of (unwords ws) (map unwords vs))
    → run_cmd e d opens fds (line rest (unwords ws) (map unwords vs))
      ≡ ok (starts (connected 0 fds ws vs))
run_cmd-connected e d opens fds rest ws vs s ss x =
    let (b, t, first) = text_of-IsPart (unwords ws) (map unwords vs) s.part in
    let text =
      string_at-line rest (unwords ws) (map unwords vs) s.part (AllStages-AllParts vs ss) in
    run_cmd-run_line e d opens fds (line rest (unwords ws) (map unwords vs)) b t
      (text ∙ ap some first) (subst (λ c. has_cd c ≡ false) first x.no_cd)
      (subst (λ c. str_eq c exit_text ≡ false) first x.no_exit)
      (subst (λ c. str_eq c pwd_text ≡ false) first x.no_pwd)
    ∙ ap (λ r. r >>= λ p. ok (starts p)) (run_line-connected e opens fds rest ws vs s ss)
