-- ===== src/Shell/Builtin.antt =====
-- shell/builtin.c, and run_cmd of shell/runcmd.c, which tries each built-in command on the line before
-- it parses it.
use sistemas_operativos_fiub.Common.{
  ℕ, ◌≡◌, refl, Bool, true, false, not, ◌&&◌, ◌||◌, Option, none, some, List, [], ◌∷◌, ◌==◌,
  if◌then◌else◌, Texto, str_eq,
}
use sistemas_operativos_fiub.Shell.Buffer.{block_contains, end_string, space, split_line, string_at}
use sistemas_operativos_fiub.Shell.Parser.{Environ, Parsed, ok, breaks, ◌>>=◌}
use sistemas_operativos_fiub.Shell.Exec.{Fds, Processes, run_line}

-- Whether chdir succeeds on a directory, and what getcwd gives.
pub record Directories : Type 0 where
  pub chdir : Texto → Bool
  pub getcwd : Option Texto

abbrev pub exit_text : Texto
exit_text = 101 ∷ 120 ∷ 105 ∷ 116 ∷ []

abbrev pub pwd_text : Texto
pwd_text = 112 ∷ 119 ∷ 100 ∷ []

abbrev pub home_text : Texto
home_text = 72 ∷ 79 ∷ 77 ∷ 69 ∷ []

-- strstr(cmd, "cd")
unfoldable pub has_cd : Texto → Bool
has_cd [] = false
has_cd (b ∷ []) = false
has_cd (b ∷ c ∷ t) = (b == 99 && c == 100) || has_cd (c ∷ t)

-- block_contains(cmd, ' ') > 0
unfoldable pub space_inside : Texto → Bool
space_inside cmd = elim (block_contains cmd space) [ none ↦ false | some i ↦ not (i == 0) ]

-- The array after split_line wrote its NUL.
unfoldable pub cut : List ℕ → List ℕ
cut [] = []
cut (b ∷ bs) =
    let rest = b ∷ cut bs in if b == space || b == end_string then end_string ∷ bs else rest

-- The directory that is now the current one, or the array that the next functions read.
pub data Cd : Type 0 where
  changed : Texto → Cd
  not_done : List ℕ → Cd

unfoldable pub cd_home : Directories → List ℕ → Option Texto → Parsed Cd
cd_home d buf none = ok (not_done buf)
cd_home d buf (some dir) = if d.chdir dir then ok (changed dir) else ok (not_done buf)

unfoldable pub cd_to : Directories → List ℕ → Option (Texto × List ℕ) → Parsed Cd
cd_to d buf none = breaks
cd_to d buf (some (left, right)) = elim (string_at right) [
  | none ↦ breaks
  | some dir ↦ if d.chdir dir then ok (changed dir) else ok (not_done (cut buf))
]

unfoldable pub cd : Environ → Directories → List ℕ → Texto → Parsed Cd
cd e d buf cmd =
    if not (has_cd cmd)
    then ok (not_done buf)
    else if space_inside cmd
    then cd_to d buf (split_line space buf)
    else cd_home d buf (e.getenv home_text)

-- What a line does.
pub data Turn : Type 0 where
  empty_line : Turn
  changes_dir : Texto → Turn
  exits_shell : Turn
  prints_dir : Texto → Turn
  starts : Processes → Turn

unfoldable pub run_child : Environ → (Texto → Bool) → Fds → List ℕ → Parsed Turn
run_child e opens fds buf = run_line e opens fds buf >>= λ p. ok (starts p)

unfoldable pub pwd_or_run :
    Environ → (Texto → Bool) → Fds → List ℕ → Texto → Option Texto → Parsed Turn
pwd_or_run e opens fds buf cmd none = run_child e opens fds buf
pwd_or_run e opens fds buf cmd (some dir) =
    if str_eq cmd pwd_text then ok (prints_dir dir) else run_child e opens fds buf

unfoldable pub after_cd : Environ → Directories → (Texto → Bool) → Fds → Cd → Parsed Turn
after_cd e d opens fds (changed dir) = ok (changes_dir dir)
after_cd e d opens fds (not_done buf) = elim (string_at buf) [
  | none ↦ breaks
  | some cmd ↦
      if str_eq cmd exit_text then ok exits_shell else pwd_or_run e opens fds buf cmd d.getcwd
]

-- `history` always returns 0.
unfoldable pub run_cmd_at :
    Environ → Directories → (Texto → Bool) → Fds → List ℕ → Option Texto → Parsed Turn
run_cmd_at e d opens fds buf none = breaks
run_cmd_at e d opens fds buf (some []) = ok empty_line
run_cmd_at e d opens fds buf (some (b ∷ cmd)) = cd e d buf (b ∷ cmd) >>= after_cd e d opens fds

unfoldable pub run_cmd : Environ → Directories → (Texto → Bool) → Fds → List ℕ → Parsed Turn
run_cmd e d opens fds buf = run_cmd_at e d opens fds buf (string_at buf)

pwd_or_run-run_child :
    (e : Environ) (opens : Texto → Bool) (fds : Fds) (buf : List ℕ) (cmd : Texto)
    (dir : Option Texto)
    → str_eq cmd pwd_text ≡ false
    → pwd_or_run e opens fds buf cmd dir ≡ run_child e opens fds buf
unfolding pwd_or_run
pwd_or_run-run_child e opens fds buf cmd none h = refl
pwd_or_run-run_child e opens fds buf cmd (some dir) h = rw (pwd_or_run, h) refl

-- A command without "cd" in it that is not empty, nor "exit" nor "pwd", is parsed and executed as it
-- is.
pub run_cmd-run_line :
    (e : Environ) (d : Directories) (opens : Texto → Bool) (fds : Fds) (buf : List ℕ) (b : ℕ)
    (cmd : Texto)
    → string_at buf ≡ some (b ∷ cmd)
    → has_cd (b ∷ cmd) ≡ false
    → str_eq (b ∷ cmd) exit_text ≡ false
    → str_eq (b ∷ cmd) pwd_text ≡ false
    → run_cmd e d opens fds buf ≡ (run_line e opens fds buf >>= λ p. ok (starts p))
unfolding run_cmd run_cmd_at after_cd cd run_child
run_cmd-run_line e d opens fds buf b cmd text no_cd no_exit no_pwd =
    rw (run_cmd, text, run_cmd_at, cd, no_cd, after_cd, text, no_exit)
      (pwd_or_run-run_child e opens fds buf (b ∷ cmd) d.getcwd no_pwd)

-- A command without a space, not empty, that has "cd" anywhere changes to the home directory when
-- chdir succeeds there.
pub run_cmd-has_cd :
    (e : Environ) (d : Directories) (opens : Texto → Bool) (fds : Fds) (buf : List ℕ) (b : ℕ)
    (cmd dir : Texto)
    → string_at buf ≡ some (b ∷ cmd)
    → has_cd (b ∷ cmd) ≡ true
    → space_inside (b ∷ cmd) ≡ false
    → e.getenv home_text ≡ some dir
    → d.chdir dir ≡ true
    → run_cmd e d opens fds buf ≡ ok (changes_dir dir)
unfolding run_cmd run_cmd_at after_cd cd cd_home
run_cmd-has_cd e d opens fds buf b cmd dir text has one_word home moves =
    rw (run_cmd, text, run_cmd_at, cd, has, one_word, home, cd_home, moves) refl
