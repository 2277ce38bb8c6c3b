-- ===== src/Shell/Exec.antt =====
-- shell/exec.c: the processes that a command becomes, each with its arguments, the variables it sets
-- and its three descriptors. Every pipe and fork succeeds; execvp is the event `runs`.
use sistemas_operativos_fiub.Common.{
  ℕ, suc, ◌+◌, ◌*◌, Bool, ◌&&◌, Option, none, some, List, [], ◌∷◌, ◌==◌, if◌then◌else◌, Texto,
  length, drop, get_or,
}
use sistemas_operativos_fiub.Shell.Buffer.{block_contains}
use sistemas_operativos_fiub.Shell.Parser.{
  Cmd, Environ, ExecCmd, Parsed, ok, breaks, ◌>>=◌, back, exec, pipe, pipe_no_left, parse_line,
}

-- What a descriptor is open on.
pub data Stream : Type 0 where
  inherited : ℕ → Stream
  read_file : Texto → Stream
  write_file : Texto → Stream
  pipe_read : ℕ → Stream
  pipe_write : ℕ → Stream

pub record Fds : Type 0 where
  pub stdin : Stream
  pub stdout : Stream
  pub stderr : Stream

-- `exits` is a process that ends because dup2 failed, `follows_null` one that follows NULL or reads
-- past a string; `both` are the right and the left process of a pipe.
pub data Processes : Type 0 where
  runs : List Texto → List (Texto × Texto) → Fds → Processes
  exits : Processes
  follows_null : Processes
  both : Processes → Processes → Processes

-- The bytes before the first '='; without one the loop leaves the string.
unfoldable pub get_environ_key : Texto → Option Texto
get_environ_key [] = none
get_environ_key (b ∷ bs) =
    let rest = get_environ_key bs in
    if b == 61 then some [] else elim rest [ none ↦ none | some key ↦ some (b ∷ key) ]

abbrev pub get_environ_value : Texto → ℕ → Texto
get_environ_value arg idx = drop (suc idx) arg

unfoldable pub set_environ_vars : List Texto → Option (List (Texto × Texto))
set_environ_vars [] = some []
set_environ_vars (arg ∷ eargv) = elim (set_environ_vars eargv) [
  | none ↦ none
  | some pairs ↦ elim (block_contains arg 61) [
    | none ↦ none
    | some idx ↦ elim (get_environ_key arg) [
      | none ↦ none
      | some key ↦ some ((key, get_environ_value arg idx) ∷ pairs)
    ]
  ]
]

unfoldable pub exec_command : Fds → ExecCmd → Processes
exec_command fds e = elim (set_environ_vars e.eargv) [
  | none ↦ follows_null
  | some pairs ↦ runs e.argv pairs fds
]

-- dup_file: the stream of the descriptor afterwards; `opens` tells whether a file can be opened.
unfoldable pub dup_file : (Texto → Bool) → Texto → Stream → Stream → Option Stream
dup_file opens file old new =
    if length file == 0 then some old else if opens file then some new else none

unfoldable pub dup_err : (Texto → Bool) → Texto → Fds → Option Stream
dup_err opens file fds =
    if get_or file 0 0 == 38 && get_or file 1 0 == 49
    then some fds.stdout
    else dup_file opens file fds.stderr (write_file file)

unfoldable pub exec_redir : (Texto → Bool) → Fds → ExecCmd → Processes
exec_redir opens fds e = elim (dup_file opens e.in_file fds.stdin (read_file e.in_file)) [
  | none ↦ exits
  | some in_ ↦ elim (dup_file opens e.out_file fds.stdout (write_file e.out_file)) [
    | none ↦ exits
    | some out ↦ elim (dup_err opens e.err_file (record fds { stdin = in_; stdout = out })) [
      | none ↦ exits
      | some err ↦ exec_command (record { stdin = in_; stdout = out; stderr = err }) e
    ]
  ]
]

-- `n` numbers the pipe of a command, so that no two pipes of a line have one number.
unfoldable pub exec_cmd : (Texto → Bool) → ℕ → Fds → Cmd → Processes
exec_cmd opens n fds (exec e) = if e.redir then exec_redir opens fds e else exec_command fds e
exec_cmd opens n fds (back scmd e) = exec_command fds e
exec_cmd opens n fds (pipe left right) =
    both (exec_cmd opens (2 * n + 2) (record fds { stdin = pipe_read n }) right)
      (exec_cmd opens (2 * n + 1) (record fds { stdout = pipe_write n }) left)
exec_cmd opens n fds (pipe_no_left right) =
    both (exec_cmd opens (2 * n + 2) (record fds { stdin = pipe_read n }) right) follows_null

abbrev pub exec_parsed : (Texto → Bool) → Fds → Option Cmd → Parsed Processes
exec_parsed opens fds none = breaks
exec_parsed opens fds (some c) = ok (exec_cmd opens 0 fds c)

-- run_cmd of shell/runcmd.c on a line that is no built-in command, as far as its child goes.
unfoldable pub run_line : Environ → (Texto → Bool) → Fds → List ℕ → Parsed Processes
run_line e opens fds cmd = parse_line e (suc (length cmd)) 0 cmd >>= exec_parsed opens fds
