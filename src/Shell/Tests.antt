-- ===== src/Shell/Tests.antt =====
-- The parser on small lines.
use sistemas_operativos_fiub.Common.{
  map, ◌≡◌, refl, true, false, none, some, [], ◌∷◌, ◌++◌, has_char, if◌then◌else◌, Texto, str_eq,
  arith,
}
use sistemas_operativos_fiub.Shell.Buffer.{block_contains, after_token, get_token}
use sistemas_operativos_fiub.Shell.Parser.{
  ExecCmd, Environ, ok, exec, back, copy_value, exec_cmd_create, expand_environ_var, expand_value,
  parse_cmd, parse_exec, parse_line, end_argv, is_environ_var, parse_tokens, parse_token,
  parse_redir_flow, redir_out, push_arg, parse_background, parse_foreground, parse_back,
}
use sistemas_operativos_fiub.Shell.Ends.{Ends, parse_line-Ends}
use sistemas_operativos_fiub.Shell.Pipeline.{AllParts, IsPart, line, parse_line-pipeline, pipeline}
use sistemas_operativos_fiub.Shell.Exec.{
  Fds, exec_cmd, exec_command, inherited, pipe_read, pipe_write, write_file, runs, both,
  set_environ_vars, exec_redir, dup_file, dup_err,
}
use sistemas_operativos_fiub.Shell.Run.{
  IsExternal, IsStage, AllStages, connected, run_cmd-connected, text_of,
}
use sistemas_operativos_fiub.Shell.Builtin.{Directories, starts, has_cd, run_cmd}
use sistemas_operativos_fiub.Shell.Words.{AllWords, IsWord, parse_exec-unwords, unwords}

-- HOME is "/", PATH is "/usr/local/bin".
abbrev home : Texto
home = 72 ∷ 79 ∷ 77 ∷ 69 ∷ []

abbrev root : Texto
root = 47 ∷ []

abbrev path : Texto
path = 80 ∷ 65 ∷ 84 ∷ 72 ∷ []

abbrev usr_local_bin : Texto
usr_local_bin = 47 ∷ 117 ∷ 115 ∷ 114 ∷ 47 ∷ 108 ∷ 111 ∷ 99 ∷ 97 ∷ 108 ∷ 47 ∷ 98 ∷ 105 ∷ 110 ∷ []

abbrev small_environ : Environ
small_environ = record {
  getenv = λ name.
      if str_eq name home
      then some (47 ∷ [])
      else if str_eq name path
      then some usr_local_bin
      else none;
  status = 48 ∷ [];
}

-- "ls" and "wc -l"
abbrev ls : Texto
ls = 108 ∷ 115 ∷ []

abbrev wc : Texto
wc = 119 ∷ 99 ∷ []

abbrev dash_l : Texto
dash_l = 45 ∷ 108 ∷ []

parse_line-Ends_example :
    Ends (parse_line small_environ 8 0 (108 ∷ 115 ∷ 124 ∷ 119 ∷ 99 ∷ 0 ∷ 0 ∷ []))
parse_line-Ends_example =
    parse_line-Ends small_environ 8 0 (108 ∷ 115 ∷ 124 ∷ 119 ∷ 99 ∷ 0 ∷ 0 ∷ []) (omega arith)

parse_line-pipeline_example :
    parse_line small_environ 5 0 (line (0 ∷ []) ls ((wc ++ 32 ∷ dash_l) ∷ []))
    ≡ pipeline small_environ 0 ls ((wc ++ 32 ∷ dash_l) ∷ [])
unfolding IsPart AllParts has_char
parse_line-pipeline_example =
    parse_line-pipeline small_environ (0 ∷ []) 5 0 ls ((wc ++ 32 ∷ dash_l) ∷ []) (refl, refl, refl)
      ((refl, refl, refl), tt) (omega arith)

parse_exec-unwords_example :
    parse_exec small_environ (unwords (wc ∷ dash_l ∷ []))
    ≡ ok (record (exec_cmd_create (unwords (wc ∷ dash_l ∷ []))) { argv = wc ∷ dash_l ∷ [] })
unfolding IsWord AllWords has_char
parse_exec-unwords_example =
    parse_exec-unwords small_environ (wc ∷ dash_l ∷ [])
      (
        (omega arith, refl, refl, refl, refl, refl),
        ((omega arith, refl, refl, refl, refl, refl), tt),
      )
      (omega arith)

-- "$HOME" becomes "/HOME".
home_run : expand_environ_var small_environ (36 ∷ home) ≡ ok (47 ∷ home)
unfolding expand_environ_var expand_value copy_value str_eq
home_run = refl

path_run : expand_environ_var small_environ (36 ∷ path) ≡ ok usr_local_bin
unfolding expand_environ_var expand_value copy_value str_eq
path_run = refl

-- "ls >o" and "ls 2>o &"
redir_run :
    parse_cmd small_environ 0 (ls ++ 32 ∷ 62 ∷ 111 ∷ [])
    ≡ ok (
        some (
          exec (record (exec_cmd_create (ls ++ 32 ∷ 62 ∷ 111 ∷ [])) {
            redir = true;
            argv = ls ∷ [];
            out_file = 111 ∷ [];
          })))
unfolding parse_cmd parse_background parse_foreground parse_exec parse_tokens parse_token
    parse_redir_flow redir_out is_environ_var expand_environ_var push_arg end_argv block_contains
    get_token after_token
redir_run = refl

back_run :
    parse_cmd small_environ 0 (ls ++ 32 ∷ 50 ∷ 62 ∷ 111 ∷ 32 ∷ 38 ∷ [])
    ≡ ok (
        some (
          back
            (ls ++ 32 ∷ 50 ∷ 62 ∷ 111 ∷ 32 ∷ [])
            (record (exec_cmd_create (ls ++ 32 ∷ 50 ∷ 62 ∷ 111 ∷ 32 ∷ [])) {
              redir = true;
              argv = ls ∷ [];
              err_file = 111 ∷ [];
            })))
unfolding parse_cmd parse_background parse_back parse_exec parse_tokens parse_token parse_redir_flow
    redir_out is_environ_var expand_environ_var push_arg end_argv block_contains get_token
    after_token
back_run = refl

abbrev terminal : Fds
terminal = record { stdin = inherited 0; stdout = inherited 1; stderr = inherited 2 }

abbrev no_directories : Directories
no_directories = record { chdir = λ t. false; getcwd = none }

ls-IsStage : IsStage (ls ∷ [])
unfolding IsPart has_char AllWords IsWord unwords
ls-IsStage = record {
  part = (refl, refl, refl);
  foreground = refl;
  words = ((omega arith, refl, refl, refl, refl, refl), tt);
  few = omega arith;
}

wc-IsStage : IsStage (wc ∷ dash_l ∷ [])
unfolding IsPart has_char AllWords IsWord unwords
wc-IsStage = record {
  part = (refl, refl, refl);
  foreground = refl;
  words = (
    (omega arith, refl, refl, refl, refl, refl),
    ((omega arith, refl, refl, refl, refl, refl), tt),
  );
  few = omega arith;
}

small_line-IsExternal : IsExternal (text_of ls ((wc ++ 32 ∷ dash_l) ∷ []))
unfolding has_cd text_of str_eq
small_line-IsExternal = record { no_cd = refl; no_exit = refl; no_pwd = refl }

run_cmd-connected_example :
    run_cmd small_environ no_directories
      (λ f. true)
      terminal
      (line (0 ∷ []) (unwords (ls ∷ [])) (map unwords ((wc ∷ dash_l ∷ []) ∷ [])))
    ≡ ok (starts (connected 0 terminal (ls ∷ []) ((wc ∷ dash_l ∷ []) ∷ [])))
unfolding AllStages unwords
run_cmd-connected_example =
    run_cmd-connected small_environ no_directories (λ f. true) terminal (0 ∷ []) (ls ∷ [])
      ((wc ∷ dash_l ∷ []) ∷ []) ls-IsStage (wc-IsStage, tt) small_line-IsExternal

connected_run :
    connected 0 terminal (ls ∷ []) ((wc ∷ dash_l ∷ []) ∷ [])
    ≡ both
        (runs (wc ∷ dash_l ∷ []) [] (record terminal { stdin = pipe_read 0 }))
        (runs (ls ∷ []) [] (record terminal { stdout = pipe_write 0 }))
unfolding connected
connected_run = refl

abbrev ls_to_file : ExecCmd
ls_to_file = record (exec_cmd_create ls) { redir = true; argv = ls ∷ []; out_file = 111 ∷ [] }

-- The redirection of a command in the background is lost.
foreground_run :
    exec_cmd (λ f. true) 0 terminal (exec ls_to_file)
    ≡ runs (ls ∷ []) [] (record terminal { stdout = write_file (111 ∷ []) })
unfolding exec_cmd exec_redir dup_file dup_err exec_command set_environ_vars
foreground_run = refl

background_run : exec_cmd (λ f. true) 0 terminal (back ls ls_to_file) ≡ runs (ls ∷ []) [] terminal
unfolding exec_cmd exec_command set_environ_vars
background_run = refl
