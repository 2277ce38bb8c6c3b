-- ===== src/Shell/Parser.antt =====
-- shell/parsing.c, types.h and createcmd.c: from the line to the command.
use sistemas_operativos_fiub.Common.{
  ℕ, zero, suc, Bool, true, false, not, ◌||◌, Option, none, some, List, [], ◌∷◌, ◌++◌, ltb, leb,
  ◌==◌, if◌then◌else◌, Texto, length, take, drop, get_or,
}
use sistemas_operativos_fiub.Shell.Buffer.{
  block_contains, after_token, get_token, split_line, string_at,
}

abbrev pub maxargs : ℕ
maxargs = 20

abbrev pub argsize : ℕ
argsize = 1024

-- sizeof(arg), of a pointer
abbrev pub sizeof_arg : ℕ
sizeof_arg = 8

-- struct execcmd; `redir` tells the type REDIR from EXEC, and argc and eargc are the lengths of the
-- lists.
pub record ExecCmd : Type 0 where
  pub redir : Bool
  pub scmd : Texto
  pub argv : List Texto
  pub eargv : List Texto
  pub out_file : Texto
  pub in_file : Texto
  pub err_file : Texto

-- struct cmd; a pipe may have no left command.
pub data Cmd : Type 0 where
  exec : ExecCmd → Cmd
  back : Texto → ExecCmd → Cmd
  pipe : Cmd → Cmd → Cmd
  pipe_no_left : Cmd → Cmd

-- A result, an access outside an array or of bytes that were never set, or a bound on the rounds of
-- a loop that was too small.
pub data Parsed {ℓ} (A : Type ℓ) : Type ℓ where
  ok : A → Parsed A
  breaks : Parsed A
  out_of_steps : Parsed A

infixl 5 ◌>>=◌
abbrev pub ◌>>=◌ {ℓ κ} : {A : Type ℓ} {B : Type κ} → Parsed A → (A → Parsed B) → Parsed B
ok a >>= f = f a
breaks >>= f = breaks
out_of_steps >>= f = out_of_steps

-- The process's environment, and `status` as "%d" prints it.
pub record Environ : Type 0 where
  pub getenv : Texto → Option Texto
  pub status : Texto

abbrev pub exec_cmd_create : Texto → ExecCmd
exec_cmd_create buf_cmd = record {
  redir = false;
  scmd = buf_cmd;
  argv = [];
  eargv = [];
  out_file = [];
  in_file = [];
  err_file = [];
}

abbrev pub back_cmd_create : ExecCmd → Cmd
back_cmd_create c = back c.scmd c

unfoldable pub pipe_cmd_create : Option Cmd → Option Cmd → Option Cmd
pipe_cmd_create left none = left
pipe_cmd_create none (some right) = some (pipe_no_left right)
pipe_cmd_create (some left) (some right) = some (pipe left right)

-- The file of a token whose '>' is at an index.
unfoldable pub redir_out : ExecCmd → Texto → ℕ → ExecCmd
redir_out c arg zero = record c { redir = true; out_file = drop 1 arg }
redir_out c arg (suc zero) = record c { redir = true; err_file = drop 2 arg }
redir_out c arg (suc (suc i)) = record c { redir = true }

-- `none` is false.
unfoldable pub parse_redir_flow : ExecCmd → Texto → Option ExecCmd
parse_redir_flow c arg = elim (block_contains arg 62) [
  | some i ↦ some (redir_out c arg i)
  | none ↦ elim (block_contains arg 60) [
    | some i ↦ some (record c { redir = true; in_file = drop 1 arg })
    | none ↦ none
  ]
]

-- The test of parse_environ_var: block_contains(arg, '=') > 0 and block_contains(arg, '-') < 0.
unfoldable pub is_environ_var : Texto → Bool
is_environ_var arg = elim (block_contains arg 61) [
  | none ↦ false
  | some zero ↦ false
  | some (suc i) ↦ elim (block_contains arg 45) [ none ↦ true | some j ↦ false ]
]

abbrev pub push : List Texto → Texto → List Texto
push ts t = ts ++ t ∷ []

-- The value copied into the token's array. A value of more than sizeof(arg) bytes is copied after
-- the array was cut to its length and one byte, which only old contents can make a NUL.
unfoldable pub copy_value : Texto → Texto → Parsed Texto
copy_value arg env =
    if ltb sizeof_arg (length env)
    then (if ltb (length env) (length arg) || leb argsize (length env) then breaks else ok env)
    else ok (env ++ drop (length env) arg)

unfoldable pub expand_value : Texto → Option Texto → Parsed Texto
expand_value arg none = ok []
expand_value arg (some []) = ok []
expand_value arg (some (b ∷ bs)) = copy_value arg (b ∷ bs)

unfoldable pub expand_environ_var : Environ → Texto → Parsed Texto
expand_environ_var e arg =
    if not (get_or arg 0 0 == 36)
    then ok arg
    else if get_or arg 1 0 == 63
    then ok e.status
    else expand_value arg (e.getenv (drop 1 arg))

unfoldable pub push_arg : ExecCmd → Texto → Parsed ExecCmd
push_arg c [] = ok c
push_arg c (b ∷ bs) =
    if ltb (length c.argv) maxargs then ok (record c { argv = push c.argv (b ∷ bs) }) else breaks

-- What parse_exec does with a token.
unfoldable pub parse_token : Environ → ExecCmd → Texto → Parsed ExecCmd
parse_token e c tok = elim (parse_redir_flow c tok) [
  | some c' ↦ ok c'
  | none ↦
      if is_environ_var tok
      then (if ltb (length c.eargv) maxargs
          then ok (record c { eargv = push c.eargv tok })
          else breaks)
      else (expand_environ_var e tok >>= push_arg c)
]

-- The loop of parse_exec.
unfoldable pub parse_tokens : Environ → ℕ → ExecCmd → Texto → Parsed ExecCmd
parse_tokens e zero c buf = out_of_steps
parse_tokens e (suc steps) c [] = ok c
parse_tokens e (suc steps) c (b ∷ bs) =
    parse_token e c (get_token (b ∷ bs)) >>= λ c'. parse_tokens e steps c' (after_token (b ∷ bs))

-- `argv[argc] = NULL`
unfoldable pub end_argv : ExecCmd → Parsed ExecCmd
end_argv c = if ltb (length c.argv) maxargs then ok c else breaks

unfoldable pub parse_exec : Environ → Texto → Parsed ExecCmd
parse_exec e buf_cmd =
    parse_tokens e (suc (length buf_cmd)) (exec_cmd_create buf_cmd) buf_cmd >>= end_argv

unfoldable pub parse_back : Environ → Texto → ℕ → Parsed (Option Cmd)
parse_back e buf_cmd i = parse_exec e (take i buf_cmd) >>= λ c. ok (some (back_cmd_create c))

-- The byte before an index; `before` is the one before the string.
abbrev pub byte_before : ℕ → Texto → ℕ → ℕ
byte_before before buf_cmd zero = before
byte_before before buf_cmd (suc i) = get_or buf_cmd i 0

unfoldable pub parse_foreground : Environ → Texto → Parsed (Option Cmd)
parse_foreground e buf_cmd = parse_exec e buf_cmd >>= λ c. ok (some (exec c))

unfoldable pub parse_background : Environ → ℕ → Texto → Option ℕ → Parsed (Option Cmd)
parse_background e before buf_cmd none = parse_foreground e buf_cmd
parse_background e before buf_cmd (some i) =
    if not (byte_before before buf_cmd i == 62)
    then parse_back e buf_cmd i
    else parse_foreground e buf_cmd

unfoldable pub parse_cmd : Environ → ℕ → Texto → Parsed (Option Cmd)
parse_cmd e before [] = ok none
parse_cmd e before (b ∷ bs) = parse_background e before (b ∷ bs) (block_contains (b ∷ bs) 38)

-- parse_cmd at a pointer.
unfoldable pub parse_cmd_at : Environ → List ℕ → Parsed (Option Cmd)
parse_cmd_at e buf = elim (string_at buf) [ none ↦ breaks | some t ↦ parse_cmd e 0 t ]

-- The rest of parse_line, once the left command is known; `rest` is its own call on the right.
unfoldable pub join_right :
    Environ → List ℕ → Parsed (Option Cmd) → Option Cmd → Parsed (Option Cmd)
join_right e right rest none = parse_cmd_at e right >>= λ r. ok (pipe_cmd_create none r)
join_right e right rest (some l) = rest >>= λ r. ok (pipe_cmd_create (some l) r)

-- The byte before a right part is the NUL that replaced the splitter, or a space; parse_cmd only
-- compares it with '>'.
unfoldable pub parse_line : Environ → ℕ → ℕ → List ℕ → Parsed (Option Cmd)
parse_line e zero before buf = out_of_steps
parse_line e (suc steps) before buf = elim (split_line 124 buf) [
  | none ↦ breaks
  | some (left, right) ↦ parse_cmd e before left >>= join_right e right (parse_line e steps 0 right)
]
