-- ===== src/Shell/Ends.antt =====
-- The loops and the recursion of the parser end.
use mathlib.Core.Path.{subst}
use sistemas_operativos_fiub.Common.{
  ℕ, zero, suc, ◌≤◌, ◌<◌, ◌≡◌, Bool, ◌||◌, Option, none, some, List, [], ◌∷◌, ◌==◌, if◌then◌else◌,
  if_both, Option-cases, inl, inr, Texto, length, arith,
}
use sistemas_operativos_fiub.Shell.Buffer.{
  block_contains, after_token, get_token, prepend, skip_right, skip_spaces, split_at, split_line,
  string_at,
}
use sistemas_operativos_fiub.Shell.Parser.{
  Cmd, Environ, ExecCmd, Parsed, ok, breaks, out_of_steps, ◌>>=◌, copy_value, end_argv,
  expand_environ_var, expand_value, exec_cmd_create, join_right, parse_back, parse_background,
  parse_cmd, parse_cmd_at, parse_exec, parse_foreground, parse_line, parse_redir_flow, parse_token,
  parse_tokens, push_arg,
}

-- A result or an invalid access, within the steps given.
unfoldable pub Ends {ℓ} : {A : Type ℓ} → Parsed A → Type 0
Ends (ok a) = Unit
Ends breaks = Unit
Ends out_of_steps = ⊥

pub >>=-Ends {ℓ κ} :
    {A : Type ℓ} {B : Type κ} (m : Parsed A) (f : A → Parsed B)
    → Ends m
    → ((a : A) → Ends (f a))
    → Ends (m >>= f)
unfolding Ends
>>=-Ends (ok a) f h g = g a
>>=-Ends breaks f h g = tt
>>=-Ends out_of_steps f h g = h

ok-Ends {ℓ} : {A : Type ℓ} (a : A) → Ends (ok a)
unfolding Ends
ok-Ends a = tt

breaks-Ends {ℓ} : (A : Type ℓ) → Ends {A = A} breaks
unfolding Ends
breaks-Ends A = tt

if-Ends {ℓ} : {A : Type ℓ} (b : Bool) (x y : Parsed A) → Ends x → Ends y → Ends (if b then x else y)
if-Ends b x y hx hy = if_both Ends b x y hx hy

ruleset end_rules = (ok-Ends, breaks-Ends, if-Ends, >>=-Ends)

expand_value-Ends : (arg : Texto) (v : Option Texto) → Ends (expand_value arg v)
unfolding expand_value copy_value
expand_value-Ends arg none = search end_rules
expand_value-Ends arg (some []) = search end_rules
expand_value-Ends arg (some (b ∷ bs)) = search end_rules

push_arg-Ends : (c : ExecCmd) (t : Texto) → Ends (push_arg c t)
unfolding push_arg
push_arg-Ends c [] = search end_rules
push_arg-Ends c (b ∷ bs) = search end_rules

expand_environ_var-Ends : (e : Environ) (tok : Texto) → Ends (expand_environ_var e tok)
unfolding expand_environ_var
expand_environ_var-Ends e tok = search (end_rules, expand_value-Ends)

parse_token-Ends : (e : Environ) (c : ExecCmd) (tok : Texto) → Ends (parse_token e c tok)
unfolding parse_token
parse_token-Ends e c tok = elim (Option-cases (parse_redir_flow c tok)) [
  | inr (c', redir) ↦ rw (parse_token, redir) (ok-Ends c')
  | inl none_ ↦ rw (parse_token, none_) (search (end_rules, expand_environ_var-Ends, push_arg-Ends))
]

length-after_token : (b : ℕ) (bs : Texto) → length (after_token (b ∷ bs)) ≤ length bs
unfolding after_token
length-after_token b [] = ground arith
length-after_token b (x ∷ xs) = ground (arith, length-after_token x xs)

parse_tokens-Ends :
    (e : Environ) (steps : ℕ) (c : ExecCmd) (buf : Texto)
    → length buf < steps
    → Ends (parse_tokens e steps c buf)
unfolding parse_tokens
parse_tokens-Ends e zero c buf h = absurd (omega arith)
parse_tokens-Ends e (suc steps) c [] h = ok-Ends c
parse_tokens-Ends e (suc steps) c (b ∷ bs) h =
    >>=-Ends (parse_token e c (get_token (b ∷ bs))) _ (parse_token-Ends e c (get_token (b ∷ bs)))
      (λ c'.
        parse_tokens-Ends e steps c' (after_token (b ∷ bs))
          (omega (arith, length-after_token b bs)))

pub parse_exec-Ends : (e : Environ) (buf : Texto) → Ends (parse_exec e buf)
unfolding parse_exec end_argv
parse_exec-Ends e buf =
    >>=-Ends (parse_tokens e (suc (length buf)) (exec_cmd_create buf) buf) end_argv
      (parse_tokens-Ends e (suc (length buf)) (exec_cmd_create buf) buf (omega arith))
      (λ c. search end_rules)

parse_background-Ends :
    (e : Environ) (before : ℕ) (t : Texto) (i : Option ℕ) → Ends (parse_background e before t i)
unfolding parse_background parse_back parse_foreground
parse_background-Ends e before t none = search (end_rules, parse_exec-Ends)
parse_background-Ends e before t (some i) = search (end_rules, parse_exec-Ends)

parse_cmd-Ends : (e : Environ) (before : ℕ) (t : Texto) → Ends (parse_cmd e before t)
unfolding parse_cmd
parse_cmd-Ends e before [] = ok-Ends none
parse_cmd-Ends e before (b ∷ bs) =
    parse_background-Ends e before (b ∷ bs) (block_contains (b ∷ bs) 38)

parse_cmd_at-Ends : (e : Environ) (buf : List ℕ) → Ends (parse_cmd_at e buf)
unfolding parse_cmd_at
parse_cmd_at-Ends e buf = elim (Option-cases (string_at buf)) [
  | inl past ↦ rw (parse_cmd_at, past) (breaks-Ends (Option Cmd))
  | inr (t, here) ↦ rw (parse_cmd_at, here) (parse_cmd-Ends e 0 t)
]

length-skip_spaces : (buf rest : List ℕ) → skip_spaces buf ≡ some rest → length rest ≤ length buf
unfolding skip_spaces
length-skip_spaces [] rest e = ground arith
length-skip_spaces (b ∷ bs) rest e = ground (arith, length-skip_spaces bs rest)

-- The right part of a split is shorter than n.
unfoldable Shorter : ℕ → Option (Texto × List ℕ) → Type 0
Shorter n none = Unit
Shorter n (some (left, right)) = length right < n

prepend-Shorter :
    (n b : ℕ) (o : Option (Texto × List ℕ)) → Shorter n o → Shorter (suc n) (prepend b o)
unfolding Shorter
prepend-Shorter n b none h = tt
prepend-Shorter n b (some (left, right)) h = omega (arith, h)

split_at-Shorter : (splitter : ℕ) (buf : List ℕ) → Shorter (length buf) (split_at splitter buf)
unfolding split_at Shorter
split_at-Shorter splitter [] = tt
split_at-Shorter splitter (b ∷ bs) =
    if_both (Shorter (suc (length bs))) (b == splitter || b == 0) (some ([], bs))
      (prepend b (split_at splitter bs)) (omega arith)
      (prepend-Shorter (length bs) b (split_at splitter bs) (split_at-Shorter splitter bs))

skip_right-Shorter : (n : ℕ) (o : Option (Texto × List ℕ)) → Shorter n o → Shorter n (skip_right o)
unfolding Shorter
skip_right-Shorter n none h = tt
skip_right-Shorter n (some (left, right)) h = elim (Option-cases (skip_spaces right)) [
  | inl past ↦ rw (Shorter, skip_right, past) tt
  | inr (rest, here) ↦
      rw (Shorter, skip_right, here) (omega (arith, h, length-skip_spaces right rest here))
]

length-split_line :
    (splitter : ℕ) (buf left right : List ℕ)
    → split_line splitter buf ≡ some (left, right)
    → length right < length buf
unfolding split_line Shorter
length-split_line splitter buf left right e =
    subst (Shorter (length buf)) e
      (skip_right-Shorter (length buf) (split_at splitter buf) (split_at-Shorter splitter buf))

-- As many steps as the array has bytes, and one, are enough for parse_line, and its loops end: it
-- gives a command, or none, or accesses memory outside the array or an array of the command.
pub parse_line-Ends :
    (e : Environ) (steps before : ℕ) (buf : List ℕ)
    → length buf < steps
    → Ends (parse_line e steps before buf)
unfolding parse_line join_right
parse_line-Ends e zero before buf h = absurd (omega arith)
parse_line-Ends e (suc steps) before buf h = elim (Option-cases (split_line 124 buf)) [
  | inl past ↦ rw (parse_line, past) (breaks-Ends (Option Cmd))
  | inr ((left, right), here) ↦
      rw (parse_line, here)
        (>>=-Ends (parse_cmd e before left) _ (parse_cmd-Ends e before left) (
          join (parse_line e steps 0 right)
            (parse_line-Ends e steps 0 right
              (omega (arith, length-split_line 124 buf left right here)))
            right))
]
  where
    join :
        (rest : Parsed (Option Cmd))
        → Ends rest
        → (right : List ℕ) (l : Option Cmd) → Ends (join_right e right rest l)
    join rest h right none =
        >>=-Ends (parse_cmd_at e right) _ (parse_cmd_at-Ends e right) (λ r. ok-Ends _)
    join rest h right (some l) = >>=-Ends rest _ h (λ r. ok-Ends _)
