-- ===== src/Shell/Words.antt =====
-- parse_exec on plain words, and the substitution of a variable's value.
use mathlib.Core.List.{append-nil, append_assoc}
use sistemas_operativos_fiub.Common.{
  ℕ, zero, suc, ◌+◌, ◌≤◌, ◌<◌, ◌≡◌, ◌≢◌, refl, sym, ap, ◌∙◌, true, false, none, some, List, [], ◌∷◌,
  ◌++◌, ltb, leb, ◌==◌, if_both, has_char, Texto, length, length-append, drop, get_or, arith,
}
use sistemas_operativos_fiub.Shell.Buffer.{block_contains, after_token, get_token}
use sistemas_operativos_fiub.Shell.Parser.{
  Environ, ExecCmd, Parsed, ok, breaks, copy_value, end_argv, exec_cmd_create, expand_environ_var,
  expand_value, is_environ_var, parse_exec, parse_redir_flow, parse_token, parse_tokens, push_arg,
}

-- A word that parse_exec takes as it is: not empty, without space, '>', '<' or '=', and not
-- starting with '$'.
unfoldable pub IsWord : Texto → Type 0
IsWord w =
    (length w ≢ 0)
    × (has_char w 32 ≡ false)
    × (has_char w 62 ≡ false)
    × (has_char w 60 ≡ false)
    × (has_char w 61 ≡ false)
    × ((get_or w 0 0 == 36) ≡ false)

unfoldable pub AllWords : List Texto → Type 0
AllWords [] = Unit
AllWords (w ∷ ws) = IsWord w × AllWords ws

-- The words with a space between one and the next.
unfoldable pub unwords : List Texto → Texto
unwords [] = []
unwords (w ∷ []) = w
unwords (w ∷ x ∷ ws) = w ++ 32 ∷ unwords (x ∷ ws)

pub block_contains-eq-none : (t : Texto) (c : ℕ) → has_char t c ≡ false → block_contains t c ≡ none
unfolding block_contains has_char
block_contains-eq-none [] c h = refl
block_contains-eq-none (b ∷ t) c h = ground (arith, block_contains-eq-none t c)

get_token_word : (w : Texto) → has_char w 32 ≡ false → get_token w ≡ w
unfolding get_token has_char
get_token_word [] h = refl
get_token_word (b ∷ w) h = ground (arith, get_token_word w)

after_token_word : (w : Texto) → has_char w 32 ≡ false → after_token w ≡ []
unfolding after_token has_char
after_token_word [] h = refl
after_token_word (b ∷ w) h = ground (arith, after_token_word w)

get_token-append : (w r : Texto) → has_char w 32 ≡ false → get_token (w ++ 32 ∷ r) ≡ w
unfolding get_token has_char
get_token-append [] r h = refl
get_token-append (b ∷ w) r h = ground (arith, get_token-append w r)

after_token-append : (w r : Texto) → has_char w 32 ≡ false → after_token (w ++ 32 ∷ r) ≡ r
unfolding after_token has_char
after_token-append [] r h = refl
after_token-append (b ∷ w) r h = ground (arith, after_token-append w r)

parse_token_word :
    (e : Environ) (c : ExecCmd) (w : Texto)
    → IsWord w
    → length c.argv < 20
    → parse_token e c w ≡ ok (record c { argv = c.argv ++ w ∷ [] })
unfolding parse_token parse_redir_flow is_environ_var expand_environ_var push_arg IsWord
parse_token_word e c [] p room = absurd (p.0 refl)
parse_token_word e c (b ∷ w) p room =
    let fits : ltb (length c.argv) 20 ≡ true = ground arith in
    let dollar : (b == 36) ≡ false = p.5 in
    rw
      (
        parse_token,
        parse_redir_flow,
        block_contains-eq-none (b ∷ w) 62 p.2,
        block_contains-eq-none (b ∷ w) 60 p.3,
        is_environ_var,
        block_contains-eq-none (b ∷ w) 61 p.4,
        expand_environ_var,
        dollar,
        push_arg,
        fits,
      )
      refl

-- One word taken off the string.
next_word :
    (e : Environ) (f : ℕ) (c : ExecCmd) (w buf rest : Texto) (r : Parsed ExecCmd)
    → IsWord w
    → length c.argv < 20
    → length buf ≢ 0
    → get_token buf ≡ w
    → after_token buf ≡ rest
    → parse_tokens e f (record c { argv = c.argv ++ w ∷ [] }) rest ≡ r
    → parse_tokens e (suc f) c buf ≡ r
unfolding parse_tokens
next_word e f c w [] rest r p room full tok after next = absurd (full refl)
next_word e f c w (b ∷ buf) rest r p room full tok after next =
    rw (parse_tokens, tok, parse_token_word e c w p room, after) next

unwords_full : (b : ℕ) (t r : Texto) → length ((b ∷ t) ++ r) ≢ 0
unwords_full b t r h = omega (arith, h)

parse_tokens-unwords :
    (e : Environ) (steps : ℕ) (c : ExecCmd) (ws : List Texto)
    → AllWords ws
    → length c.argv + length ws ≤ 20
    → length ws < steps
    → parse_tokens e steps c (unwords ws) ≡ ok (record c { argv = c.argv ++ ws })
unfolding AllWords unwords parse_tokens IsWord
parse_tokens-unwords e zero c ws p room h = absurd (omega arith)
parse_tokens-unwords e (suc f) c [] p room h =
    ap (λ ts. ok (record c { argv = ts })) (sym (append-nil c.argv))
parse_tokens-unwords e (suc zero) c (w ∷ ws) p room h = absurd (omega arith)
parse_tokens-unwords e (suc (suc f)) c (w ∷ []) p room h =
    next_word e (suc f) c w w [] _ p.0 (omega arith) p.0.0 (get_token_word w p.0.1)
      (after_token_word w p.0.1) refl
parse_tokens-unwords e (suc (suc f)) c (w ∷ x ∷ ws) p room h =
    next_word e (suc f) c w (w ++ 32 ∷ unwords (x ∷ ws)) (unwords (x ∷ ws)) _ p.0 (omega arith)
      (λ z. p.0.0 (omega (arith, z, length-append w (32 ∷ unwords (x ∷ ws)))))
      (get_token-append w _ p.0.1) (after_token-append w _ p.0.1)
      (parse_tokens-unwords e (suc f) (record c { argv = c.argv ++ w ∷ [] }) (x ∷ ws) p.1
          (omega (arith, length-append c.argv (w ∷ []))) (omega arith)
        ∙ ap (λ ts. ok (record c { argv = ts })) (append_assoc c.argv (w ∷ []) (x ∷ ws)))

length-unwords : (ws : List Texto) → AllWords ws → length ws ≤ length (unwords ws)
unfolding AllWords unwords IsWord
length-unwords [] p = omega arith
length-unwords (w ∷ []) p = let full = p.0.0 in omega (arith, full)
length-unwords (w ∷ x ∷ ws) p =
    omega (arith, length-append w (32 ∷ unwords (x ∷ ws)), length-unwords (x ∷ ws) p.1)

-- Fewer than MAXARGS words, none empty, with a space, '>', '<' or '=', or starting with '$', one
-- space between each and the next: parse_exec gives the command with these arguments in order and
-- nothing else.
pub parse_exec-unwords :
    (e : Environ) (ws : List Texto)
    → AllWords ws
    → length ws < 20
    → parse_exec e (unwords ws) ≡ ok (record (exec_cmd_create (unwords ws)) { argv = ws })
unfolding parse_exec end_argv
parse_exec-unwords e ws p room =
    let fits : ltb (length ws) 20 ≡ true = ground arith in
    rw
      (
        parse_exec,
        parse_tokens-unwords e (suc (length (unwords ws))) (exec_cmd_create (unwords ws)) ws p
            (omega arith) (omega (arith, length-unwords ws p)),
        end_argv,
        fits,
      )
      refl

drop_past : (n : ℕ) (t : Texto) → length t ≤ n → drop n t ≡ []
drop_past zero [] h = refl
drop_past zero (b ∷ t) h = absurd (omega (arith, h))
drop_past (suc n) [] h = refl
drop_past (suc n) (b ∷ t) h = drop_past n t (omega (arith, h))

copy_value_long :
    (arg v : Texto) → length arg ≤ length v → leb 1024 (length v) ≡ false → copy_value arg v ≡ ok v
unfolding copy_value
copy_value_long arg v long below =
    let whole : ltb (length v) (length arg) ≡ false = ground arith in
    if_both (λ m. m ≡ ok v) (ltb 8 (length v)) _ _ (rw (whole, below) refl)
      (rw (drop_past (length v) arg long) (ap ok (append-nil v)))

-- For a token of '$' and a name, not of '?', whose variable has a value that is not empty and below
-- ARGSIZE bytes, expand_environ_var gives the value when it is at least as long as the token; when
-- it is shorter, it gives the value and after it the rest of the token for at most sizeof(arg)
-- bytes, and reads bytes that were never set or past the array for more.
pub expand_environ_var-copy_value :
    (e : Environ) (name : Texto) (b : ℕ) (bs : Texto)
    → (get_or name 0 0 == 63) ≡ false
    → e.getenv name ≡ some (b ∷ bs)
    → length (b ∷ bs) < 1024
    → (length (36 ∷ name) ≤ length (b ∷ bs) → expand_environ_var e (36 ∷ name) ≡ ok (b ∷ bs))
      × (length (b ∷ bs) < length (36 ∷ name)
          → length (b ∷ bs) ≤ 8
          → expand_environ_var e (36 ∷ name) ≡ ok ((b ∷ bs) ++ drop (length (b ∷ bs)) (36 ∷ name)))
      × (length (b ∷ bs) < length (36 ∷ name)
          → 8 < length (b ∷ bs)
          → expand_environ_var e (36 ∷ name) ≡ breaks)
unfolding expand_environ_var expand_value copy_value
expand_environ_var-copy_value e name b bs q v small =
    let value : expand_environ_var e (36 ∷ name) ≡ copy_value (36 ∷ name) (b ∷ bs) =
      rw (expand_environ_var, q, v) refl in
    let below : leb 1024 (length (b ∷ bs)) ≡ false = ground arith in
    (
      λ long. value ∙ copy_value_long (36 ∷ name) (b ∷ bs) long below,
      λ short small'.
          let few : ltb 8 (length (b ∷ bs)) ≡ false = ground arith in
          value ∙ rw (copy_value, few) refl,
      λ short big.
          let many : ltb 8 (length (b ∷ bs)) ≡ true = ground arith in
          let cut : ltb (length (b ∷ bs)) (length (36 ∷ name)) ≡ true = ground arith in
          value ∙ rw (copy_value, many, cut) refl,
    )
