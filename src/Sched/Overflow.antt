-- ===== src/Sched/Overflow.antt =====
-- Where the lines of the history fall (sched/kern/history.c).
use sistemas_operativos_fiub.Common.{
  ℕ, suc, ◌+◌, ◌-◌, ◌%◌, ◌≤◌, ◌≡◌, refl, ◌∙◌, true, List, [], ◌∷◌, length, ltb, if_both, if_split,
  arith,
}
use sistemas_operativos_fiub.Sched.Kernel.{Kernel, Linea, poner}
use sistemas_operativos_fiub.Sched.History.{
  agregar_linea, escribir_linea, history_len, update_history_ind,
}

-- Successive calls that add a line each.
abbrev pub agregar_todas : List Linea → Kernel → Kernel
agregar_todas [] k = k
agregar_todas (l ∷ ls) k = agregar_todas ls (agregar_linea l k)

escribir-ind : (l : Linea) (k : Kernel) → (escribir_linea l k).history_ind ≡ k.history_ind
unfolding escribir_linea
escribir-ind l k =
    if_both (λ (k' : Kernel). k'.history_ind ≡ k.history_ind) (ltb k.history_ind history_len)
      (record k { history = poner k.history k.history_ind l })
      (record k { history_desborda = true }) refl refl

agregar-ind :
    (l : Linea) (k : Kernel) → (agregar_linea l k).history_ind ≡ update_history_ind k.history_ind
unfolding agregar_linea
agregar-ind l k = escribir-ind l (record k { history_ind = update_history_ind k.history_ind })

siguiente_ind : (n : ℕ) → n ≤ history_len → update_history_ind n ≡ (n + 1) % suc history_len
unfolding update_history_ind
siguiente_ind n h = ground arith

-- From an index that is at most HISTORY_LEN, the index after any number n of lines is the first
-- one plus n, modulo HISTORY_LEN + 1: one of every HISTORY_LEN + 1 lines in a row is written at
-- index HISTORY_LEN, past the end of `history`.
pub history_ind_after :
    (ls : List Linea) (k : Kernel)
    → k.history_ind ≤ history_len
    → (agregar_todas ls k).history_ind ≡ (k.history_ind + length ls) % suc history_len
history_ind_after [] k h = omega arith
history_ind_after (l ∷ ls) k h =
    let paso : (agregar_linea l k).history_ind ≡ (k.history_ind + 1) % suc history_len =
      agregar-ind l k ∙ siguiente_ind k.history_ind h in
    let resto = history_ind_after ls (agregar_linea l k) (omega arith) in omega arith

desborda_en :
    (l : Linea) (k : Kernel)
    → k.history_ind ≡ history_len
    → (escribir_linea l k).history_desborda ≡ true
unfolding escribir_linea
desborda_en l k h =
    if_split (λ (k' : Kernel). k'.history_desborda ≡ true) (ltb k.history_ind history_len)
      (record k { history = poner k.history k.history_ind l })
      (record k { history_desborda = true }) (λ si. absurd (nada k.history_ind h si))
      (λ falta. refl)
  where
    nada : (i : ℕ) → i ≡ history_len → ltb i history_len ≡ true → ⊥
    nada i eq h = ground arith

-- Adding a line when the index is HISTORY_LEN - 1 moves the index to HISTORY_LEN and writes the
-- line past the end of `history`.
pub agregar-desborda :
    (l : Linea) (k : Kernel)
    → k.history_ind ≡ history_len - 1
    → ((agregar_linea l k).history_ind ≡ history_len)
      × ((agregar_linea l k).history_desborda ≡ true)
unfolding agregar_linea
agregar-desborda l k h =
    let ind : update_history_ind k.history_ind ≡ history_len =
      siguiente_ind k.history_ind (omega arith) ∙ (omega arith) in
    (
      escribir-ind l (record k { history_ind = update_history_ind k.history_ind }) ∙ ind,
      desborda_en l (record k { history_ind = update_history_ind k.history_ind }) ind,
    )
