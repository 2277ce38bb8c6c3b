-- ===== src/Sched/Memory/UserCheck.antt =====
-- user_mem_check of sched/kern/pmap.c.
use Prim.Native.Nat.{bit_and, bit_or}
use sistemas_operativos_fiub.Common.{
  ℕ, zero, suc, ◌+◌, ◌-◌, ◌*◌, ◌/◌, ◌%◌, ◌^◌, ◌≤◌, ◌<◌, ◌≡◌, refl, ap, ◌∙◌, true, false, Option,
  none, some, ltb, ◌==◌, if◌then◌else◌, Bool-cases, ==_iff, inl, inr, if_split, arith,
}
use sistemas_operativos_fiub.Sched.Kernel.{add32, mod32}
use sistemas_operativos_fiub.Sched.Memory.Pages.{Memory, pgsize}
use sistemas_operativos_fiub.Sched.Memory.Tables.{Pte, load, pgdir_walk, pte_p}

abbrev pub utop : ℕ
utop = 0xeec00000

abbrev pub rounddown : ℕ → ℕ
rounddown a = a - a % pgsize

abbrev pub roundup : ℕ → ℕ
roundup a = rounddown ((a + (pgsize - 1)) % mod32)

-- 0, or -E_FAULT with what user_mem_check_addr is then; `panics` is KADDR's, and `out_of_steps` a
-- bound on the rounds that was too small.
pub data UserCheck : Type 0 where
  allowed : UserCheck
  fault : ℕ → UserCheck
  panics : UserCheck
  out_of_steps : UserCheck

unfoldable pub check_entry : ℕ → ℕ → ℕ → UserCheck → Option (Option Pte × Memory) → UserCheck
check_entry need va_lo va_act rest none = panics
check_entry need va_lo va_act rest (some (none, m)) =
    fault (if ltb va_lo va_act then va_act else va_lo)
check_entry need va_lo va_act rest (some (some pte, m)) =
    if bit_and (load m pte) need == need
    then rest
    else fault (if ltb va_lo va_act then va_act else va_lo)

-- The loop from va_act on, of `steps` rounds at most.
unfoldable pub check_pages : Memory → ℕ → ℕ → ℕ → ℕ → ℕ → ℕ → UserCheck
check_pages m pgdir need va_lo va_hi zero va_act = out_of_steps
check_pages m pgdir need va_lo va_hi (suc steps) va_act =
    let rest = check_pages m pgdir need va_lo va_hi steps (add32 va_act pgsize) in
    if ltb va_act va_hi
    then check_entry need va_lo va_act rest (pgdir_walk pgdir va_act false m)
    else allowed

unfoldable pub user_mem_check : Memory → ℕ → ℕ → ℕ → ℕ → UserCheck
user_mem_check m pgdir va len perm =
    let va_hi = roundup (add32 va len) in
    if ltb utop va_hi
    then fault va
    else check_pages m pgdir (bit_or perm pte_p) va va_hi (suc (va_hi / pgsize)) (rounddown va)

-- What a walk without create gave has the bits.
unfoldable pub Allows : ℕ → Option (Option Pte × Memory) → Type 0
Allows need none = ⊥
Allows need (some (none, m)) = ⊥
Allows need (some (some pte, m)) = bit_and (load m pte) need ≡ need

-- The page of the address a has the bits.
abbrev pub Permitted : Memory → ℕ → ℕ → ℕ → Type 0
Permitted m pgdir need a = Allows need (pgdir_walk pgdir (rounddown a) false m)

-- What an answer says of the addresses from `from` to `to`, when lo is the first that matters.
unfoldable pub Answers : Memory → ℕ → ℕ → ℕ → ℕ → ℕ → UserCheck → Type 0
Answers m pgdir need lo from to allowed = (a : ℕ) → from ≤ a → a < to → Permitted m pgdir need a
Answers m pgdir need lo from to (fault a) = (lo ≤ a) × (a < to) × (Permitted m pgdir need a → ⊥)
Answers m pgdir need lo from to panics = (a : ℕ) × (pgdir_walk pgdir a false m ≡ none)
Answers m pgdir need lo from to out_of_steps = ⊥

Permitted-page :
    (m : Memory) (pgdir need act a : ℕ) (w : Option (Option Pte × Memory))
    → pgdir_walk pgdir act false m ≡ w
    → rounddown a ≡ act
    → Permitted m pgdir need a ≡ Allows need w
Permitted-page m pgdir need act a w e r =
    ap (λ p. Allows need (pgdir_walk pgdir p false m)) r ∙ ap (Allows need) e

-- The page of `act` is allowed, and the rest is answered.
extend :
    (m : Memory) (pgdir need lo act to : ℕ) (rest : UserCheck) (w : Option (Option Pte × Memory))
    → pgdir_walk pgdir act false m ≡ w
    → act % 4096 ≡ 0
    → Allows need w
    → Answers m pgdir need lo (act + 4096) to rest
    → Answers m pgdir need lo act to rest
unfolding Answers
extend m pgdir need lo act to allowed w e al ok h = λ a from lt.
    elim (Bool-cases (ltb a (act + 4096))) [
      | inl here ↦
          let page : rounddown a ≡ act = ground arith in
          rw (Permitted-page m pgdir need act a w e page) ok
      | inr later ↦ h a (ground arith) lt
    ]
extend m pgdir need lo act to (fault a) w e al ok h = h
extend m pgdir need lo act to panics w e al ok h = h
extend m pgdir need lo act to out_of_steps w e al ok h = h

-- The page of `act` is not allowed.
denied :
    (m : Memory) (pgdir need lo act to : ℕ) (w : Option (Option Pte × Memory))
    → pgdir_walk pgdir act false m ≡ w
    → act % 4096 ≡ 0
    → act < to
    → to % 4096 ≡ 0
    → lo < act + 4096
    → (Allows need w → ⊥)
    → Answers m pgdir need lo act to (fault (if ltb lo act then act else lo))
unfolding Answers
denied m pgdir need lo act to w e al lt tal near no_bits =
    let address : ℕ = if ltb lo act then act else lo in
    let page : rounddown address ≡ act = ground arith in
    (ground arith, ground arith, rw (Permitted-page m pgdir need act address w e page) no_bits)

check_entry-Answers :
    (m : Memory) (pgdir need lo act to : ℕ) (rest : UserCheck) (w : Option (Option Pte × Memory))
    → pgdir_walk pgdir act false m ≡ w
    → act % 4096 ≡ 0
    → act < to
    → to % 4096 ≡ 0
    → lo < act + 4096
    → Answers m pgdir need lo (act + 4096) to rest
    → Answers m pgdir need lo act to (check_entry need lo act rest w)
unfolding check_entry Answers Allows
check_entry-Answers m pgdir need lo act to rest none e al lt tal near h = (act, e)
check_entry-Answers m pgdir need lo act to rest (some (none, m')) e al lt tal near h =
    denied m pgdir need lo act to (some (none, m')) e al lt tal near (λ x. x)
check_entry-Answers m pgdir need lo act to rest (some (some pte, m')) e al lt tal near h =
    if_split (Answers m pgdir need lo act to) (bit_and (load m' pte) need == need) _ _
      (λ bits.
        extend m pgdir need lo act to rest (some (some pte, m')) e al ((==_iff _ need).0 bits) h)
      (λ missing.
        denied m pgdir need lo act to (some (some pte, m')) e al lt tal near (λ x. ground arith))

check_pages-Answers :
    (m : Memory) (pgdir need lo to steps act : ℕ)
    → act % 4096 ≡ 0
    → to % 4096 ≡ 0
    → to ≤ utop
    → act ≤ to
    → lo < act + 4096
    → to < act + 4096 * steps
    → Answers m pgdir need lo act to (check_pages m pgdir need lo to steps act)
unfolding check_pages Answers
check_pages-Answers m pgdir need lo to zero act al tal low le near fuel = absurd (omega arith)
check_pages-Answers m pgdir need lo to (suc steps) act al tal low le near fuel =
    if_split (Answers m pgdir need lo act to) (ltb act to) _ _
      (λ more.
        let next : add32 act pgsize ≡ act + 4096 = ground arith in
        check_entry-Answers m pgdir need lo act to _ (pgdir_walk pgdir act false m) refl al
          (ground arith) tal near
          (rw next (
            check_pages-Answers m pgdir need lo to steps (act + 4096) (omega arith) tal low
              (ground arith) (omega arith) (omega arith))))
      (λ end_. λ a from lt. absurd (ground arith))

-- For a range that, rounded up to pages, does not pass 2^32, user_mem_check ends. When it ends above
-- UTOP, the answer is a fault at va. Else `allowed` means that every page from va's to the range's
-- last has the permissions and PTE_P, `fault a` that a is in one of those pages, not before va, and
-- its page does not have them, and `panics` that some directory entry names no page of the machine.
pub user_mem_check-Answers :
    (m : Memory) (pgdir va len perm : ℕ)
    → va + len + 4095 < 2 ^ 32
    → (utop < roundup (va + len) → user_mem_check m pgdir va len perm ≡ fault va)
      × (roundup (va + len) ≤ utop
          → Answers m pgdir
              (bit_or perm 1)
              va
              (rounddown va)
              (roundup (va + len))
              (user_mem_check m pgdir va len perm))
unfolding user_mem_check
user_mem_check-Answers m pgdir va len perm fits =
    let sum : add32 va len ≡ va + len = ground arith in
    (
      λ high.
          rw sum (let over : ltb utop (roundup (va + len)) ≡ true = ground arith in rw over refl),
      λ low.
          let under : ltb utop (roundup (va + len)) ≡ false = ground arith in
          rw (sum, under)
            (check_pages-Answers m pgdir (bit_or perm 1) va (roundup (va + len))
              (suc (roundup (va + len) / 4096)) (rounddown va) (omega arith) (omega arith) low
              (omega arith) (omega arith) (omega arith)),
    )

-- A range that ends at 2^32 is allowed without a look at any page, wherever it starts.
pub user_mem_check_wraps :
    (m : Memory) (pgdir va len perm : ℕ)
    → va + len ≡ 2 ^ 32
    → user_mem_check m pgdir va len perm ≡ allowed
unfolding user_mem_check check_pages
user_mem_check_wraps m pgdir va len perm e =
    let at_end : ltb (rounddown va) 0 ≡ false = ground arith in rw (e, at_end) refl
