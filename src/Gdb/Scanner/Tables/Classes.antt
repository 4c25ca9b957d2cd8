-- ===== src/Gdb/Scanner/Tables/Classes.antt =====
-- The classes of bytes, and the steps between states by class.
use arm_reimplementation.Base.{
  ℕ, zero, suc, ◌<◌, ◌≡◌, refl, ap, ◌∙◌, Bool, true, ◌==◌, ◌&&◌, if◌then◌else◌, arith, ==_iff,
}
use arm_reimplementation.Runtime.Bytes.{IsByte}
use arm_reimplementation.Gdb.Scanner.{is_hex}
use arm_reimplementation.Gdb.Scanner.Tables.{
  yy_class, yy_ec, yy_step, yy_next, yy_chk, yy_base, yy_def, yy_meta, yy_nxt,
}

-- The class by what the rules tell apart.
unfoldable pub class_of : ℕ → ℕ
unfolding is_hex
class_of c =
    if c == 10
    then 2
    else if c == b'#'
    then 3
    else if c == b'$'
    then 4
    else if c == b'+'
    then 5
    else if c == b'-'
    then 6
    else if is_hex c
    then 7
    else 1

-- A test of all numbers below a bound.
all_below : ℕ → (ℕ → Bool) → Bool
all_below zero test = true
all_below (suc n) test = test n && all_below n test

all_below-lt : (n : ℕ) (test : ℕ → Bool) (k : ℕ) → all_below n test ≡ true → k < n → test k ≡ true
unfolding all_below
all_below-lt zero test k h inside = absurd (omega arith)
all_below-lt (suc n) test k h inside = let ih = all_below-lt n test k in ground arith

table_agrees : all_below 256 (λ c. yy_class c == class_of c) ≡ true
unfolding all_below yy_class yy_ec class_of is_hex
table_agrees = refl

pub yy_class_lem : (c : ℕ) → IsByte c → yy_class c ≡ class_of c
yy_class_lem c h =
    (==_iff (yy_class c) (class_of c)).0
      (all_below-lt 256 (λ c. yy_class c == class_of c) c table_agrees h)

-- What a function makes of a class, test by test.
by_class :
    (f : ℕ → ℕ) (c : ℕ)
    → f (class_of c) ≡ (
        if c == 10
        then f 2
        else if c == b'#'
        then f 3
        else if c == b'$'
        then f 4
        else if c == b'+'
        then f 5
        else if c == b'-'
        then f 6
        else if is_hex c
        then f 7
        else f 1)
unfolding class_of
by_class f c = ground arith

next_by_class : (state c : ℕ) → IsByte c → yy_next state c ≡ yy_step 3 state (class_of c)
unfolding yy_next
next_by_class state c h = ap (yy_step 3 state) (yy_class_lem c h)

row_1 :
    (c : ℕ)
    → yy_step 3 1 (class_of c) ≡ (
        if c == 10
        then 5
        else if c == b'#'
        then 4
        else if c == b'$'
        then 6
        else if c == b'+'
        then 7
        else if c == b'-'
        then 8
        else if is_hex c
        then 4
        else 4)
unfolding yy_step yy_chk yy_base yy_def yy_meta yy_nxt
row_1 c = by_class (yy_step 3 1) c

pub yy_next-1 :
    (c : ℕ)
    → IsByte c
    → yy_next 1 c ≡ (
        if c == 10
        then 5
        else if c == b'$'
        then 6
        else if c == b'+'
        then 7
        else if c == b'-'
        then 8
        else 4)
unfolding is_hex
yy_next-1 c h = next_by_class 1 c h ∙ row_1 c ∙ ground arith

row_6 :
    (c : ℕ)
    → yy_step 3 6 (class_of c) ≡ (
        if c == 10
        then 9
        else if c == b'#'
        then 10
        else if c == b'$'
        then 13
        else if c == b'+'
        then 9
        else if c == b'-'
        then 9
        else if is_hex c
        then 9
        else 9)
unfolding yy_step yy_chk yy_base yy_def yy_meta yy_nxt
row_6 c = by_class (yy_step 3 6) c

pub yy_next-6 :
    (c : ℕ) → IsByte c → yy_next 6 c ≡ (if c == b'#' then 10 else if c == b'$' then 13 else 9)
unfolding is_hex
yy_next-6 c h = next_by_class 6 c h ∙ row_6 c ∙ ground arith

row_9 :
    (c : ℕ)
    → yy_step 3 9 (class_of c) ≡ (
        if c == 10
        then 9
        else if c == b'#'
        then 10
        else if c == b'$'
        then 13
        else if c == b'+'
        then 9
        else if c == b'-'
        then 9
        else if is_hex c
        then 9
        else 9)
unfolding yy_step yy_chk yy_base yy_def yy_meta yy_nxt
row_9 c = by_class (yy_step 3 9) c

pub yy_next-9 :
    (c : ℕ) → IsByte c → yy_next 9 c ≡ (if c == b'#' then 10 else if c == b'$' then 13 else 9)
unfolding is_hex
yy_next-9 c h = next_by_class 9 c h ∙ row_9 c ∙ ground arith

row_10 :
    (c : ℕ)
    → yy_step 3 10 (class_of c) ≡ (
        if c == 10
        then 13
        else if c == b'#'
        then 13
        else if c == b'$'
        then 13
        else if c == b'+'
        then 13
        else if c == b'-'
        then 13
        else if is_hex c
        then 11
        else 13)
unfolding yy_step yy_chk yy_base yy_def yy_meta yy_nxt
row_10 c = by_class (yy_step 3 10) c

pub yy_next-10 : (c : ℕ) → IsByte c → yy_next 10 c ≡ (if is_hex c then 11 else 13)
unfolding is_hex
yy_next-10 c h = next_by_class 10 c h ∙ row_10 c ∙ ground arith

row_11 :
    (c : ℕ)
    → yy_step 3 11 (class_of c) ≡ (
        if c == 10
        then 13
        else if c == b'#'
        then 13
        else if c == b'$'
        then 13
        else if c == b'+'
        then 13
        else if c == b'-'
        then 13
        else if is_hex c
        then 12
        else 13)
unfolding yy_step yy_chk yy_base yy_def yy_meta yy_nxt
row_11 c = by_class (yy_step 3 11) c

pub yy_next-11 : (c : ℕ) → IsByte c → yy_next 11 c ≡ (if is_hex c then 12 else 13)
unfolding is_hex
yy_next-11 c h = next_by_class 11 c h ∙ row_11 c ∙ ground arith
