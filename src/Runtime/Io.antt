-- ===== src/Runtime/Io.antt =====
-- Computations of the C program: a state that is passed on, `exit`, and undefined behaviour; and
-- the library calls on files and memory that the program makes.
use arm_reimplementation.Base.{
  ℕ, ◌≡◌, ◌+◌, ◌-◌, ◌*◌, ◌/◌, ◌^◌, ltb, Bool, true, false, String, Option, none, some, List, [],
  ◌∷◌, ◌++◌, ◌==◌, take, drop, length, if◌then◌else◌, replicate,
}
use arm_reimplementation.Runtime.Bytes.{write_at}

-- `exits n` is a call of `exit(n)`; `fault` is undefined behaviour, such as an access through a
-- null pointer or outside of a buffer.
pub data Outcome {ℓ κ} (S : Type ℓ) (A : Type κ) : Type (ℓ ⊔ κ) where
  ok : A → S → Outcome S A
  exits : ℕ → S → Outcome S A
  fault : Outcome S A

abbrev pub Run : Type 0 → Type 0 → Type 0
Run S A = S → Outcome S A

infixl 5 ◌>>=◌ ◌>>◌
abbrev pub ◌>>=◌ : {S A B : Type 0} → Run S A → (A → Run S B) → Run S B
◌>>=◌ m f s = elim (m s) [ ok a s' ↦ f a s' | exits n s' ↦ exits n s' | fault ↦ fault ]

abbrev pub ◌>>◌ : {S A B : Type 0} → Run S A → Run S B → Run S B
m >> k = m >>= λ _. k

abbrev pub pure : {S A : Type 0} → A → Run S A
pure a s = ok a s

abbrev pub skip : {S : Type 0} → Run S (Unit {0})
skip s = ok tt s

abbrev pub exit : {S A : Type 0} → ℕ → Run S A
exit n s = exits n s

abbrev pub undefined : {S A : Type 0} → Run S A
undefined s = fault

-- What a pointer that may be null, or an access that may be out of bounds, yields.
abbrev pub deref : {S A : Type 0} → Option A → Run S A
deref none = undefined
deref (some a) = pure a

-- What the machine and its system decide: the byte order, which allocations succeed, whether the
-- files can be sought in, how many bytes an output file can take, and which files there are.
pub record Host : Type 0 where
  pub big_endian : Bool
  pub can_alloc : ℕ → Bool
  pub seekable : Bool
  pub disk : ℕ
  pub file_at : List ℕ → Option (List ℕ)
  pub creatable : List ℕ → Bool

-- A line on the error stream: a text, or `perror`, which adds the system's reason.
pub data Message : Type 0 where
  text : List ℕ → Message
  perror : String → Message

-- The input file with the position of its stream, the output file with its own, and what was
-- printed on the two standard streams.
pub record World : Type 0 where
  pub input : List ℕ
  pub pos : ℕ
  pub written : List ℕ
  pub wpos : ℕ
  pub out : List ℕ
  pub err : List Message

abbrev pub M : Type 0 → Type 0
M A = Run World A

unfoldable pub print : List ℕ → M (Unit {0})
print s w = ok tt (record w { out = w.out ++ s })

unfoldable pub complain : Message → M (Unit {0})
complain m w = ok tt (record w { err = w.err ++ (m ∷ []) })

module _ (host : Host) where
  -- `fopen(name, "rb")`: whether there is such a file. The stream starts at its first byte.
  unfoldable pub fopen_read : List ℕ → M Bool
  fopen_read name w = elim (host.file_at name) [
    | none ↦ ok false w
    | some content ↦ ok true (record w { input = content; pos = 0 })
  ]

  -- `fopen(name, "wb")`: the file is empty afterwards.
  unfoldable pub fopen_write : List ℕ → M Bool
  fopen_write name w =
      if host.creatable name then ok true (record w { written = []; wpos = 0 }) else ok false w

  -- `malloc(n)`: whether the pointer is not null.
  unfoldable pub malloc : ℕ → M Bool
  malloc n w = ok (host.can_alloc n) w

  -- `fseek(file, offset, SEEK_SET)`: whether it succeeded.
  unfoldable pub fseek : ℕ → M Bool
  fseek offset w = if host.seekable then ok true (record w { pos = offset }) else ok false w

  -- `fwrite` of bytes: how many of them the output file took. A gap behind its end reads as 0.
  unfoldable pub fwrite : List ℕ → M ℕ
  fwrite bytes w =
      let sent = take (host.disk - w.wpos) bytes in
      let padded = w.written ++ replicate (w.wpos + length sent - length w.written) 0 in
      ok (length sent)
        (record w { written = write_at padded w.wpos sent; wpos = w.wpos + length sent })

  -- `fseek(output_file, offset, SEEK_SET)`: whether it succeeded.
  unfoldable pub fseek_out : ℕ → M Bool
  fseek_out offset w = if host.seekable then ok true (record w { wpos = offset }) else ok false w

  unfoldable pub fseek_out_end : M Bool
  fseek_out_end w =
      if host.seekable then ok true (record w { wpos = length w.written }) else ok false w

-- `fread` of `n` bytes: those that there are.
unfoldable pub fread : ℕ → M (List ℕ)
fread n w = let got = take n (drop w.pos w.input) in ok got (record w { pos = w.pos + length got })

-- The count that `fread` and `fwrite` return: whole items of `size` bytes.
unfoldable pub items : ℕ → ℕ → ℕ
items size bytes = if size == 0 then 0 else bytes / size

-- A product of two `int`s, which is undefined where it leaves `int`.
unfoldable pub mul_int : {S : Type 0} → ℕ → ℕ → Run S ℕ
mul_int a b = if ltb (a * b) (2 ^ 31) then pure (a * b) else undefined

-- A step that succeeds hands its result and its state on.
pub bind_ok :
    {S A B : Type 0} (m : Run S A) (f : A → Run S B) {s s' : S} {a : A}
    → m s ≡ ok a s'
    → (m >>= f) s ≡ f a s'
bind_ok m f e = λ i. elim (e i) [ ok a s' ↦ f a s' | exits n s' ↦ exits n s' | fault ↦ fault ]

-- A step that is undefined leaves the rest so.
pub bind_fault :
    {S A B : Type 0} (m : Run S A) (f : A → Run S B) {s : S} → m s ≡ fault → (m >>= f) s ≡ fault
bind_fault m f e = λ i. elim (e i) [ ok a s' ↦ f a s' | exits n s' ↦ exits n s' | fault ↦ fault ]

pub bind_exits :
    {S A B : Type 0} (m : Run S A) (f : A → Run S B) {s s' : S} {n : ℕ}
    → m s ≡ exits n s'
    → (m >>= f) s ≡ exits n s'
bind_exits m f e = λ i. elim (e i) [ ok a s' ↦ f a s' | exits n s' ↦ exits n s' | fault ↦ fault ]
