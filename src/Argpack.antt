-- ===== src/Argpack.antt =====
-- internal/argpack/argpack.go: storage for kernel arguments. Memory is bytes by address: each inline
-- slot is a small memory of its own, and the arena (`spillBuf` up to its capacity) is one memory,
-- with a generation that counts how often its backing array has been replaced.
pub mod Layout
pub mod Invariant
pub mod Values
pub mod Params
pub mod Writes
pub mod Updates
pub mod Packing
pub mod Entries
pub mod Model
pub mod Refinement
mod Tests
use gocudrv.Base.{
  ℕ, zero, suc, ◌+◌, ◌-◌, ◌*◌, ◌%◌, Bool, true, false, ◌&&◌, ◌||◌, not, Option, none, some, List,
  [], ◌∷◌, ◌++◌, ltb, leb, ◌==◌, if◌then◌else◌, length, get_or, Bytes, Mem, update, load, store, ℤ,
  pos, negsuc, ltb_ℤ, to_uint,
}

abbrev pub inline_args : ℕ
inline_args = 16

abbrev pub spill_align : ℕ
spill_align = 8

abbrev pub min_arena_cap : ℕ
min_arena_cap = 64

abbrev pub max_retained_spill_bytes : ℕ
max_retained_spill_bytes = 8192

-- The sentinels of the package.
pub data PackError : Type 0 where
  index_out_of_range type_mismatch size_mismatch : PackError

-- `argMeta`. A `reflect.Type` is a number, and `none` is its nil.
pub record ArgMeta : Type 0 where
  pub offset : ℤ
  pub size : ℕ
  pub typ : Option ℕ

-- An `unsafe.Pointer` that the builder hands out: to an inline slot, or to an offset in the arena of
-- one generation.
pub data Pointer : Type 0 where
  nil_pointer : Pointer
  slot : ℕ → Pointer
  spill : ℕ → ℕ → Pointer

pub record Builder : Type 0 where
  pub inline_values : ℕ → Mem
  pub inline_pointers : ℕ → Pointer
  pub inline_meta : ℕ → ArgMeta
  pub overflow_meta : List ArgMeta
  pub count : ℕ
  pub arena : Mem
  pub generation : ℕ
  pub spill_len : ℕ
  pub spill_cap : ℕ
  pub spill_pointers : List Pointer
  pub has_spill : Bool
  pub dirty : Bool

abbrev pub zero_memory : Mem
zero_memory _ = 0

abbrev pub no_meta : ArgMeta
no_meta = record { offset = pos 0; size = 0; typ = none }

-- The zero `Builder`.
abbrev pub empty : Builder
empty = record {
  inline_values = λ _. zero_memory;
  inline_pointers = λ _. nil_pointer;
  inline_meta = λ _. no_meta;
  overflow_meta = [];
  count = 0;
  arena = zero_memory;
  generation = 0;
  spill_len = 0;
  spill_cap = 0;
  spill_pointers = [];
  has_spill = false;
  dirty = false;
}

-- The conversions `uint16(n)` and `int32(n)`.
abbrev pub uint16 : ℕ → ℕ
uint16 n = n % 65536

abbrev pub int32 : ℕ → ℤ
int32 n =
    if ltb (n % 4294967296) 2147483648
    then pos (n % 4294967296)
    else negsuc (4294967296 - n % 4294967296 - 1)

-- `(n + spillAlign - 1) &^ (spillAlign - 1)`: for a power of two the mask clears the remainder.
unfoldable pub align_up : ℕ → ℕ
align_up n = (n + spill_align - 1) - (n + spill_align - 1) % spill_align

abbrev pub max : ℕ → ℕ → ℕ
max a b = if ltb a b then b else a

-- The capacity of a new arena.
abbrev pub grown_cap : ℕ → ℕ → ℕ
grown_cap cap need = max (max (2 * cap) need) min_arena_cap

-- `arenaAlloc`: the offset, and the builder with the arena long enough. A replaced arena keeps the
-- bytes below the old length and is zero above it.
unfoldable pub arena_alloc : Builder → ℕ → ℕ × Builder
unfolding align_up
arena_alloc b size =
    let off = align_up b.spill_len in
    let need = off + size in
    (
      off,
      if ltb b.spill_cap need
          then record b {
            arena = λ p. if ltb p b.spill_len then b.arena p else 0;
            generation = suc b.generation;
            spill_len = need;
            spill_cap = grown_cap b.spill_cap need;
          }
          else record b { spill_len = need },
    )

-- `setMeta`
abbrev pub set_meta : Builder → ℕ → ArgMeta → Builder
set_meta b i m =
    if ltb i inline_args
    then record b { inline_meta = update b.inline_meta i m }
    else record b { overflow_meta = b.overflow_meta ++ m ∷ [] }

-- `meta`. An index past `overflowMeta` would panic; `no_meta` stands for that.
unfoldable pub meta : Builder → ℕ → ArgMeta
meta b i =
    if ltb i inline_args then b.inline_meta i else get_or b.overflow_meta (i - inline_args) no_meta

-- The branch of `add` for a small argument while an inline slot is left.
unfoldable pub add_inline : Builder → Bytes → Option ℕ → Builder
add_inline b bytes typ = record (set_meta filled b.count m) {
  count = suc b.count;
  dirty = b.has_spill;
}
  where
    filled : Builder
    filled = record b {
      inline_values = update b.inline_values b.count (store zero_memory 0 bytes);
      inline_pointers = update b.inline_pointers b.count (slot b.count);
    }

    m : ArgMeta
    m = record { offset = negsuc 0; size = uint16 (length bytes); typ = typ }

-- The branch of `add` that puts the argument into the arena.
unfoldable pub add_spill : Builder → Bytes → Option ℕ → Builder
unfolding arena_alloc
add_spill b bytes typ = record (set_meta filled b.count m) {
  count = suc b.count;
  has_spill = true;
  dirty = true;
}
  where
    grown : Builder
    grown = (arena_alloc b (length bytes)).1

    off : ℕ
    off = (arena_alloc b (length bytes)).0

    filled : Builder
    filled = record grown { arena = store grown.arena off bytes }

    m : ArgMeta
    m = record { offset = int32 off; size = uint16 (length bytes); typ = typ }

-- `add`
unfoldable pub add : Builder → Bytes → Option ℕ → Builder
unfolding add_inline add_spill
add b bytes typ =
    if ltb b.count inline_args && leb (length bytes) 8
    then add_inline b bytes typ
    else add_spill b bytes typ

-- `write`: in the argument's own slot, or in the arena.
unfoldable pub write : Builder → ArgMeta → ℕ → Bytes → Builder
write b m i bytes =
    if ltb_ℤ m.offset (pos 0)
    then record b { inline_values = update b.inline_values i (store (b.inline_values i) 0 bytes) }
    else record b { arena = store b.arena (to_uint m.offset) bytes }

abbrev pub same_type : Option ℕ → ℕ → Bool
same_type none t = false
same_type (some u) t = u == t

-- A check that fails leaves the builder as it was: `none` is the nil error.
-- `Set` of a value of type `t`, given by its bytes.
unfoldable pub set : Builder → ℤ → ℕ → Bytes → Option PackError × Builder
set b i t bytes =
    if ltb_ℤ i (pos 0) || not (ltb_ℤ i (pos b.count))
    then (some index_out_of_range, b)
    else if not (same_type (meta b (to_uint i)).typ t)
    then (some type_mismatch, b)
    else (none, write b (meta b (to_uint i)) (to_uint i) bytes)

-- `SetBytes`
unfoldable pub set_bytes : Builder → ℤ → Bytes → Option PackError × Builder
set_bytes b i bytes =
    if ltb_ℤ i (pos 0) || not (ltb_ℤ i (pos b.count))
    then (some index_out_of_range, b)
    else if not (length bytes == (meta b (to_uint i)).size)
    then (some size_mismatch, b)
    else (none, write b (meta b (to_uint i)) (to_uint i) bytes)

-- The pointer of argument `i` that the loop of `Params` appends.
abbrev pub arg_pointer : Builder → ℕ → Pointer
arg_pointer b i =
    if ltb_ℤ (meta b i).offset (pos 0)
    then b.inline_pointers i
    else spill b.generation (to_uint (meta b i).offset)

-- The first `n` values of `f`.
unfoldable pub tabulate {ℓ} : {A : Type ℓ} → (ℕ → A) → ℕ → List A
tabulate f zero = []
tabulate f (suc n) = tabulate f n ++ f n ∷ []

-- The check of the index in `&b.spillBuf[m.offset]`: an argument of size zero at the end of the arena fails it.
abbrev pub in_arena : Builder → ℕ → Bool
in_arena b i = ltb_ℤ (meta b i).offset (pos 0) || ltb (to_uint (meta b i).offset) b.spill_len

-- The loop of `Params` over the first `n` arguments: whether it panics, and the pointers so far.
unfoldable pub append_pointers : Builder → ℕ → Bool × List Pointer
append_pointers b zero = (false, [])
append_pointers b (suc n) =
    let (stopped, ps) = append_pointers b n in
    if stopped
    then (true, ps)
    else if in_arena b n
    then (false, ps ++ arg_pointer b n ∷ [])
    else (true, ps)

-- What `Params` does: it returns the array that its pointer leads to, one entry for each argument (`none` is
-- nil), or it panics.
pub data Outcome : Type 0 where
  returned : Option (List Pointer) → Outcome
  index_panic : Outcome

abbrev pub after_loop : Builder → Bool × List Pointer → Outcome × Builder
after_loop b (false, ps) = (returned (some ps), record b { spill_pointers = ps; dirty = false })
after_loop b (true, ps) = (index_panic, record b { spill_pointers = ps })

-- `Params`
unfoldable pub params : Builder → Outcome × Builder
unfolding append_pointers
params b =
    if b.count == 0
    then (returned none, b)
    else if not b.has_spill
    then (returned (some (tabulate b.inline_pointers b.count)), b)
    else if b.dirty
    then after_loop b (append_pointers b b.count)
    else (returned (some b.spill_pointers), b)

-- `Reset`
unfoldable pub reset : Builder → Builder
reset b =
    let cleared = record b {
      count = 0;
      has_spill = false;
      dirty = false;
      spill_len = 0;
      spill_pointers = [];
      overflow_meta = [];
    } in
    if ltb max_retained_spill_bytes b.spill_cap
    then record cleared { arena = zero_memory; generation = suc b.generation; spill_cap = 0 }
    else cleared

-- What a reader finds at a pointer; `none` where the arena that it pointed into has been replaced.
unfoldable pub read : Builder → Pointer → ℕ → Option Bytes
read b nil_pointer n = none
read b (slot i) n = some (load (b.inline_values i) 0 n)
read b (spill g off) n = if g == b.generation then some (load b.arena off n) else none

-- The bytes of argument `i`.
unfoldable pub value : Builder → ℕ → Bytes
value b i =
    if ltb_ℤ (meta b i).offset (pos 0)
    then load (b.inline_values i) 0 (meta b i).size
    else load b.arena (to_uint (meta b i).offset) (meta b i).size
