-- ===== src/Strings.antt =====
-- include/string.h, whose inline assembly is read as its
-- loops. Memory is a function from addresses to bytes.
pub mod Move
pub mod Copy
pub mod Append
mod Tests
use my_practice.Base.{
  ℕ, zero, suc, ◌+◌, ◌-◌, ◌^◌, ◌%◌, Bool, true, false, Option, none, some, ltb, ◌==◌, if◌then◌else◌,
  update,
}
use my_practice.Base.Int.{ℤ, pos, negsuc}

abbrev pub Bytes : Type 0
Bytes = ℕ → ℕ

-- `rep movsb` upwards, with `n` bytes left
pub movsb : (n esi edi : ℕ) → Bytes → Bytes
movsb zero esi edi m = m
movsb (suc n) esi edi m = movsb n (esi + 1) (edi + 1) (update m edi (m esi))

-- `rep movsb` downwards, after `std`
pub movsb_down : (n esi edi : ℕ) → Bytes → Bytes
movsb_down zero esi edi m = m
movsb_down (suc n) esi edi m = movsb_down n (esi - 1) (edi - 1) (update m edi (m esi))

-- `rep stosb`
pub stosb : (n al edi : ℕ) → Bytes → Bytes
stosb zero al edi m = m
stosb (suc n) al edi m = stosb n al (edi + 1) (update m edi al)

-- `repne scasb`: the count left, the address behind the last byte looked at, and whether that byte
-- is `al`
pub scasb : (ecx al edi : ℕ) → Bytes → ℕ × ℕ × Bool
scasb zero al edi m = (0, edi, false)
scasb (suc ecx) al edi m = elim (m edi == al) [
  | true ↦ (ecx, edi + 1, true)
  | false ↦ scasb ecx al (edi + 1) m
]

-- The loop of `lodsb` and `stosb` up to a byte 0: the memory and the address behind it. With `fuel`
-- rounds; none where they are not enough.
pub copy_string : (fuel esi edi : ℕ) → Bytes → Option Bytes
copy_string zero esi edi m = none
copy_string (suc fuel) esi edi m =
    let m' : Bytes = update m edi (m esi) in
    elim (m esi == 0) [ true ↦ some m' | false ↦ copy_string fuel (esi + 1) (edi + 1) m' ]

-- The same loop with a count: what is left of it, the memory and the address behind what is written
pub copy_count : (count esi edi : ℕ) → Bytes → ℕ × Bytes × ℕ
copy_count zero esi edi m = (0, m, edi)
copy_count (suc count) esi edi m =
    let m' : Bytes = update m edi (m esi) in
    elim (m esi == 0) [
      | true ↦ (count, m', edi + 1)
      | false ↦ copy_count count (esi + 1) (edi + 1) m'
    ]

pub strcpy : (fuel dest src : ℕ) → Bytes → Option Bytes
strcpy fuel dest src m = copy_string fuel src dest m

-- For a count that is not negative
pub strncpy : (dest src count : ℕ) → Bytes → Bytes
strncpy dest src count m = let (left, m', edi) = copy_count count src dest m in stosb left 0 edi m'

-- The address of the byte 0 of a string
abbrev pub end_of : (s : ℕ) → Bytes → ℕ
end_of s m = (scasb (2 ^ 32 - 1) 0 s m).1 - 1

pub strcat : (fuel dest src : ℕ) → Bytes → Option Bytes
strcat fuel dest src m = copy_string fuel src (end_of dest m) m

-- `decl` and `js` leave the loop with the end at `edi`; where a byte 0 ends it, another one is written.
pub strncat : (dest src count : ℕ) → Bytes → Bytes
strncat dest src count m =
    let (left, m', edi) = copy_count count src (end_of dest m) m in update m' edi 0

pub strlen : (s : ℕ) → Bytes → ℕ
strlen s m = 2 ^ 32 - 1 - (scasb (2 ^ 32 - 1) 0 s m).0 - 1

-- `jl`: bytes are compared as signed.
abbrev pub less_byte : ℕ → ℕ → Bool
less_byte a b = ltb ((a + 128) % 256) ((b + 128) % 256)

-- The result for the bytes `al` of `ct` and `b` of `cs` that differ
abbrev pub order_of : (al b : ℕ) → ℤ
order_of al b = if less_byte al b then pos 1 else negsuc 0

-- `strcmp`, with `fuel` rounds
pub strcmp : (fuel cs ct : ℕ) → Bytes → Option ℤ
strcmp zero cs ct m = none
strcmp (suc fuel) cs ct m =
    let rest = strcmp fuel (cs + 1) (ct + 1) m in
    if m ct == m cs
    then (if m ct == 0 then some (pos 0) else rest)
    else some (order_of (m ct) (m cs))

pub strncmp : (cs ct count : ℕ) → Bytes → ℤ
strncmp cs ct zero m = pos 0
strncmp cs ct (suc count) m =
    let rest = strncmp (cs + 1) (ct + 1) count m in
    if m ct == m cs then (if m ct == 0 then pos 0 else rest) else order_of (m ct) (m cs)

-- `strchr`, with `fuel` rounds; the address 0 is NULL
pub strchr : (fuel s c : ℕ) → Bytes → Option ℕ
strchr zero s c m = none
strchr (suc fuel) s c m =
    let rest = strchr fuel (s + 1) c m in
    if m s == c then some s else (if m s == 0 then some 0 else rest)

-- `strrchr`, where `edx` is the last address found
pub strrchr_from : (fuel esi c edx : ℕ) → Bytes → Option ℕ
strrchr_from zero esi c edx m = none
strrchr_from (suc fuel) esi c edx m =
    let found = (if m esi == c then esi else edx) in
    let rest = strrchr_from fuel (esi + 1) c found m in if m esi == 0 then some found else rest

abbrev pub strrchr : (fuel s c : ℕ) → Bytes → Option ℕ
strrchr fuel s c = strrchr_from fuel s c 0

abbrev pub memcpy : (dest src n : ℕ) → Bytes → Bytes
memcpy dest src n = movsb n src dest

pub memmove : (dest src n : ℕ) → Bytes → Bytes
memmove dest src n m =
    if ltb dest src then movsb n src dest m else movsb_down n (src + n - 1) (dest + n - 1) m

-- `memcmp` of at least one byte
pub memcmp : (cs ct count : ℕ) → Bytes → ℤ
memcmp cs ct zero m = pos 0
memcmp cs ct (suc count) m =
    let rest = memcmp (cs + 1) (ct + 1) count m in
    if m ct == m cs then rest else order_of (m ct) (m cs)

-- The address of the byte, or 0
pub memchr : (cs c count : ℕ) → Bytes → ℕ
memchr cs c count m =
    if count == 0
    then 0
    else (let (ecx, edi, found) = scasb count c cs m in if found then edi - 1 else 0)

abbrev pub memset : (s c count : ℕ) → Bytes → Bytes
memset s c count = stosb count c s
