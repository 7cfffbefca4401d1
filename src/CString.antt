-- ===== src/CString.antt =====
-- The functions of <string.h> and <stdlib.h> that the connection code calls, on the bytes of a
-- string without its NUL. A pointer into the string is its index, a null pointer is `none`.
pub mod Laws
pub mod Pieces
pub mod Print
use mathlib.Core.Option
use tiny_web_server_learning.Prelude.{
  ℕ, zero, suc, ◌+◌, ◌-◌, ◌*◌, ◌%◌, ◌^◌, min, Bool, true, false, ◌&&◌, ◌||◌, List, [], ◌∷◌, map,
  Option, none, some, ltb, leb, ◌==◌, if◌then◌else◌, take,
}
use tiny_web_server_learning.Prelude.Int.{ℤ, pos, negsuc, sub_ℕ}

unfoldable pub contains : ℕ → List ℕ → Bool
contains c [] = false
contains c (d ∷ ds) = c == d || contains c ds

-- strpbrk
unfoldable pub strpbrk : List ℕ → List ℕ → Option ℕ
strpbrk [] accept = none
strpbrk (c ∷ s) accept = if contains c accept then some 0 else Option.map suc (strpbrk s accept)

-- strspn
unfoldable pub strspn : List ℕ → List ℕ → ℕ
strspn [] accept = 0
strspn (c ∷ s) accept = if contains c accept then suc (strspn s accept) else 0

-- strchr
unfoldable pub strchr : List ℕ → ℕ → Option ℕ
strchr [] d = none
strchr (c ∷ s) d = if c == d then some 0 else Option.map suc (strchr s d)

-- strrchr
unfoldable pub strrchr : List ℕ → ℕ → Option ℕ
strrchr [] d = none
strrchr (c ∷ s) d = elim (strrchr s d) [
  | some i ↦ some (suc i)
  | none ↦ if c == d then some 0 else none
]

unfoldable pub to_lower : ℕ → ℕ
to_lower c = if leb b'A' c && leb c b'Z' then c + 32 else c

-- `strcmp(s, t) == 0`
unfoldable pub same_bytes : List ℕ → List ℕ → Bool
same_bytes [] [] = true
same_bytes [] (d ∷ t) = false
same_bytes (c ∷ s) [] = false
same_bytes (c ∷ s) (d ∷ t) = c == d && same_bytes s t

-- `strcasecmp(s, t) == 0`
unfoldable pub strcasecmp_eq : List ℕ → List ℕ → Bool
unfolding same_bytes to_lower
strcasecmp_eq s t = same_bytes (map to_lower s) (map to_lower t)

-- `strncasecmp(s, t, n) == 0`
unfoldable pub strncasecmp_eq : List ℕ → List ℕ → ℕ → Bool
unfolding strcasecmp_eq
strncasecmp_eq s t n = strcasecmp_eq (take n s) (take n t)

unfoldable pub starts_with : List ℕ → List ℕ → Bool
starts_with s [] = true
starts_with [] (d ∷ t) = false
starts_with (c ∷ s) (d ∷ t) = c == d && starts_with s t

-- strstr
unfoldable pub strstr : List ℕ → List ℕ → Option ℕ
unfolding starts_with
strstr [] t = if starts_with [] t then some 0 else none
strstr (c ∷ s) t = if starts_with (c ∷ s) t then some 0 else Option.map suc (strstr s t)

is_space : ℕ → Bool
is_space c = c == 32 || (leb 9 c && leb c 13)

skip_space : List ℕ → List ℕ
unfolding is_space
skip_space [] = []
skip_space (c ∷ s) = if is_space c then skip_space s else c ∷ s

digits_value : ℕ → List ℕ → ℕ
digits_value acc [] = acc
digits_value acc (c ∷ s) = elim (leb b'0' c && leb c b'9') [
  | true ↦ digits_value (10 * acc + (c - b'0')) s
  | false ↦ acc
]

signed_value : List ℕ → ℤ
unfolding digits_value
signed_value [] = pos 0
signed_value (c ∷ s) =
    if c == b'-'
    then sub_ℕ 0 (digits_value 0 s)
    else pos (digits_value 0 (if c == b'+' then s else c ∷ s))

-- strtol saturates at the ends of a 64-bit long.
clamp_long : ℤ → ℤ
clamp_long (pos n) = pos (min n (2 ^ 63 - 1))
clamp_long (negsuc n) = negsuc (min n (2 ^ 63 - 1))

-- atol
unfoldable pub atol : List ℕ → ℤ
unfolding skip_space signed_value clamp_long
atol s = clamp_long (signed_value (skip_space s))

int_of_word : ℕ → ℤ
int_of_word r = if ltb r (2 ^ 31) then pos r else negsuc (2 ^ 32 - 1 - r)

-- the conversion of a long to a 32-bit int
unfoldable pub to_int : ℤ → ℤ
unfolding int_of_word
to_int (pos n) = int_of_word (n % 2 ^ 32)
to_int (negsuc n) = int_of_word (2 ^ 32 - 1 - n % 2 ^ 32)
