-- ===== src/Variant.antt =====
-- rpcmple_cpp/include/rpcmple/dataSignature.h: the `variant` type and `getVariantValue`.
-- An `int64_t`, a `uint64_t` and a `double` are 64-bit patterns, a `std::string` its bytes, a
-- `std::wstring` its wide characters.
use rpcmple.Common.{ℕ, Option, none, some, List}

abbrev pub Text : Type 0
Text = List ℕ

pub data Variant : Type 0 where
  int64 uint64 double : ℕ → Variant
  wstring string : Text → Variant
  int64s uint64s doubles : List ℕ → Variant
  wstrings strings : List Text → Variant

-- The value that a `variant` has before one is assigned: its first alternative, 0.
abbrev pub default_variant : Variant
default_variant = int64 0

-- The ten overloads of `getVariantValue`: `none` is `false`, with nothing written.
unfoldable pub get_int64 : Variant → Option ℕ
get_int64 (int64 x) = some x
get_int64 _ = none

unfoldable pub get_uint64 : Variant → Option ℕ
get_uint64 (uint64 x) = some x
get_uint64 _ = none

unfoldable pub get_double : Variant → Option ℕ
get_double (double x) = some x
get_double _ = none

unfoldable pub get_wstring : Variant → Option Text
get_wstring (wstring x) = some x
get_wstring _ = none

unfoldable pub get_string : Variant → Option Text
get_string (string x) = some x
get_string _ = none

unfoldable pub get_int64s : Variant → Option (List ℕ)
get_int64s (int64s x) = some x
get_int64s _ = none

unfoldable pub get_uint64s : Variant → Option (List ℕ)
get_uint64s (uint64s x) = some x
get_uint64s _ = none

unfoldable pub get_doubles : Variant → Option (List ℕ)
get_doubles (doubles x) = some x
get_doubles _ = none

unfoldable pub get_wstrings : Variant → Option (List Text)
get_wstrings (wstrings x) = some x
get_wstrings _ = none

unfoldable pub get_strings : Variant → Option (List Text)
get_strings (strings x) = some x
get_strings _ = none
