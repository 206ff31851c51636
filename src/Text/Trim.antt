-- ===== src/Text/Trim.antt =====
-- `str::trim`, as src/lwm2m/server.rs uses it, on a text in UTF-8.
use smart_garden_gateway_lwm.Prelude.{
  Bool, true, false, ◌&&◌, ◌||◌, List, [], ◌∷◌, ◌++◌, Bytes, leb, ◌==◌, if◌then◌else◌,
}

-- A byte that is not the first of its character.
abbrev pub is_continuation : Bytes → Bool
is_continuation [] = false
is_continuation (b ∷ text) = leb 128 b && leb b 191

abbrev pub onto_first : Bool → Bytes → List Bytes → List Bytes
onto_first true c [] = c ∷ []
onto_first true c (d ∷ cs) = (c ++ d) ∷ cs
onto_first false c cs = c ∷ cs

-- The characters, each with its bytes.
unfoldable pub characters : Bytes → List Bytes
characters [] = []
characters (b ∷ text) = onto_first (is_continuation text) (b ∷ []) (characters text)

-- The characters with the property White_Space of Unicode: the ASCII ones, U+0085 and U+00A0, and those
-- of three bytes, U+1680, U+2000 to U+200A, U+2028, U+2029, U+202F, U+205F and U+3000.
unfoldable pub is_whitespace : Bytes → Bool
is_whitespace (a ∷ []) = a == 32 || (leb 9 a && leb a 13)
is_whitespace (a ∷ b ∷ []) = (a == 194) && (b == 133 || b == 160)
is_whitespace (a ∷ b ∷ c ∷ []) =
    ((a == 225) && ((b == 154) && (c == 128)))
    || (((a == 226)
          && ((b == 128) && ((leb 128 c && leb c 138) || (c == 168 || (c == 169 || c == 175)))))
        || (((a == 226) && ((b == 129) && (c == 159)))
            || ((a == 227) && ((b == 128) && (c == 128)))))
is_whitespace c = false

unfoldable pub trim_start : List Bytes → List Bytes
unfolding is_whitespace
trim_start [] = []
trim_start (c ∷ cs) = let rest = trim_start cs in if is_whitespace c then rest else c ∷ cs

unfoldable pub keep_front : Bytes → List Bytes → List Bytes
unfolding is_whitespace
keep_front c [] = if is_whitespace c then [] else c ∷ []
keep_front c (d ∷ rest) = c ∷ d ∷ rest

unfoldable pub trim_end : List Bytes → List Bytes
unfolding keep_front
trim_end [] = []
trim_end (c ∷ cs) = keep_front c (trim_end cs)

abbrev pub joined : List Bytes → Bytes
joined [] = []
joined (c ∷ cs) = c ++ joined cs

unfoldable pub trim : Bytes → Bytes
unfolding characters trim_start trim_end
trim text = joined (trim_end (trim_start (characters text)))
