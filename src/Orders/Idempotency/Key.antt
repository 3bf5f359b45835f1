-- ===== src/Orders/Idempotency/Key.antt =====
-- src/orders/idempotency/idempotency-key.ts: the check of the `Idempotency-Key` header. A text is
-- the list of its UTF-16 code units.
use cafe_pos.Prelude.{
  ℕ, Bool, true, false, ◌&&◌, ◌||◌, Option, none, some, List, [], ◌∷◌, ◌==◌, leb, if◌then◌else◌,
  length, ◌≡◌, arith, ap, ◌≤◌, ◌∙◌, refl,
}

abbrev min_length : ℕ
min_length = 8

abbrev max_length : ℕ
max_length = 128

-- What `trim` removes: white space and line ends, as ECMAScript lists them.
unfoldable pub is_space : ℕ → Bool
is_space c =
    (leb 9 c && leb c 13)
    || c == 32
    || c == 160
    || c == 0x1680
    || (leb 0x2000 c && leb c 0x200a)
    || c == 0x2028
    || c == 0x2029
    || c == 0x202f
    || c == 0x205f
    || c == 0x3000
    || c == 0xfeff

unfoldable pub trim_start : List ℕ → List ℕ
trim_start [] = []
trim_start (c ∷ cs) = elim (is_space c) [ true ↦ trim_start cs | false ↦ c ∷ cs ]

unfoldable pub trim_end : List ℕ → List ℕ
trim_end [] = []
trim_end (c ∷ cs) = elim (trim_end cs) [
  | [] ↦ if is_space c then [] else c ∷ []
  | d ∷ ds ↦ c ∷ d ∷ ds
]

unfoldable pub trim : List ℕ → List ℕ
trim s = trim_end (trim_start s)

-- `[A-Za-z0-9._:-]`.
unfoldable pub is_key_char : ℕ → Bool
is_key_char c =
    (leb b'A' c && leb c b'Z')
    || (leb b'a' c && leb c b'z')
    || (leb b'0' c && leb c b'9')
    || c == b'.'
    || c == b'_'
    || c == b':'
    || c == b'-'

unfoldable pub all_key_chars : List ℕ → Bool
all_key_chars [] = true
all_key_chars (c ∷ cs) = is_key_char c && all_key_chars cs

pub data ParsedKey : Type 0 where
  absent malformed : ParsedKey
  accepted : List ℕ → ParsedKey

-- The pattern wants one character at least, which the lower bound on the length gives.
unfoldable pub parse_idempotency_key : Option (List ℕ) → ParsedKey
parse_idempotency_key none = absent
parse_idempotency_key (some raw) =
    let key = trim raw in
    if leb min_length (length key) && (leb (length key) max_length && all_key_chars key)
    then accepted key
    else malformed

key_char-is_space : (c : ℕ) → is_key_char c ≡ true → is_space c ≡ false
unfolding is_key_char is_space
key_char-is_space c h = ground arith

trim_start-key : (s : List ℕ) → all_key_chars s ≡ true → trim_start s ≡ s
unfolding all_key_chars trim_start
trim_start-key [] h = refl
trim_start-key (c ∷ cs) h = ground (arith, key_char-is_space c)

trim_end-key : (s : List ℕ) → all_key_chars s ≡ true → trim_end s ≡ s
unfolding all_key_chars trim_end
trim_end-key [] h = refl
trim_end-key (c ∷ []) h = ground (arith, key_char-is_space c)
trim_end-key (c ∷ d ∷ ds) h = ground (arith, trim_end-key (d ∷ ds))

trim-key : (s : List ℕ) → all_key_chars s ≡ true → trim s ≡ s
unfolding trim
trim-key s h = ap trim_end (trim_start-key s h) ∙ trim_end-key s h

-- An accepted key has 8 to 128 characters, all of the token alphabet, and sending it as it is
-- stored is accepted as the same key.
pub parse_idempotency_key_accepts :
    (raw key : List ℕ)
    → parse_idempotency_key (some raw) ≡ accepted key
    → (8 ≤ length key)
      × (length key ≤ 128)
      × (all_key_chars key ≡ true)
      × (parse_idempotency_key (some key) ≡ accepted key)
unfolding parse_idempotency_key
parse_idempotency_key_accepts raw key h =
    let same : trim raw ≡ key = ground arith in
    let chars : all_key_chars key ≡ true = ground (arith, same) in
    (
      ground (arith, same),
      ground (arith, same),
      chars,
      ground (arith, same, chars, trim-key key chars),
    )
