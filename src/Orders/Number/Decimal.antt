-- ===== src/Orders/Number/Decimal.antt =====
-- The printed queue number determines the sequence number, past 999 too.
use cafe_pos.Prelude.{
  ℕ, zero, suc, ◌+◌, ◌-◌, ◌*◌, ◌/◌, ◌%◌, ◌<◌, ◌≡◌, refl, sym, ap, ◌∙◌, List, [], ◌∷◌, ◌++◌, arith,
  length, ltb, Bool-cases, inl, inr,
}
use cafe_pos.Orders.Number.{replicate, decimal_from, decimal, format_order_number}

-- The number that a run of digits stands for, read from the left.
abbrev read_from : ℕ → List ℕ → ℕ
read_from acc [] = acc
read_from acc (c ∷ cs) = read_from (10 * acc + (c - b'0')) cs

read_from-snoc :
    (acc : ℕ) (xs : List ℕ) (c : ℕ)
    → read_from acc (xs ++ (c ∷ [])) ≡ 10 * read_from acc xs + (c - b'0')
read_from-snoc acc [] c = refl
read_from-snoc acc (x ∷ xs) c = read_from-snoc (10 * acc + (x - b'0')) xs c

read_from-zeros : (k : ℕ) (xs : List ℕ) → read_from 0 (replicate k b'0' ++ xs) ≡ read_from 0 xs
read_from-zeros zero xs = refl
read_from-zeros (suc k) xs = read_from-zeros k xs

read_from-decimal_from : (fuel n : ℕ) → n < fuel → read_from 0 (decimal_from fuel n) ≡ n
unfolding decimal_from
read_from-decimal_from zero n h = elim h [ ]
read_from-decimal_from (suc fuel) n h = elim (Bool-cases (ltb n 10)) [
  | inl small ↦ rw small (omega arith)
  | inr big ↦
      rw (big, read_from-snoc 0 (decimal_from fuel (n / 10)) (b'0' + n % 10))
        (rw (read_from-decimal_from fuel (n / 10) (ground arith)) (omega arith))
]

-- The characters of a queue number behind its prefix.
abbrev digits_of : List ℕ → List ℕ
digits_of [] = []
digits_of (_ ∷ []) = []
digits_of (_ ∷ _ ∷ cs) = cs

format_order_number-read : (n : ℕ) → read_from 0 (digits_of (format_order_number n)) ≡ n
unfolding format_order_number decimal
format_order_number-read n =
    read_from-zeros (3 - length (decimal n)) (decimal n)
    ∙ read_from-decimal_from (suc n) n (omega arith)

-- Two sequence numbers with one queue number are equal.
pub format_order_number_injective :
    (m n : ℕ) → format_order_number m ≡ format_order_number n → m ≡ n
format_order_number_injective m n h =
    sym (format_order_number-read m)
    ∙ ap (λ s. read_from 0 (digits_of s)) h
    ∙ format_order_number-read n
