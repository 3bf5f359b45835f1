-- ===== src/Orders/Query/Pages.antt =====
-- The pages of the order list, one after the other.
use cafe_pos.Prelude.Sorted.{
  AreComparable, IsSorted, sort-All, sort-IsSorted, All-select, All-at, sort, select-AreComparable,
  select-and, select-sort, select-after,
}
use cafe_pos.Orders.Query.Page.{sorted, Cut, cut, page_of-short, page_of-long}
use cafe_pos.Orders.Query.Comparison.{
  HaveDistinctIds, IsExact, distinct-AreComparable, comes_before_trans, past-comes_before,
  exact-typed_value, comes_before_asym, comes_before_irrefl,
}
use cafe_pos.Orders.Query.{
  OrdersQuery, StoredOrder, OrderPage, RawCursor, passes_filters, Cursor, sort_value_of,
  comes_before, list_orders, is_past_cursor, encode_cursor, page_of, sort_index,
}
use cafe_pos.Schema.Rows.{Label, Payment}
use cafe_pos.Prelude.{
  [], ◌∷◌, some, none, List, ℕ, Bool, suc, Option, All, select, ◌≡◌, ◌≤◌, ◌++◌, ◌&&◌, ◌<◌, length,
  arith, zero, subst, ==_iff, ◌∙◌, Bool-cases, ap, ltb, sym, inr, refl, append-nil, append_assoc,
  inl,
}

-- What a client sees that follows each page's cursor to the next, `n` pages at most.
unfoldable pub pages :
    (Label → List ℕ → Bool) → List Payment → OrdersQuery → List StoredOrder → ℕ → List StoredOrder
pages ilike payments query table zero = []
pages ilike payments query table (suc n) =
    follow (list_orders ilike payments query table)
      (λ raw. pages ilike payments (record query { cursor = some raw }) table n)
  where
    follow : Option OrderPage → (RawCursor → List StoredOrder) → List StoredOrder
    follow none rest = []
    follow (some page) rest = page.orders ++ onward page.next_cursor rest
      where
        onward : Option RawCursor → (RawCursor → List StoredOrder) → List StoredOrder
        onward none rest = []
        onward (some raw) rest = rest raw

module _ (ilike : Label → List ℕ → Bool) (payments : List Payment) (query : OrdersQuery)
    (table : List StoredOrder) (distinct : HaveDistinctIds table)
    (exact : All (IsExact query.by) table) where
  abbrev passes : StoredOrder → Bool
  passes o = passes_filters ilike payments query o

  abbrev filtered : List StoredOrder
  filtered = select passes table

  abbrev result : List StoredOrder
  result = sorted query.by filtered

  abbrev past : Cursor → StoredOrder → Bool
  past c o = passes o && is_past_cursor query.by c o

  cursor_at : StoredOrder → Cursor
  cursor_at o = record { sort_spec = query.by; value = sort_value_of query.by o; id = o.row.id }

  comparable : AreComparable (comes_before query.by) table
  comparable = distinct-AreComparable query.by table distinct

  result-IsSorted : IsSorted (comes_before query.by) result
  result-IsSorted =
      sort-IsSorted (comes_before query.by) (comes_before_trans query.by) filtered
        (select-AreComparable (comes_before query.by) passes table comparable)

  result-IsExact : All (IsExact query.by) result
  result-IsExact =
      sort-All (comes_before query.by) (IsExact query.by) filtered
        (All-select (IsExact query.by) passes table exact)

  -- The rows past a cursor are the rows that follow its row.
  rest-past :
      (front : List StoredOrder) (o : StoredOrder) (back : List StoredOrder)
      → result ≡ front ++ o ∷ back
      → sorted query.by (select (past (cursor_at o)) table) ≡ back
  unfolding cursor_at
  rest-past front o back whole =
      let by = query.by in
      let lt = comes_before by in
      let at : IsExact by o =
        All-at (IsExact by) front o back (subst (λ xs. All (IsExact by) xs) whole result-IsExact) in
      let same : (p : StoredOrder) → past (cursor_at o) p ≡ (passes p && lt o p) = λ p.
        ap (λ b. passes p && b)
          (past-comes_before by (cursor_at o) o p refl (exact-typed_value by o at)) in
      let kept = select-AreComparable lt passes table comparable in
      ap (λ f. sort lt (select f table)) (λ i p. same p i)
      ∙ (ap (sort lt) (select-and passes (lt o) table)
          ∙ (sym (select-sort lt (comes_before_trans by) (lt o) filtered kept)
              ∙ (ap (select (lt o)) whole
                  ∙ select-after lt (comes_before_trans by) (comes_before_asym by)
                      (comes_before_irrefl by) front o back
                      (subst (IsSorted lt) whole result-IsSorted))))

  at_cursor : Option RawCursor → OrdersQuery
  at_cursor cursor = record query { cursor = cursor }

  list-next :
      (o : StoredOrder)
      → list_orders ilike payments (at_cursor (some (encode_cursor query.by o))) table
        ≡ some (page_of query.by query.limit (select (past (cursor_at o)) table))
  unfolding passes_filters cursor_at at_cursor
  list-next o = rw ((==_iff (sort_index query.by) (sort_index query.by)).1 refl) refl

  pages-last :
      (n : ℕ) (found : List StoredOrder) (cursor : Option RawCursor)
      → list_orders ilike payments (at_cursor cursor) table
        ≡ some (page_of query.by query.limit found)
      → length (sorted query.by found) ≤ query.limit
      → pages ilike payments (at_cursor cursor) table (suc n) ≡ sorted query.by found
  unfolding pages
  pages-last n found cursor listed short =
      rw (listed ∙ ap some (page_of-short query.by query.limit found short))
        (append-nil (sorted query.by found))

  pages-more :
      (n : ℕ) (found : List StoredOrder) (cursor : Option RawCursor)
      (c : Cut query.limit (sorted query.by found))
      → list_orders ilike payments (at_cursor cursor) table
        ≡ some (page_of query.by query.limit found)
      → query.limit < length (sorted query.by found)
      → pages ilike payments (at_cursor (some (encode_cursor query.by c.last))) table n ≡ c.back
      → pages ilike payments (at_cursor cursor) table (suc n) ≡ sorted query.by found
  unfolding pages at_cursor
  pages-more n found cursor c listed long onward =
      rw (listed ∙ ap some (page_of-long query.by query.limit found c long), onward)
        (append_assoc c.front (c.last ∷ []) c.back ∙ sym c.whole)

  Cut-at : (n : ℕ) (xs : List StoredOrder) → 1 ≤ n → n < length xs → Cut n xs
  Cut-at zero xs h k = let never : ⊥ = omega arith in elim never [ ]
  Cut-at (suc n) xs h k = cut n xs k

  -- The pages from a list that follows what was shown already.
  pages-from :
      (n : ℕ) (shown found : List StoredOrder) (cursor : Option RawCursor)
      → 1 ≤ query.limit
      → list_orders ilike payments (at_cursor cursor) table
        ≡ some (page_of query.by query.limit found)
      → result ≡ shown ++ sorted query.by found
      → length (sorted query.by found) < n
      → pages ilike payments (at_cursor cursor) table n ≡ sorted query.by found
  pages-from zero shown found cursor some_rows listed whole h =
      let never : ⊥ = omega arith in elim never [ ]
  pages-from (suc n) shown found cursor some_rows listed whole h =
      elim (Bool-cases (ltb query.limit (length (sorted query.by found)))) [
        | inr short ↦ pages-last n found cursor listed (ground arith)
        | inl long ↦
            let long' : query.limit < length (sorted query.by found) = ground arith in
            let c = Cut-at query.limit (sorted query.by found) some_rows long' in
            let next = select (past (cursor_at c.last)) table in
            let whole' : result ≡ (shown ++ c.front) ++ c.last ∷ c.back =
              whole
              ∙ (ap (λ xs. shown ++ xs) c.whole
                  ∙ sym (append_assoc shown c.front (c.last ∷ c.back))) in
            let back = rest-past (shown ++ c.front) c.last c.back whole' in
            let onward =
              pages-from n ((shown ++ c.front) ++ (c.last ∷ [])) next
                (some (encode_cursor query.by c.last)) some_rows (list-next c.last)
                (whole'
                  ∙ (sym (append_assoc (shown ++ c.front) (c.last ∷ []) c.back)
                      ∙ ap (λ xs. ((shown ++ c.front) ++ (c.last ∷ [])) ++ xs) (sym back)))
                (rw back (omega (arith, c.size))) in
            pages-more n found cursor c listed long' (onward ∙ back)
      ]

  -- Following the cursors from the first page, with more steps than there are rows, shows each row
  -- that passes the filters once and in the order of the sort, where a page may hold a row, ids are
  -- unique and the sort is by total or every time is on a whole millisecond.
  pub pages_in_order :
      (n : ℕ)
      → query.cursor ≡ none
      → 1 ≤ query.limit
      → length (sort (comes_before query.by) filtered) < n
      → pages ilike payments query table n ≡ sort (comes_before query.by) filtered
  unfolding at_cursor passes_filters
  pages_in_order n first some_rows enough =
      subst (λ q. pages ilike payments q table n ≡ result) (ap at_cursor (sym first))
        (pages-from n [] filtered none some_rows refl refl enough)
