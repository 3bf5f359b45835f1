-- ===== src/Orders/Query.antt =====
-- src/orders/query: the order list with its cursor (`OrdersReadService.list`, cursor.ts). The order
-- of two ids is the order of the numbers that stand for them.
pub mod Comparison
pub mod Page
pub mod Pages
use cafe_pos.Prelude.{
  ℕ, Bool, true, false, Option, none, some, List, [], ◌∷◌, ◌+◌, ◌*◌, ◌/◌, ◌==◌, ◌&&◌, ◌||◌,
  if◌then◌else◌, select, any, take, length, ltb, leb, not, map, suc, zero, list_eq, ◌++◌,
}
use cafe_pos.Prelude.Sorted.{sort}
use cafe_pos.Schema.Enums.{
  OrderStatus, OrderChannel, PaymentMethod, PaymentStatus, payment_status_eq, includes_order_status,
  order_channel_eq,
}
use cafe_pos.Schema.Rows.{Label, Order, Payment}

-- `createdAt` and `totalMinor`, each with `-` or without.
pub data OrderSort : Type 0 where
  created_at_asc created_at_desc total_minor_asc total_minor_desc : OrderSort

abbrev pub sort_index : OrderSort → ℕ
sort_index created_at_asc = 0
sort_index created_at_desc = 1
sort_index total_minor_asc = 2
sort_index total_minor_desc = 3

-- `sortColumn`.
abbrev pub is_by_total : OrderSort → Bool
is_by_total created_at_asc = false
is_by_total created_at_desc = false
is_by_total total_minor_asc = true
is_by_total total_minor_desc = true

abbrev pub is_descending : OrderSort → Bool
is_descending created_at_asc = false
is_descending created_at_desc = true
is_descending total_minor_asc = false
is_descending total_minor_desc = true

-- A row as the database holds it: `created_at` is a `timestamptz`, in microseconds. The driver hands
-- it out as a `Date`, in milliseconds.
pub record StoredOrder : Type 0 where
  pub row : Order
  pub created_at_us : ℕ

abbrev pub created_at_ms : StoredOrder → ℕ
created_at_ms o = o.created_at_us / 1000

abbrev pub column_of : OrderSort → StoredOrder → ℕ
column_of by o = if is_by_total by then o.row.total_minor else o.created_at_us

-- What a client sends back: a cursor, or a text that fails a check of `decodeCursor`.
pub record Cursor : Type 0 where
  pub sort_spec : OrderSort
  pub value : ℕ
  pub id : Label

pub data RawCursor : Type 0 where
  encoded : Cursor → RawCursor
  malformed : RawCursor

abbrev pub sort_value_of : OrderSort → StoredOrder → ℕ
sort_value_of by o = if is_by_total by then o.row.total_minor else created_at_ms o

abbrev pub encode_cursor : OrderSort → StoredOrder → RawCursor
encode_cursor by o = encoded (record { sort_spec = by; value = sort_value_of by o; id = o.row.id })

-- `decodeCursor`; nothing is its `CursorInvalidError`.
abbrev pub decode_cursor : OrderSort → RawCursor → Option Cursor
decode_cursor by malformed = none
decode_cursor by (encoded c) = if sort_index c.sort_spec == sort_index by then some c else none

-- `(a, i) < (b, j)`.
abbrev pub row_less : ℕ → Label → ℕ → Label → Bool
row_less a i b j = ltb a b || (a == b && ltb i j)

-- `ORDER BY column, id`, both in the direction of the sort.
abbrev pub comes_before : OrderSort → StoredOrder → StoredOrder → Bool
comes_before by o p =
    if is_descending by
    then row_less (column_of by p) p.row.id (column_of by o) o.row.id
    else row_less (column_of by o) o.row.id (column_of by p) p.row.id

-- The value of a cursor cast to the column's type.
abbrev pub typed_value : OrderSort → Cursor → ℕ
typed_value by c = if is_by_total by then c.value else c.value * 1000

-- `cursorPredicate`, once the cursor is decoded.
abbrev pub is_past_cursor : OrderSort → Cursor → StoredOrder → Bool
is_past_cursor by c o =
    if is_descending by
    then row_less (column_of by o) o.row.id (typed_value by c) c.id
    else row_less (typed_value by c) c.id (column_of by o) o.row.id

abbrev payment_method_index : PaymentMethod → ℕ
payment_method_index PaymentMethod.card = 0
payment_method_index PaymentMethod.promptpay = 1
payment_method_index PaymentMethod.cash = 2

-- `method IN (...)`, which a null never is.
abbrev pub is_method_in : List PaymentMethod → Option PaymentMethod → Bool
is_method_in methods none = false
is_method_in methods (some m) = any (λ n. payment_method_index n == payment_method_index m) methods

pub record OrdersQuery : Type 0 where
  pub status : Option (List OrderStatus)
  pub channel : Option (List OrderChannel)
  pub method : Option (List PaymentMethod)
  pub from : Option ℕ
  pub to : Option ℕ
  pub business_day : Option Label
  pub q : Option (List ℕ)
  pub by : OrderSort
  pub limit : ℕ
  pub cursor : Option RawCursor

-- The rows of the page, before `toOrderSummary` is mapped over them, and the next cursor.
pub record OrderPage : Type 0 where
  pub orders : List StoredOrder
  pub next_cursor : Option RawCursor

-- `page.at(-1)`.
abbrev pub last_of : {A : Type 0} → List A → Option A
last_of [] = none
last_of (x ∷ []) = some x
last_of (x ∷ y ∷ ys) = last_of (y ∷ ys)

abbrev pub next_of : OrderSort → Bool → Option StoredOrder → Option RawCursor
next_of by more none = none
next_of by more (some o) = if more then some (encode_cursor by o) else none

-- `escapeLikePrefix`: a backslash before each backslash, `%` and `_`.
abbrev pub escape_like_prefix : List ℕ → List ℕ
escape_like_prefix [] = []
escape_like_prefix (c ∷ cs) =
    let rest = escape_like_prefix cs in
    if c == 92 || (c == 37 || c == 95) then 92 ∷ c ∷ rest else c ∷ rest

-- A clause that is left out when its part of the query is.
abbrev pub clause : {A : Type 0} → Option A → (A → Bool) → Bool
clause none f = true
clause (some a) f = f a

abbrev pub holds_of : {A : Type 0} → Option A → (A → Bool) → Bool
holds_of none f = false
holds_of (some a) f = f a

-- The page of the rows that `where` leaves: one row more than asked for, then dropped.
abbrev pub page_of : OrderSort → ℕ → List StoredOrder → OrderPage
page_of by limit found =
    let rows = take (limit + 1) (sort (comes_before by) found) in
    let page = take limit rows in
    record { orders = page; next_cursor = next_of by (ltb limit (length rows)) (last_of page) }

module _ (ilike : Label → List ℕ → Bool) (payments : List Payment) where
  abbrev pub is_paid_by : List PaymentMethod → Order → Bool
  is_paid_by methods o =
      any
        (λ p.
          p.order_id == o.id
          && (payment_status_eq p.status PaymentStatus.succeeded && is_method_in methods p.method))
        payments

  abbrev pub matches_text : Order → List ℕ → Bool
  matches_text o q =
      holds_of o.order_number (λ n. list_eq n q)
      || holds_of o.customer_name (λ n. ilike n (escape_like_prefix q ++ (37 ∷ [])))

  -- `from` and `to` only count together.
  abbrev pub is_in_window : Option ℕ → Option ℕ → ℕ → Bool
  is_in_window none to at = true
  is_in_window (some from) none at = true
  is_in_window (some from) (some to) at = leb (from * 1000) at && leb at (to * 1000)

  -- `filters`, all of them.
  unfoldable pub passes_filters : OrdersQuery → StoredOrder → Bool
  passes_filters query o =
      clause query.status (λ s. includes_order_status s o.row.status)
      && (clause query.channel (λ cs. any (λ c. order_channel_eq c o.row.channel) cs)
          && (clause query.method (λ ms. is_paid_by ms o.row)
              && (clause query.business_day (λ d. o.row.business_day == d)
                  && (is_in_window query.from query.to o.created_at_us
                      && clause query.q (λ q. matches_text o.row q)))))

  abbrev pub page_past : OrdersQuery → List StoredOrder → Option Cursor → Option OrderPage
  page_past query table none = none
  page_past query table (some c) = some (
      page_of query.by query.limit
        (select (λ o. passes_filters query o && is_past_cursor query.by c o) table))

  -- `list`; nothing is a cursor that is refused.
  abbrev pub list_orders : OrdersQuery → List StoredOrder → Option OrderPage
  list_orders query table = list_from query.cursor
    where
      list_from : Option RawCursor → Option OrderPage
      list_from none = some (page_of query.by query.limit (select (passes_filters query) table))
      list_from (some raw) = page_past query table (decode_cursor query.by raw)
