-- ===== src/Schema/Constraints.antt =====
-- The unique constraints of src/database/schema/orders.ts and payments.ts that the modelled
-- writes can meet: an insert or update that would break one fails.
use cafe_pos.Prelude.{Bool, false, ◌&&◌, ◌||◌, Option, none, some, List, ◌==◌, any, list_eq, ℕ}
use cafe_pos.Schema.Rows.{Order, Payment, Label}
use cafe_pos.Schema.Store.{is_live}

-- Postgres does not compare NULLs: any number of drafts share a day.
abbrev same_number : Option (List ℕ) → Option (List ℕ) → Bool
same_number none _ = false
same_number (some _) none = false
same_number (some a) (some b) = list_eq a b

-- `orders_business_day_number_unique`, between two rows.
abbrev pub numbers_clash : Order → Order → Bool
numbers_clash a b = a.business_day == b.business_day && same_number a.order_number b.order_number

-- A new order is refused for its primary key or its queue number.
abbrev pub order_conflicts : Order → List Order → Bool
order_conflicts o os = any (λ x. x.id == o.id || numbers_clash x o) os

abbrev same_text : Option Label → Option Label → Bool
same_text none _ = false
same_text (some _) none = false
same_text (some a) (some b) = a == b

-- A new payment is refused for its primary key, its intent, its key, or, by `one_live_payment`, for
-- a live payment of the same order.
abbrev payments_clash : Payment → Payment → Bool
payments_clash x p =
    x.id == p.id
    || same_text x.provider_intent_id p.provider_intent_id
    || same_text x.idempotency_key p.idempotency_key
    || (x.order_id == p.order_id && (is_live x.status && is_live p.status))

abbrev pub payment_conflicts : Payment → List Payment → Bool
payment_conflicts p ps = any (λ x. payments_clash x p) ps
