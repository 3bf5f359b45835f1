-- ===== src/Tests/Orders.antt =====
-- Orders: the basket, the status machine, the queue numbers, the keys.
use cafe_pos.Orders.Status.Route.{change_status_decides}
use cafe_pos.Orders.Status.{change_status, status_request, status_event}
use cafe_pos.Orders.Summary.{OrderSummary}
use cafe_pos.Orders.Idempotency.Key.{
  parse_idempotency_key, all_key_chars, trim, accepted, trim_start, parse_idempotency_key_accepts,
  trim_end, is_space, is_key_char,
}
use cafe_pos.Orders.Pricing.Acceptance.{IsAcceptable, price_order_accepts_iff}
use cafe_pos.Orders.Pricing.Refusals.{price_order_refusals, IsSelectable, NamesExactly}
use cafe_pos.Orders.Pricing.Unavailable.{lacks_item, lacks_option}
use cafe_pos.Orders.Transition.Guard.{double_tap, Moved}
use cafe_pos.Orders.Number.{format_order_number, counter_of}
use cafe_pos.Orders.Create.{read_catalog}
use cafe_pos.Orders.State.Lifecycle.{money_needs_paid, Life, Life-bounded, move, rest}
use cafe_pos.System.Safety.{empty_store}
use cafe_pos.Orders.Number.Decimal.{format_order_number_injective}
use cafe_pos.Orders.Pricing.Money.{basket_price, price_order_charges, extract_vat_nearest}
use cafe_pos.Prelude.Int.{pos}
use cafe_pos.Tests.{basket, menu, cashier}
use cafe_pos.Orders.Transition.{
  TransitionRequest, transition_order, move_order, moved, is_lost_race,
}
use cafe_pos.Tx.{
  Session, OptionSelectionViolation, err, min_select, ok, order_invalid_transition,
  duplicate_option, unknown_option, option_selection_invalid, order_item_unavailable,
}
use cafe_pos.Schema.Rows.{Order, Label}
use cafe_pos.Orders.State.{is_legal_transition, is_staff_transition, order_transitions}
use cafe_pos.Orders.Number.Gapless.{handed_to, range_from, claims, numbers_gapless}
use cafe_pos.Orders.Pricing.{
  PricedOrder, price_order, price_resolved, RequestedItem, extract_vat, all_violations,
  validate_selections, bound_violations, resolve_line, select_options, select_option,
  unavailable_items, unavailable_options, price_lines,
}
use cafe_pos.Prelude.{
  [], ◌∷◌, true, false, some, none, inl, inr, ◌≡◌, List, ◌*◌, length, ◌≤◌, ◌⊎◌, ◌+◌, map, ◌↔◌, refl,
  ◌<◌, All, ℕ, ◌≢◌, if◌then◌else◌, Option, ◌==◌, ◌++◌,
}
use cafe_pos.Schema.Enums.{
  OrderStatus, OrderChannel, ActorType, includes_order_status, order_status_eq,
}

price_order_accepts_iff_example :
    ((r : PricedOrder) × (price_order basket (read_catalog menu) 700 ≡ ok r))
    ↔ All (IsAcceptable (read_catalog menu)) basket
price_order_accepts_iff_example = price_order_accepts_iff basket (read_catalog menu) 700

abbrev pub priced_basket : PricedOrder
priced_basket = record {
  lines =
      record {
        menu_item_id = 10;
        name_snapshot = 11;
        unit_price_minor_snapshot = 125;
        quantity = 1;
        line_total_minor = 125;
        notes = none;
        options =
            record {
              option_id = 22;
              group_name_snapshot = 21;
              option_name_snapshot = 23;
              price_delta_minor_snapshot = pos 15;
            }
            ∷ [];
      }
      ∷ record {
        menu_item_id = 12;
        name_snapshot = 13;
        unit_price_minor_snapshot = 110;
        quantity = 1;
        line_total_minor = 110;
        notes = none;
        options = [];
      }
      ∷ [];
  subtotal_minor = 235;
  vat_minor = 15;
  total_minor = 235;
}

basket_priced : price_order basket (read_catalog menu) 700 ≡ ok priced_basket
unfolding price_order price_resolved all_violations validate_selections bound_violations
    resolve_line select_options select_option unavailable_items unavailable_options price_lines
    extract_vat cafe_pos.Prelude.Int.◌+ℤ◌
basket_priced = refl

price_order_charges_example :
    (priced_basket.total_minor ≡ basket_price (read_catalog menu) basket)
    × (priced_basket.subtotal_minor ≡ priced_basket.total_minor)
    × (priced_basket.vat_minor ≡ extract_vat (basket_price (read_catalog menu) basket) 700)
    × (priced_basket.vat_minor ≤ priced_basket.total_minor)
price_order_charges_example =
    price_order_charges basket (read_catalog menu) 700 priced_basket basket_priced

-- The size is not chosen, an option is named twice, another is not on the menu.
abbrev bad_basket : List RequestedItem
bad_basket =
    record { menu_item_id = 10; quantity = 1; option_ids = []; notes = none }
    ∷ record { menu_item_id = 12; quantity = 1; option_ids = 99 ∷ 99 ∷ []; notes = none }
    ∷ []

abbrev bad_violations : List OptionSelectionViolation
bad_violations =
    min_select 0 20 21 0 1 1 ∷ duplicate_option 1 (99 ∷ []) ∷ unknown_option 1 (99 ∷ []) ∷ []

bad_basket_refused :
    price_order bad_basket (read_catalog menu) 700 ≡ err (option_selection_invalid bad_violations)
unfolding price_order price_resolved all_violations validate_selections bound_violations
    resolve_line select_options select_option
bad_basket_refused = refl

extract_vat_nearest_example :
    (2 * (extract_vat 235 700 * (10000 + 700)) ≤ 2 * (235 * 700) + (10000 + 700))
    × (2 * (235 * 700) < 2 * (extract_vat 235 700 * (10000 + 700)) + (10000 + 700))
    × (extract_vat 235 700 ≤ 235)
extract_vat_nearest_example = extract_vat_nearest 235 700

abbrev seventh : ℕ
seventh = 7

format_order_number_injective_example : seventh ≡ 7
format_order_number_injective_example = format_order_number_injective seventh 7 refl

numbers_gapless_example :
    handed_to 1 (1 ∷ 2 ∷ 1 ∷ []) empty_store
    ≡ map format_order_number
        (range_from (counter_of 1 empty_store.counters) (claims 1 (1 ∷ 2 ∷ 1 ∷ [])))
numbers_gapless_example = numbers_gapless 1 (1 ∷ 2 ∷ 1 ∷ []) empty_store

abbrev served : List OrderStatus
served = OrderStatus.paid ∷ OrderStatus.in_preparation ∷ []

a-Life : Life OrderStatus.pending_payment OrderStatus.in_preparation served
unfolding is_legal_transition order_transitions order_status_eq
a-Life = move OrderStatus.paid refl (move OrderStatus.in_preparation refl rest)

Life-bounded_example : length served ≤ 6
Life-bounded_example = Life-bounded a-Life

money_needs_paid_example : includes_order_status served OrderStatus.paid ≡ true
money_needs_paid_example = money_needs_paid a-Life (inr refl) refl

prepares : is_staff_transition OrderStatus.paid OrderStatus.in_preparation ≡ true
unfolding is_staff_transition order_status_eq
prepares = refl

-- An order that waits for its payment.
abbrev pub waiting : Order
waiting = record {
  id = 1;
  order_number = some (b'A' ∷ []);
  business_day = 20260105;
  channel = OrderChannel.counter;
  status = OrderStatus.pending_payment;
  kiosk_device_id = none;
  created_by_user_id = some 7;
  customer_name = none;
  subtotal_minor = 235;
  vat_minor = 15;
  total_minor = 235;
  currency = 764;
  expires_at = some 900000;
  created_at = 1000;
}

abbrev pub one_order : Session
one_order = record { db = record empty_store { orders = waiting ∷ [] }; pending = [] }

abbrev request : OrderStatus → TransitionRequest
request to = record {
  order_id = 1;
  from = OrderStatus.pending_payment;
  to = to;
  actor = record { actor_type = ActorType.system; actor_id = none };
  reason = none;
}

abbrev after_payment : Session
after_payment = record one_order { db = move_order (request OrderStatus.paid) one_order.db }

first_tap :
    transition_order (request OrderStatus.paid) one_order
    ≡ ok (moved (request OrderStatus.paid) waiting, after_payment)
unfolding transition_order order_status_eq
first_tap = refl

double_tap_example :
    (transition_order (request OrderStatus.expired) after_payment
      ≡ err (order_invalid_transition OrderStatus.paid OrderStatus.expired))
    × (is_lost_race (order_invalid_transition OrderStatus.paid OrderStatus.expired) ≡ true)
double_tap_example =
    double_tap (request OrderStatus.paid) (request OrderStatus.expired) one_order after_payment
      (moved (request OrderStatus.paid) waiting) (refl, tt) refl refl (λ e. cc) first_tap

price_order_refusals_example :
    let refused = option_selection_invalid bad_violations in
    ((violations : List OptionSelectionViolation) × (refused ≡ option_selection_invalid violations)
      × (violations ≢ [])
      × ¬ All (IsSelectable (read_catalog menu)) bad_basket)
    ⊎ ((items : List Label) × (options : List Label) × (refused
          ≡ order_item_unavailable items options)
        × All (IsSelectable (read_catalog menu)) bad_basket
        × NamesExactly (lacks_item (read_catalog menu)) bad_basket items
        × NamesExactly (lacks_option (read_catalog menu)) bad_basket options)
price_order_refusals_example =
    price_order_refusals bad_basket (read_catalog menu) 700
      (option_selection_invalid bad_violations) bad_basket_refused

abbrev a_key : List ℕ
a_key = b'k' ∷ b'e' ∷ b'y' ∷ b'-' ∷ b'0' ∷ b'0' ∷ b'0' ∷ b'1' ∷ []

a_key_accepted : parse_idempotency_key (some (32 ∷ a_key)) ≡ accepted a_key
unfolding parse_idempotency_key trim trim_start trim_end is_space all_key_chars is_key_char
a_key_accepted = refl

parse_idempotency_key_accepts_example :
    (8 ≤ length a_key)
    × (length a_key ≤ 128)
    × (all_key_chars a_key ≡ true)
    × (parse_idempotency_key (some a_key) ≡ accepted a_key)
parse_idempotency_key_accepts_example =
    parse_idempotency_key_accepts (32 ∷ a_key) a_key a_key_accepted

change_status_decides_example :
    (is_staff_transition OrderStatus.pending_payment OrderStatus.ready ≡ true
      → (summary : OrderSummary) × (t : Session) × (device : Option Label) × (change_status cashier
            1 OrderStatus.ready one_order
          ≡ ok (summary, t))
        × (summary.status ≡ OrderStatus.ready)
        × Moved
            (status_request cashier 1 OrderStatus.pending_payment OrderStatus.ready)
            one_order.db
            t.db
        × (t.pending ≡ one_order.pending ++ (status_event OrderStatus.ready 1 device ∷ [])))
    × (is_staff_transition OrderStatus.pending_payment OrderStatus.ready ≡ false
        → change_status cashier 1 OrderStatus.ready one_order
          ≡ err (order_invalid_transition OrderStatus.pending_payment OrderStatus.ready))
change_status_decides_example =
    change_status_decides cashier 1 OrderStatus.pending_payment OrderStatus.ready one_order
      (refl, tt) refl
