-- ===== src/Tests.antt =====
-- Concrete stores, baskets and requests, and what the theorems say of them.
use cafe_pos.Schema.Enums.{UserRole, PaymentMethod, OrderChannel}
use cafe_pos.Prelude.Int.{pos}
use cafe_pos.Tx.{DomainEvent}
use cafe_pos.Orders.Create.{CreateOrderInput, OrderEnv, MenuItemRow}
use cafe_pos.Schema.Rows.{Label}
use cafe_pos.Orders.Pricing.{CatalogOptionGroup, RequestedItem}
use cafe_pos.Payments.Provider.{PaymentProvider, replied, intent_cancelled, GatewayOutcome}
use cafe_pos.Identity.Principal.{Principal}
pub mod Identity
pub mod Reports
pub mod Gateway
pub mod Lists
pub mod Histories
pub mod Orders
pub mod Payments
use cafe_pos.Prelude.{[], ◌∷◌, true, false, some, none, List, Option, if◌then◌else◌, Bool, ◌==◌}

abbrev pub cashier : Principal
cashier = Principal.staff 7 UserRole.cashier 70

-- A gateway that opens intent 50, whose events 60 and 61 say that it captured 235 THB (764) for it
-- and that it declined it.
abbrev pub gateway : PaymentProvider
gateway = record {
  create_intent = λ _. replied (record { intent_id = 50; client_secret = 51 });
  cancel_intent = λ _. intent_cancelled;
  client_secret_for = λ _. replied 51;
  interpret = λ payload.
      if payload == 60
      then GatewayOutcome.succeeded 50 235 764
      else (if payload == 61 then GatewayOutcome.failed 50 none else GatewayOutcome.ignored);
  resolve_method = λ _. some PaymentMethod.promptpay;
}

abbrev pub takes_all : List DomainEvent → Bool
takes_all _ = true

abbrev sizes : CatalogOptionGroup
sizes = record {
  id = 20;
  name = 21;
  min_select = 1;
  max_select = 1;
  options =
      record { id = 22; name = 23; price_delta_minor = pos 15; is_available = true }
      ∷ record { id = 24; name = 25; price_delta_minor = pos 0; is_available = true }
      ∷ [];
}

abbrev pub menu : Label → Option MenuItemRow
menu i =
    if i == 10
    then some (record {
      id = 10;
      name = 11;
      base_price_minor = pos 110;
      is_available = true;
      category_is_active = true;
      option_groups = sizes ∷ [];
    })
    else (if i == 12
        then some (record {
          id = 12;
          name = 13;
          base_price_minor = pos 110;
          is_available = true;
          category_is_active = true;
          option_groups = [];
        })
        else none)

abbrev pub basket : List RequestedItem
basket =
    record { menu_item_id = 10; quantity = 1; option_ids = 22 ∷ []; notes = none }
    ∷ record { menu_item_id = 12; quantity = 1; option_ids = []; notes = none }
    ∷ []

abbrev pub env_at : Label → OrderEnv
env_at order_id = record {
  now = 1000;
  today = 20260105;
  vat_basis_points = 700;
  order_expiry_seconds = 900;
  currency = 764;
  menu = menu;
  device_status = λ _. none;
  order_id = order_id;
  item_id = λ n. n;
}

abbrev pub order_input : CreateOrderInput
order_input = record {
  channel = OrderChannel.counter;
  items = basket;
  customer_name = none;
  expected_total_minor = some 235;
  draft = false;
}
