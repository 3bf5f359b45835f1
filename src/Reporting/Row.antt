-- ===== src/Reporting/Row.antt =====
-- src/reporting/rollup/build-rollup-row.ts: the row of a business day from its parts.
use cafe_pos.Reporting.Groups.{add_to, in_group, total_of, stable_sort}
use cafe_pos.Reporting.Aggregate.{RollupItem, RollupParts, same_method}
use cafe_pos.Schema.Rows.{Label}
use cafe_pos.Schema.Enums.{OrderStatus, PaymentMethod, order_status_eq}
use cafe_pos.Prelude.{[], ◌∷◌, List, ℕ, Option, Bool, ltb, ◌||◌, ◌==◌, ◌&&◌}

pub record RollupRow : Type 0 where
  pub business_day : Label
  pub orders_completed : ℕ
  pub orders_refunded : ℕ
  pub orders_cancelled : ℕ
  pub orders_expired : ℕ
  pub orders_settled : ℕ
  pub revenue_minor : ℕ
  -- The key `none` is `UNKNOWN_METHOD`.
  pub revenue_by_method : List (Option PaymentMethod × ℕ)
  pub refunds_minor : ℕ
  pub vat_minor : ℕ
  pub top_items : List RollupItem

-- The loop over the parts: each is added to the bucket of its key.
abbrev pub add_buckets :
    List (Option PaymentMethod × ℕ)
    → List (Option PaymentMethod × ℕ)
    → List (Option PaymentMethod × ℕ)
add_buckets [] buckets = buckets
add_buckets ((method, total) ∷ parts) buckets =
    add_buckets parts (add_to same_method method total buckets)

module _ (locale_less : Label → Label → Bool) where
  -- `b.quantity - a.quantity || a.name.localeCompare(b.name)`.
  abbrev pub ranks_before : RollupItem → RollupItem → Bool
  ranks_before a b =
      ltb b.quantity a.quantity || (a.quantity == b.quantity && locale_less a.name b.name)

  unfoldable pub build_rollup_row : Label → RollupParts → RollupRow
  build_rollup_row day parts =
      let counts = λ (s : OrderStatus). in_group order_status_eq s parts.status_counts in
      let buckets = add_buckets parts.revenue_by_method [] in
      record {
        business_day = day;
        orders_completed = counts OrderStatus.completed;
        orders_refunded = counts OrderStatus.refunded;
        orders_cancelled = counts OrderStatus.cancelled;
        orders_expired = counts OrderStatus.expired;
        orders_settled = parts.orders_settled;
        revenue_minor = total_of buckets;
        revenue_by_method = buckets;
        refunds_minor = parts.refunds_minor;
        vat_minor = parts.vat_minor;
        top_items = stable_sort ranks_before parts.items;
      }
