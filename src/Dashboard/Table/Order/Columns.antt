-- ===== src/Dashboard/Table/Order/Columns.antt =====
-- What the columns of the table sort by, said of the fields of an item one by one.
use proxy_redirector.Prelude.{
  ℕ, ◌≤◌, ◌≡◌, ◌≢◌, ◌⊎◌, refl, false, ◌||◌, ◌++◌, Option, none, some, List, [], ◌∷◌, arith, All,
  or_number, ◌==◌, ap, if◌then◌else◌, Bool-cases, inl, inr,
}
use mathlib.Core.List.{Perm}
use proxy_redirector.Prelude.Sorting.{IsSorted}
use proxy_redirector.Text.{codes, decimal, to_lower, text_lt}
use proxy_redirector.Dashboard.Items.{
  Item, Proxy, Status, empty_status, proxy_of, status_of, endpoint, is_alive,
}
use proxy_redirector.Dashboard.Table.Order.{
  Column, Direction, asc, desc, Key, text, number, key_lt, sort_key, after, sorted_items,
  endpoint_column, type_column, country_column, alive_column, latency_column, score_column,
  fails_column, other,
}
use proxy_redirector.Dashboard.Table.Order.Laws.{
  SameKind, sort_key-SameKind, after-asc, after-desc, sorted_items-perm, sorted_items_in_order,
}

-- The proxy of an item: its field, or the item itself.
abbrev IsProxy : Item → Proxy → Type 0
IsProxy item p = (item.proxy ≡ some p) ⊎ ((item.proxy ≡ none) × (p ≡ item.own))

-- The status of an item; where there is none, its fields are falsy.
abbrev IsStatus : Item → Status → Type 0
IsStatus item s =
    (item.status ≡ some s)
    ⊎ ((item.status ≡ none)
        × (s.alive ≡ false)
        × (s.response_time_ms ≡ 0)
        × (s.score ≡ 0)
        × (s.consecutive_failures ≡ 0))

-- The first of two numbers that is not 0, or else the third.
abbrev IsFirst : ℕ → ℕ → ℕ → ℕ → Type 0
IsFirst a b d n =
    ((a ≢ 0) × (n ≡ a)) ⊎ ((a ≡ 0) × (b ≢ 0) × (n ≡ b)) ⊎ ((a ≡ 0) × (b ≡ 0) × (n ≡ d))

-- What an item has in a column: for the latency the time of the last check, or else the ping of the
-- proxy, or else 99999; for the score that of the item, or else that of its status.
pub HasKey : Column → Item → Key → Type 0
HasKey endpoint_column item k =
    (p : Proxy) × IsProxy item p × (k ≡ text (p.ip ++ codes ":" ++ decimal p.port))
HasKey type_column item k = (p : Proxy) × IsProxy item p × (k ≡ text (to_lower p.type))
HasKey country_column item k = (p : Proxy) × IsProxy item p × (k ≡ text (to_lower p.country))
HasKey alive_column item k =
    (p : Proxy) × (s : Status) × IsProxy item p
    × IsStatus item s
    × (k ≡ number (if s.alive || p.alive then 1 else 0))
HasKey latency_column item k =
    (p : Proxy) × (s : Status) × (n : ℕ) × IsProxy item p
    × IsStatus item s
    × IsFirst s.response_time_ms p.ping 99999 n
    × (k ≡ number n)
HasKey score_column item k =
    (s : Status) × (n : ℕ) × IsStatus item s × IsFirst item.score s.score 0 n × (k ≡ number n)
HasKey fails_column item k = (s : Status) × IsStatus item s × (k ≡ number s.consecutive_failures)
HasKey other item k = k ≡ number 0

-- Two keys of neighbours that may stand so: no greater number, and no later text, comes first.
abbrev AtMost : Key → Key → Type 0
AtMost (text a) (text b) = text_lt b a ≡ false
AtMost (number a) (number b) = a ≤ b
AtMost _ _ = ⊥

abbrev Follows : Direction → Key → Key → Type 0
Follows asc k l = AtMost k l
Follows desc k l = AtMost l k

-- Two items in the order of a column.
pub InOrder : Column → Direction → Item → Item → Type 0
InOrder c d x y = (k : Key) × (l : Key) × HasKey c x k × HasKey c y l × Follows d k l

-- Every item stands in the order with all that follow it.
abbrev pub AllInOrder : Column → Direction → List Item → Type 0
AllInOrder c d [] = Unit
AllInOrder c d (x ∷ xs) = All (InOrder c d x) xs × AllInOrder c d xs

proxy_of-IsProxy : (item : Item) → IsProxy item (proxy_of item)
unfolding proxy_of
proxy_of-IsProxy item = by_field item.proxy refl
  where
    by_field :
        (o : Option Proxy) → item.proxy ≡ o → IsProxy item (elim o [ none ↦ item.own | some p ↦ p ])
    by_field none e = inr (e, refl)
    by_field (some p) e = inl e

status_of-IsStatus : (item : Item) → IsStatus item (status_of item)
unfolding status_of
status_of-IsStatus item = by_field item.status refl
  where
    by_field :
        (o : Option Status)
        → item.status ≡ o
        → IsStatus item (elim o [ none ↦ empty_status | some s ↦ s ])
    by_field none e = inr (e, refl, refl, refl, refl)
    by_field (some s) e = inl e

or_number-IsFirst : (a b d : ℕ) → IsFirst a b d (or_number a (or_number b d))
or_number-IsFirst a b d = elim (Bool-cases (a == 0)) [
  | inl e ↦ elim (Bool-cases (b == 0)) [
    | inl f ↦ inr (inr (ground arith, ground arith, ground arith))
    | inr f ↦ inr (inl (ground arith, λ h. ground arith, ground arith))
  ]
  | inr e ↦ inl (λ h. ground arith, ground arith)
]

or_number_zero : (n : ℕ) → or_number n 0 ≡ n
or_number_zero n = ground arith

sort_key-HasKey : (c : Column) (item : Item) → HasKey c item (sort_key c item)
unfolding sort_key HasKey endpoint is_alive
sort_key-HasKey endpoint_column item = (proxy_of item, proxy_of-IsProxy item, refl)
sort_key-HasKey type_column item = (proxy_of item, proxy_of-IsProxy item, refl)
sort_key-HasKey country_column item = (proxy_of item, proxy_of-IsProxy item, refl)
sort_key-HasKey alive_column item =
    (proxy_of item, status_of item, proxy_of-IsProxy item, status_of-IsStatus item, refl)
sort_key-HasKey latency_column item = (
  proxy_of item,
  status_of item,
  or_number (status_of item).response_time_ms (or_number (proxy_of item).ping 99999),
  proxy_of-IsProxy item,
  status_of-IsStatus item,
  or_number-IsFirst (status_of item).response_time_ms (proxy_of item).ping 99999,
  refl,
)
sort_key-HasKey score_column item = (
  status_of item,
  or_number item.score (or_number (status_of item).score 0),
  status_of-IsStatus item,
  or_number-IsFirst item.score (status_of item).score 0,
  refl,
)
sort_key-HasKey fails_column item = (
  status_of item,
  status_of-IsStatus item,
  ap number (or_number_zero (status_of item).consecutive_failures),
)
sort_key-HasKey other item = refl

not_less : (k l : Key) → SameKind k l → key_lt l k ≡ false → AtMost k l
not_less (text a) (text b) s h = h
not_less (number a) (number b) s h = ground arith
not_less (text a) (number b) s h = absurd s
not_less (number a) (text b) s h = absurd s

after-InOrder : (c : Column) (d : Direction) (x y : Item) → after c d x y ≡ false → InOrder c d x y
unfolding InOrder
after-InOrder c asc x y h = (
  sort_key c x,
  sort_key c y,
  sort_key-HasKey c x,
  sort_key-HasKey c y,
  not_less (sort_key c x) (sort_key c y) (sort_key-SameKind c x y) (rw after-asc at h),
)
after-InOrder c desc x y h = (
  sort_key c x,
  sort_key c y,
  sort_key-HasKey c x,
  sort_key-HasKey c y,
  not_less (sort_key c y) (sort_key c x) (sort_key-SameKind c y x) (rw after-desc at h),
)

IsSorted-AllInOrder :
    (c : Column) (d : Direction) (xs : List Item) → IsSorted (after c d) xs → AllInOrder c d xs
IsSorted-AllInOrder c d [] h = tt
IsSorted-AllInOrder c d (x ∷ xs) h = (each xs h.0, IsSorted-AllInOrder c d xs h.1)
  where
    each : (ys : List Item) → All (λ y. after c d x y ≡ false) ys → All (InOrder c d x) ys
    each [] k = tt
    each (y ∷ ys) k = (after-InOrder c d x y k.0, each ys k.1)

-- Sorting by a column keeps every item as often as it was there, and puts them in the order of what
-- they have in that column, upwards or downwards, the missing latencies as 99999.
pub sorted_items-IsSorted :
    (c : Column) (d : Direction) (items : List Item)
    → Perm (sorted_items (some c) d items) items × AllInOrder c d (sorted_items (some c) d items)
sorted_items-IsSorted c d items = (
  sorted_items-perm (some c) d items,
  IsSorted-AllInOrder c d (sorted_items (some c) d items) (sorted_items_in_order c d items),
)
