-- ===== src/Dashboard/Table/Order/Laws.antt =====
-- The rows are in the order of the chosen column, and no row is lost.
use mathlib.Core.List.{Perm}
use mathlib.Core.List.Perm
use proxy_redirector.Prelude.{◌≡◌, refl, true, false, Option, none, some, List, arith, length}
use proxy_redirector.Prelude.Sorting.{IsOrder, IsSorted, sort-perm, sort-IsSorted, length-sort}
use proxy_redirector.Text.Laws.{text_lt_asymm, text_lt_trans}
use proxy_redirector.Dashboard.Items.{Item}
use proxy_redirector.Dashboard.Table.Order.{
  Column, Direction, asc, desc, Key, text, number, key_lt, sort_key, after, sorted_items, Sorting,
  click_header, flip, endpoint_column, type_column, country_column, alive_column, latency_column,
  score_column, fails_column, other, same_column,
}

-- Keys of one column are all texts or all numbers.
abbrev pub SameKind : Key → Key → Type 0
SameKind (text a) (text b) = Unit
SameKind (number a) (number b) = Unit
SameKind _ _ = ⊥

pub sort_key-SameKind : (c : Column) (a b : Item) → SameKind (sort_key c a) (sort_key c b)
unfolding sort_key
sort_key-SameKind endpoint_column a b = tt
sort_key-SameKind type_column a b = tt
sort_key-SameKind country_column a b = tt
sort_key-SameKind alive_column a b = tt
sort_key-SameKind latency_column a b = tt
sort_key-SameKind score_column a b = tt
sort_key-SameKind fails_column a b = tt
sort_key-SameKind other a b = tt

key_lt_asymm : (a b : Key) → key_lt a b ≡ true → key_lt b a ≡ false
key_lt_asymm (text a) (text b) h = text_lt_asymm a b h
key_lt_asymm (text a) (number b) h = refl
key_lt_asymm (number a) (text b) h = refl
key_lt_asymm (number a) (number b) h = ground arith

key_lt_trans :
    (a b c : Key)
    → SameKind a b
    → SameKind b c
    → key_lt b a ≡ false
    → key_lt c b ≡ false
    → key_lt c a ≡ false
key_lt_trans (text a) (text b) (text c) s t h k = text_lt_trans a b c h k
key_lt_trans (number a) (number b) (number c) s t h k = ground arith
key_lt_trans (text a) (number b) c s t h k = absurd s
key_lt_trans (number a) (text b) c s t h k = absurd s
key_lt_trans (text a) (text b) (number c) s t h k = absurd t
key_lt_trans (number a) (number b) (text c) s t h k = absurd t

-- `a` is not after `b` exactly if the key of `b` is not less.
pub after-asc : (c : Column) (a b : Item) → after c asc a b ≡ key_lt (sort_key c b) (sort_key c a)
unfolding after
after-asc c a b = ground (arith, key_lt_asymm (sort_key c a) (sort_key c b))

pub after-desc : (c : Column) (a b : Item) → after c desc a b ≡ key_lt (sort_key c a) (sort_key c b)
unfolding after
after-desc c a b = refl

after-IsOrder : (c : Column) (d : Direction) → IsOrder (after c d)
after-IsOrder c asc = record {
  asymm = λ x y h. rw after-asc (key_lt_asymm (sort_key c y) (sort_key c x) (rw after-asc at h));
  trans = λ x y z h k. rw after-asc (
      key_lt_trans (sort_key c x) (sort_key c y) (sort_key c z) (sort_key-SameKind c x y)
        (sort_key-SameKind c y z) (rw after-asc at h) (rw after-asc at k));
}
after-IsOrder c desc = record {
  asymm = λ x y h. rw after-desc (key_lt_asymm (sort_key c x) (sort_key c y) (rw after-desc at h));
  trans = λ x y z h k. rw after-desc (
      key_lt_trans (sort_key c z) (sort_key c y) (sort_key c x) (sort_key-SameKind c z y)
        (sort_key-SameKind c y x) (rw after-desc at k) (rw after-desc at h));
}

-- In the sorted list no item belongs after one that follows it.
pub sorted_items_in_order :
    (c : Column) (d : Direction) (items : List Item)
    → IsSorted (after c d) (sorted_items (some c) d items)
unfolding sorted_items
sorted_items_in_order c d items = sort-IsSorted (after c d) (after-IsOrder c d) items

pub sorted_items-perm :
    (c : Option Column) (d : Direction) (items : List Item) → Perm (sorted_items c d items) items
unfolding sorted_items
sorted_items-perm none d items = Perm.refl items
sorted_items-perm (some c) d items = sort-perm (after c d) items

pub length-sorted_items :
    (c : Option Column) (d : Direction) (items : List Item)
    → length (sorted_items c d items) ≡ length items
unfolding sorted_items
length-sorted_items none d items = refl
length-sorted_items (some c) d items = length-sort (after c d) items

-- A row that is after another in one direction is before it in the other.
after-flip : (c : Column) (d : Direction) (a b : Item) → after c (flip d) a b ≡ after c d b a
after-flip c asc a b = rw (after-desc, after-asc)
after-flip c desc a b = rw (after-desc, after-asc)

same_column_self : (c : Column) → same_column c c ≡ true
same_column_self endpoint_column = refl
same_column_self type_column = refl
same_column_self country_column = refl
same_column_self alive_column = refl
same_column_self latency_column = refl
same_column_self score_column = refl
same_column_self fails_column = refl
same_column_self other = refl

same_column→eq : (a b : Column) → same_column a b ≡ true → a ≡ b
same_column→eq a b h = ground arith

click_header-column : (c : Column) (s : Sorting) → (click_header c s).column ≡ some c
unfolding click_header
click_header-column c s = by_column s.column s.direction
  where
    by_column :
        (o : Option Column) (d : Direction)
        → (click_header c (record { column = o; direction = d })).column ≡ some c
    by_column none d = refl
    by_column (some x) d = ground (arith, same_column→eq x c)

click_header_again :
    (c : Column) (s : Sorting)
    → s.column ≡ some c
    → click_header c s ≡ record s { direction = flip s.direction }
unfolding click_header
click_header_again c s h = ground (arith, same_column_self c)

-- From any sorting, a click on a header selects its column, and one more click on it keeps the
-- column and turns the order of every pair of rows round.
pub click_header_twice :
    (c : Column) (s : Sorting) (a b : Item)
    → ((click_header c s).column ≡ some c)
      × ((click_header c (click_header c s)).column ≡ some c)
      × (after c (click_header c (click_header c s)).direction a b
          ≡ after c (click_header c s).direction b a)
click_header_twice c s a b =
    let first = click_header-column c s in
    (
      first,
      click_header-column c (click_header c s),
      rw (click_header_again c (click_header c s) first) (after-flip c _ a b),
    )
