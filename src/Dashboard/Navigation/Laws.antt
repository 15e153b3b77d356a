-- ===== src/Dashboard/Navigation/Laws.antt =====
-- One tab at a time; the language and the direction of the text agree; keys.
use proxy_redirector.Prelude.{
  ℕ, ◌-◌, ◌≡◌, ◌≢◌, ap, ◌&&◌, Option, none, some, arith, Bool-cases, inl, inr, leb, ◌==◌,
  if◌then◌else◌,
}
use proxy_redirector.Dashboard.Navigation.{
  Tab, devices, Focus, en, ar, ltr, rtl, Page, Press, escape, character, long_key, press,
  press_outside, press_in_field, switch_tab, open_shortcut, shortcut, focus_search,
  close_all_modals, apply_language, toggle_language, nothing,
}

-- The button and the content with the class `active` are those of the active tab, and the
-- direction of the text is that of the language, which is stored.
pub record IsConsistent (p : Page) : Type 0 where
  pub content : p.active_content ≡ some p.active_tab
  pub button : p.active_button ≡ some p.active_tab
  pub stored : p.stored_language ≡ p.language
  pub direction : p.direction ≡ elim p.language [ ar ↦ rtl | en ↦ ltr ]

-- A click on a navigation button, a key or the button of the language.
pub data Action : Type 0 where
  tab_click : Tab → Action
  key : Press → Action
  language_click : Action

abbrev pub act : Action → Page → Page
act (tab_click tab) p = switch_tab tab (some tab) p
act (key k) p = press k p
act language_click p = toggle_language p

switch_tab-IsConsistent :
    (tab : Tab) (p : Page) → IsConsistent p → IsConsistent (switch_tab tab (some tab) p)
unfolding switch_tab
switch_tab-IsConsistent tab p h = ground arith

open_shortcut-IsConsistent :
    (o : Option Tab) (p : Page) → IsConsistent p → IsConsistent (open_shortcut o p)
unfolding open_shortcut
open_shortcut-IsConsistent none p h = h
open_shortcut-IsConsistent (some tab) p h = switch_tab-IsConsistent tab p h

focus_search-IsConsistent : (p : Page) → IsConsistent p → IsConsistent (focus_search p)
unfolding focus_search
focus_search-IsConsistent p h = ground arith

-- A property that opening a tab by a shortcut and focusing a search keep, and that the focus and the
-- dialogs do not concern, is kept by every key.
module _ (P : Page → Type 0) (opens : (i : ℕ) (p : Page) → P p → P (open_shortcut (shortcut i) p))
    (focuses : (p : Page) → P p → P (focus_search p))
    (closes : (p : Page) → P p → P (close_all_modals (record p { focus = nothing }))) where
  press_outside_keeps : (k : Press) (p : Page) → P p → P (press_outside k p)
  unfolding press_outside
  press_outside_keeps escape p h = h
  press_outside_keeps long_key p h = h
  press_outside_keeps (character c) p h = elim (Bool-cases (leb b'1' c && leb c b'6')) [
    | inl e ↦ rw e (slash _ (opens (c - b'1') p h))
    | inr e ↦ rw e (slash p h)
  ]
    where
      slash : (q : Page) → P q → P (if c == b'/' then focus_search q else q)
      slash q k = elim (Bool-cases (c == b'/')) [ inl f ↦ rw f (focuses q k) | inr f ↦ rw f k ]

  press_in_field_keeps : (k : Press) (p : Page) → P p → P (press_in_field k p)
  unfolding press_in_field
  press_in_field_keeps escape p h = closes p h
  press_in_field_keeps (character c) p h = h
  press_in_field_keeps long_key p h = h

  press_keeps : (k : Press) (p : Page) → P p → P (press k p)
  unfolding press
  press_keeps k p h = by_focus p.focus
    where
      by_focus : (f : Focus) → P (elim f [ nothing ↦ press_outside k p | _ ↦ press_in_field k p ])
      by_focus nothing = press_outside_keeps k p h
      by_focus _ = press_in_field_keeps k p h

press-IsConsistent : (k : Press) (p : Page) → IsConsistent p → IsConsistent (press k p)
press-IsConsistent =
    press_keeps IsConsistent (λ i p h. open_shortcut-IsConsistent (shortcut i) p h)
      focus_search-IsConsistent
      λ p h.
        unfold close_all_modals in
        record {
          content = h.content;
          button = h.button;
          stored = h.stored;
          direction = h.direction;
        }

toggle_language-IsConsistent : (p : Page) → IsConsistent p → IsConsistent (toggle_language p)
unfolding toggle_language apply_language
toggle_language-IsConsistent p h = ground arith

-- Every click and every key keeps the page consistent.
pub act-IsConsistent : (a : Action) (p : Page) → IsConsistent p → IsConsistent (act a p)
act-IsConsistent (tab_click tab) p h = switch_tab-IsConsistent tab p h
act-IsConsistent (key k) p h = press-IsConsistent k p h
act-IsConsistent language_click p h = toggle_language-IsConsistent p h

-- While a field has the focus, a key neither changes the tab nor starts a request.
pub press_in_field_lem :
    (k : Press) (p : Page)
    → p.focus ≢ nothing
    → ((press k p).active_tab ≡ p.active_tab) × ((press k p).requests ≡ p.requests)
unfolding press press_in_field close_all_modals
press_in_field_lem k p h = ground arith

shortcut-ne-devices : (i : ℕ) → shortcut i ≢ some devices
unfolding shortcut
shortcut-ne-devices i = ground arith

open_shortcut-ne-devices :
    (i : ℕ) (p : Page)
    → p.active_tab ≢ devices
    → (open_shortcut (shortcut i) p).active_tab ≢ devices
open_shortcut-ne-devices i p h = by_tab (shortcut i) (shortcut-ne-devices i)
  where
    by_tab : (o : Option Tab) → o ≢ some devices → (open_shortcut o p).active_tab ≢ devices
    by_tab none ne = unfold open_shortcut in h
    by_tab (some tab) ne = unfold open_shortcut switch_tab in λ e. ne (ap some e)

focus_search_tab : (p : Page) → (focus_search p).active_tab ≡ p.active_tab
unfolding focus_search
focus_search_tab p = ground arith

-- No key opens the tab of the devices.
pub press-ne-devices :
    (k : Press) (p : Page) → p.active_tab ≢ devices → (press k p).active_tab ≢ devices
press-ne-devices =
    press_keeps (λ p. p.active_tab ≢ devices) open_shortcut-ne-devices
      (λ p h. rw focus_search_tab h) (λ p h. unfold close_all_modals in h)
