-- ===== src/Dashboard/Status/Laws.antt =====
-- What the page says of the engine after an outage, and what the card of the active proxy lets in.
use proxy_redirector.Prelude.{
  ℕ, ◌≡◌, refl, ap, ◌∙◌, false, Option, none, some, List, [], ◌∷◌, ◌++◌, All, arith,
}
use proxy_redirector.Text.{Text, codes, or_text}
use proxy_redirector.Dashboard.Escape.Laws.{IsInert}
use proxy_redirector.Dashboard.PoolBar.{PoolBar, render_pool_bar}
use proxy_redirector.Dashboard.Status.{
  ActiveProxy, StatusReply, Status, card_of, render_active_proxy, set_bar, fetch_status,
}

-- The answers of the status, one after the other.
abbrev pub fetch_all : List (Option StatusReply) → Status → Status
fetch_all [] s = s
fetch_all (r ∷ rs) s = fetch_all rs (fetch_status r s)

set_bar-keeps :
    (b : Option PoolBar) (s : Status)
    → ((set_bar b s).words ≡ s.words) × ((set_bar b s).orb_offline ≡ s.orb_offline)
set_bar-keeps none s = (refl, refl)
set_bar-keeps (some b) s = (refl, refl)

render_active_proxy-keeps :
    (a : Option ActiveProxy) (s : Status)
    → ((render_active_proxy a s).words ≡ s.words)
      × ((render_active_proxy a s).orb_offline ≡ s.orb_offline)
unfolding render_active_proxy
render_active_proxy-keeps none s = (refl, refl)
render_active_proxy-keeps (some a) s = ground arith

-- An answer changes the sign of the engine, and not the words.
fetch_status-some :
    (r : StatusReply) (s : Status)
    → ((fetch_status (some r) s).words ≡ s.words) × ((fetch_status (some r) s).orb_offline ≡ false)
unfolding fetch_status
fetch_status-some r s =
    ground (arith, set_bar-keeps (render_pool_bar r.pool), render_active_proxy-keeps r.active)

fetch_status-offline :
    (r : Option StatusReply) (s : Status)
    → s.words.online ≡ false
    → (fetch_status r s).words.online ≡ false
unfolding fetch_status
fetch_status-offline none s h = refl
fetch_status-offline (some r) s h = ap (λ w. w.online) (fetch_status-some r s).0 ∙ h

stays_offline :
    (rs : List (Option StatusReply)) (r : StatusReply) (s : Status)
    → s.words.online ≡ false
    → let s' = fetch_all (rs ++ some r ∷ []) s in
      (s'.words.online ≡ false) × (s'.orb_offline ≡ false)
stays_offline [] r s h = (fetch_status-offline (some r) s h, (fetch_status-some r s).1)
stays_offline (q ∷ rs) r s h = stays_offline rs r (fetch_status q s) (fetch_status-offline q s h)

-- After one request of the status that fails, whatever answers follow and an answer last, the words
-- still say that the engine is offline, while the sign beside them says that it is not.
pub offline_words_stay :
    (rs : List (Option StatusReply)) (r : StatusReply) (s : Status)
    → let s' = fetch_all (none ∷ rs ++ some r ∷ []) s in
      (s'.words.online ≡ false) × (s'.orb_offline ≡ false)
unfolding fetch_status
offline_words_stay rs r s = stays_offline rs r (fetch_status none s) refl

All-prefix : (P : ℕ → Type 0) (xs ys : Text) → All P (xs ++ ys) → All P xs
All-prefix P [] ys h = tt
All-prefix P (x ∷ xs) ys h = (h.0, All-prefix P xs ys h.1)

-- A country with a character that can open a tag or end an attribute is put into the card of the
-- active proxy as it is.
pub card_of-raw : (a : ActiveProxy) → ¬ All IsInert a.country → ¬ All IsInert (card_of a).location
unfolding card_of
card_of-raw a raw h = raw (by_country a.country (All-prefix IsInert _ _ h))
  where
    by_country : (c : Text) → All IsInert (or_text c (codes "Unknown")) → All IsInert c
    by_country [] h = tt
    by_country (x ∷ c) h = h
