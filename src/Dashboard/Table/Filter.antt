-- ===== src/Dashboard/Table/Filter.antt =====
-- `filterProxiesTable` of engine/static/app.js: the query, the country and the quick filter.
use proxy_redirector.Prelude.{Bool, true, ◌&&◌, ◌||◌, List, filter}
use proxy_redirector.Text.{Text, codes, text_eq, is_empty, includes, to_lower, to_upper}
use proxy_redirector.Dashboard.Items.{Item, proxy_of, status_of, endpoint, is_alive}

-- `other` stands for 'all' and for every name that the code does not test.
pub data QuickFilter : Type 0 where
  alive ssl socks5 http other : QuickFilter

-- The input fields that the filter reads, and the pressed pill.
pub record Criteria : Type 0 where
  pub query : Text
  pub country : Text
  pub quick : QuickFilter

unfoldable pub matches_query : Text → Item → Bool
unfolding proxy_of endpoint
matches_query q item =
    let p = proxy_of item in
    is_empty q
    || includes (to_lower (endpoint p)) q
    || includes (to_lower (to_upper p.country)) q
    || includes (to_lower p.type) q

unfoldable pub matches_country : Text → Item → Bool
unfolding proxy_of
matches_country c item = is_empty c || text_eq (to_upper (proxy_of item).country) c

unfoldable pub matches_quick : QuickFilter → Item → Bool
unfolding proxy_of status_of is_alive
matches_quick alive item = is_alive item
matches_quick ssl item = (status_of item).ssl_verified
matches_quick socks5 item = includes (to_lower (proxy_of item).type) (codes "socks")
matches_quick http item = includes (to_lower (proxy_of item).type) (codes "http")
matches_quick other item = true

-- The callback of `cachedProxies.filter`. The query is read in lower case, the country in upper case.
unfoldable pub matches : Criteria → Item → Bool
matches c item =
    matches_query (to_lower c.query) item
    && matches_country (to_upper c.country) item
    && matches_quick c.quick item

unfoldable pub filter_proxies : Criteria → List Item → List Item
filter_proxies c items = filter (matches c) items
