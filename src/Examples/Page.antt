-- ===== src/Examples/Page.antt =====
-- The theorems on escaping, the pool bar, the tabs and the commands of engine/static/app.js.
use proxy_redirector.Prelude.{◌≡◌, false, some, []}
use proxy_redirector.Text.{Text, codes}
use proxy_redirector.Dashboard.Escape.{text, escape_html}
use proxy_redirector.Dashboard.Escape.Laws.{references, escape_html-references}
use proxy_redirector.Dashboard.PoolBar.{PoolCounts}
use proxy_redirector.Dashboard.Navigation.{Page, dashboard, en, ltr, nothing}

abbrev markup : Text
markup = codes "<b a='&'>"

escape_html-references_example : escape_html (text markup) ≡ references markup
escape_html-references_example = escape_html-references markup

abbrev counts : PoolCounts
counts = record {
  total = 10;
  alive = 4;
  dead = 3;
  dead_retryable = 2;
  blacklisted = 1;
  unchecked = 2;
}

abbrev loaded : Page
loaded = record {
  active_tab = dashboard;
  active_button = some dashboard;
  active_content = some dashboard;
  language = en;
  stored_language = en;
  direction = ltr;
  is_online = false;
  state_text = (en, false);
  focus = nothing;
  open_modals = [];
  requests = [];
}
