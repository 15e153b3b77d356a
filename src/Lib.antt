-- ===== src/Lib.antt =====
-- A verification library of the Proxy Redirector: of the dashboard that its engine serves
-- (engine/static/app.js), of the server that leases proxies (saas/src), of its web application
-- (saas/frontend/src), and of the screens of the desktop client (client/frontend/src).
--
-- The dashboard is one script without modules. It keeps its state in global variables, reads the
-- engine's HTTP interface by polling, and draws what it got. The modules under Dashboard follow the
-- script's parts; a part's variables, and what is drawn from them, are a record, and a function of
-- the script that changes them is a function on that record.
--   Dashboard/Escape: escapeHtml. Dashboard/Items: what /api/proxies answers, and its fallbacks.
--   Dashboard/Table: the proxy table. Order, Filter, Page, Selection and Rows are the steps of
--     renderProxiesTable and filterProxiesTable; State has the variables and every handler, and
--     `act` is one user action or one response. State/Bounds has its invariant.
--   Dashboard/Polling: startPolling, setupVisibilityListener and the start of the page. `run` is a
--     sequence of events in any order: a call of the callback whose request ends at once, and the
--     end of a request that an earlier call awaits, are different events. A variable that the
--     script never declares is `none`; reading it raises.
--   Dashboard/PoolBar, Status, Blocklist: renderPoolBar; fetchStatus and renderActiveProxy; the rules
--     of the ad blocker, their search, and the devices.
--   Dashboard/Traffic, Analytics: the traffic stream and renderAnalyticsTable. Dashboard/Config: fetchConfig and the payload of saveEngineConfig.
--   Dashboard/Navigation: switchTab, the keys, the language and the dialogs.
--   Dashboard/Charts: renderAnalyticsCharts. Dashboard/Toasts: showToast. Dashboard/Exports: the files
--     that are written and read. Dashboard/Dialogs, Countries: the dialogs and fetchCountries.
--   Dashboard/Actions: the handlers that send a command, as the list of their effects for each
--     outcome of the request. Table/State, Config and Navigation model what the effects do.
--
-- The server is an Express application. A middleware or a use case is a function of the request and
-- of the state of the service that it uses; the services are records of operations and laws.
--   Saas/Domain, Errors: core/domain, rfc7807-error.middleware.ts, errorHandler.ts, apiResponse.ts.
--   Saas/Guards: authenticate.ts and authorize.ts; verifying a token is a parameter.
--   Saas/Pipeline: app.ts, what a request passes, for any handlers of the routes; Pipeline/Access says
--     what it reaches without a token. Saas/AuthRoutes: modules/auth/auth.routes.ts with the
--     schemas and the controller, over Saas/RateLimiter, Saas/Accounts and Saas/Tokens.
--   Saas/Users: modules/users/users.routes.ts and utils/crypto.ts over `KeyTable` and `DeviceTable`.
--   Saas/RateLimiter: rateLimiter.ts over `Counters`, the INCR and EXPIRE of Redis.
--   Saas/Leasing: lease-static-proxy.use-case.ts and prisma-proxy.repository.ts over `ProxyTable`,
--     the findFirst and update of Prisma. Leasing/Calls is a sequence of calls, Leasing/Race two
--     interleaved ones.
--   Saas/Tokens: refresh and logout of modules/auth/auth.service.ts and utils/jwt.ts over `Service`:
--     two signers of jsonwebtoken, the keys of Redis and the table of users. Tokens/Refines has the
--     specification of a sequence of calls, Tokens/Once counts the sessions of one.
--   Saas/Accounts: register and login of auth.service.ts over `UserTable` and `Hasher`.
--   Saas/Billing: the checkout of modules/billing/billing.routes.ts.
--   Saas/Usage: flushUsage of workers/usageAggregator.ts over `UsageStore`, the counters of Redis and
--     the rows of the day. Saas/Idempotency: idempotency.middleware.ts over `ResponseCache`;
--     Idempotency/Race interleaves two requests.
--   Saas/Relays: relays.routes.ts, proxyHealthWorker.ts, prisma-relay.repository.ts and the route
--     '/connect' of proxies.routes.ts over `RelayTable`.
--   Saas/Server: the start and the shutdown of server.ts with the intervals of the two workers.
--   Saas/Seed: prisma/seed.ts over `SeedTable`, a table with upsert, with its rows in Saas/SeedData.
--
-- The web application and the client are React programs. The state of a component is a record, a
-- handler is a function on it, and a handler that waits for a request is cut at the wait: the part up
-- to the request counts it as under way, and the end of a request is an event of its own, which finds
-- the values that the handler has kept from its start. `run` is any sequence of events.
--   Web/Session: the token and the user of saas/frontend/src/App.tsx; Session/Machine has the buttons
--     and all events. Web/Pool: the list of proxies of App.tsx and the selection of
--     components/views/ProxiesView.tsx. Web/Import: components/modals/BulkImportModal.tsx. Web/Export:
--     handleExportProxies of App.tsx; Export/RoundTrip joins the two. Web/Console: ApiView.tsx.
--     Web/Telemetry: the stream of OverviewView.tsx. Web/Panels: the smaller handlers of App.tsx,
--     TopBar.tsx, DevicesView.tsx, MeshView.tsx, AdminView.tsx and ProfileModal.tsx. Web/Toasts:
--     showToast and copyText of App.tsx.
--   Client/Home: screens/HomeScreen.tsx. Client/Rotation: screens/RotationScreen.tsx and
--     components/RotationFilters.tsx. Client/Settings: screens/SettingsScreen.tsx. Client/Shell:
--     App.tsx and screens/DevicesScreen.tsx. The handlers of these three are run to their end, with
--     the answers of their calls as arguments. Client/Flag: components/FlagBackground.tsx, a machine of
--     images that come in or fail in any order; Flag/Settles says where it ends.
--
-- Prelude and Text hold what the parts share: tests on native numbers, lists, stable sorting (the
-- sort of JavaScript is stable), and texts as lists of UTF-16 code units, with the trimming, cutting
-- and joining of JavaScript, and its numbers written and read. Examples applies the
-- theorems to concrete inputs, and fills the records of services: a server that counts in a
-- function, a table of one row, tokens that spell their payload.
--
-- The notifications of the dashboard (Dashboard/Toasts) and of the web application count the time
-- that is left of each timer, and an event is a call or some time that passes.
--
-- Numbers are natural numbers; scores are counted in a fixed fraction of a point, widths and
-- uptimes are fractions, and times are in whole milliseconds or seconds. The fuel of
-- the decimal digits is n + 1 rounds for the number n, which has fewer digits than that; `finish` of
-- Client/Flag takes twice as many rounds as images are being loaded, which its theorem shows to be
-- enough. Case mapping is that of ASCII.
--
-- Not modelled: the drawing itself (HTML, CSS classes), and the score weights of the dashboard's
-- settings, which are read as floating-point numbers; of the server the queries of the routes that
-- only query, and the clients of its databases; of the web application the invoices, which are
-- made-up texts, and the dialogs; and the engine and the client's own calls, which are written in Go.
pub mod Prelude
pub mod Text
pub mod Dashboard
pub mod Saas
pub mod Web
pub mod Client
pub mod Examples
