-- ===== src/Lib.antt =====
-- split-proxy: the admin panel (admin/front), its pages, its session and its API client.
--
-- The panel is a React application. Each page keeps its state in `useState` values and changes it
-- in handlers, which are asynchronous: between two awaits of one handler, others run. The pages
-- call the functions of admin/front/src/shared/api, and those call `apiFetch`, which talks to the
-- REST service of admin/back. The proxy, the broker and the workers (proxy, broker, worker) are Go
-- programs that the panel never calls.
--
-- How the code is modelled. A handler is a `Script`, a free monad over the page's state: calls of
-- setters (`modify`), messages, navigations, dialogs (`Modal.confirm`), awaited calls and
-- `Promise.allSettled`. It takes the state of its render as the argument `c`, which is what its
-- closure captured; a setter acts on the state at its own time. `try`, `catch` and `finally` are a
-- helper that takes the outcome of the awaited call, followed by what `finally` does. Two readings
-- of a script are used. `run` lets one handler run alone against a server with states `W` and the
-- user's answers (Script/Run). `Reach` has all interleavings: handlers start in the states where
-- the page offers them (`Enabled`, `respond`, `Starts` of each page's View), and any suspended
-- handler goes on with any answer (Script/Interleaving). Script/Keeps carries invariants through
-- both, Script/Sends the requests that a handler can send, Script/Compose the runs of sequences.
--
-- Which file models which part:
--   Base           Booleans, lists, equality, signed page numbers, shared by all
--   Text           JavaScript strings as lists of UTF-16 code units: trim, split, startsWith,
--                  encodeURIComponent, URLSearchParams; their laws are in Text/Laws. What a server
--                  does with them, decodeURIComponent and the reading of a query, is in
--                  Text/Decoding and Text/Queries
--   Browser        localStorage, and the address that a script sets
--   Api            shared/types.ts (Api/Types), the API functions (Api/RoutingApi, ProxyApi,
--                  WorkerApi, GroupApi, UserApi; shared/api/configApi.ts in Api/Endpoints),
--                  shared/api/apiClient.ts (Api/Client), shared/lib/authStorage.ts
--   Auth           auth.tsx, pages/LoginPage.tsx, components/ProtectedRoute.tsx; Auth/Machine runs
--                  the session on events, in detail and as one optional session
--   Users, Forms   pages/UsersPage.tsx; pages/UserFormPage.tsx, pages/proxy/NewProxyFormPage.tsx,
--                  pages/group/NewGroupFormPage.tsx
--   Proxies        pages/proxy/ProxiesPage.tsx
--   Groups         pages/group/GroupsPage.tsx
--   Splitting      pages/splitting/SplittingPage.tsx: isValidDomain and isValidCidr in
--                  Splitting/Validation, the three tabs in Domains, Cidrs and Defaults, and which
--                  of them is open in Splitting/Tabs
--   Home           pages/HomePage.tsx (what it shows is in Home/View, its percentages in
--                  Home/Doubles) and shared/config/ConfigContext.tsx
--   Shell          App.tsx, components/AdminLayout.tsx (its menu is in Shell/Menu)
--   I18n           shared/i18n with both tables of texts, components/LanguageSwitcher.tsx
--   Messages       the texts that the pages show, against these tables
--   Agreement      the groups in the rows of the tables, against those that the server has
--   Tests          a server and pages to run the definitions with
--
-- In each page, State holds the `useState` values as a record, Handlers (and Bulk, for groups) the
-- handlers under their own names in snake_case, and View what the user can do and when. The other
-- files of a page prove.
--
-- Numbers are natural; the page number of the routing page is signed, since one handler lowers it.
-- `Math.max(0, a - b)` is the subtraction that stops at 0. Regular expressions run on a
-- backtracking matcher that is structural in the expression (Splitting/Validation/Matcher), and
-- Splitting/Validation/Language has what they describe. The digits of `String(n)` are the one
-- definition of Text on fuel: it is n + 1, and each digit divides n by ten (Text/Digits reads them
-- back). A visit of the panel has fuel for the redirects that it follows. The percentages of the
-- dashboard are the doubles of the language, bit for bit, for counts below 2 ^ 53 (Home/Doubles); a
-- quotient has its 53 bits after at most 105 doublings of the 106 that the definition allows
-- (Home/Percent). All other definitions are structural.
--
-- Parameters: the answers of the server (the Python service of admin/back, of which nothing is
-- assumed but what a theorem names) and of the dialogs (`Surroundings`); and for code that is not in
-- the repository, `fetch` (`Reply`, `AuthServer`), the validation of a form by antd (the
-- outcome that a submission takes), the route that the router library matches best (`Router`,
-- `MatchesStatic`), and the Unicode tables behind \p{L} and \p{N} (`Unicode`, which
-- says only that neither the dot nor the star is a letter or a number). `MatchesPaths` says of the
-- router that a static path wins and that a slash at its end does not matter. `Stores` and `Lists`
-- say of a server that it keeps one group for each key, and that its lists show them; `StoresUnder`
-- that an update is kept under the normal form of its key, as CIDRRouteSerializer in
-- admin/back/src/core/serializers.py does with the network of a range.
--
-- The id of a form's address is a number or missing; an address whose id is no number, for which
-- the source sends NaN, is left out. A value of the user's key in localStorage that is no JSON reads
-- as missing, where the source throws.
--
-- Not modelled: the display of dates and colours; the insides of i18next; the Go and Python programs;
-- a promise that no handler awaits. A value that a page stores and reads back through JSON is kept as
-- the value.
pub mod Base
pub mod Browser
pub mod Text
pub mod Api
pub mod Script
pub mod Proxies
pub mod Splitting
pub mod Groups
pub mod Auth
pub mod Users
pub mod Forms
pub mod I18n
pub mod Home
pub mod Shell
pub mod Agreement
pub mod Messages
pub mod Tests
