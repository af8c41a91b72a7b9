-- ===== src/Lib.antt =====
-- The web front end of the CRM: its server side (the BFF), the client that calls it, and the state of
-- the pages.
--
-- The browser talks only to the BFF, a set of Next.js route modules under frontend/src/app/api.
-- It holds the session's tokens in cookies that scripts cannot read, checks that a request comes
-- from its own pages, calls the back end with the access token, refreshes this once when it has
-- expired, and passes the answer on. The pages call the BFF by the services under
-- frontend/src/services, which share one client.
--
-- Which file models what:
--   Http            what the program uses of the web platform and of Next.js: numbers, JSON, headers,
--                   requests, responses, and handlers that may throw and that call the back end
--   Session         frontend/src/app/api/auth/shared.ts: Config (the environment), Backend
--                   (backendRequest and the error responses), Csrf (requireCsrfProtection), Cookies,
--                   Refresh (authenticatedBackendRequest, refreshCurrentSession) and SingleFlight (the
--                   Map of refreshes that concurrent requests share)
--   Proxy           frontend/src/app/api/proxy.ts: proxyApiRequest
--   Auth            frontend/src/app/api/auth/login, mfa/[action], me, logout and refresh, and Provider
--                   for frontend/src/features/auth/auth-provider.tsx and protected-route.tsx
--   Routes          the other route modules of frontend/src/app/api: Crm, Sales, Account, Files, V3
--                   (v3/[...path]) and Stream (v3/ai/copilot/stream)
--   Client          frontend/src/services/api-client.ts
--   Services        the other files of frontend/src/services, and Query for
--                   frontend/src/utils/query-string.ts
--   Routing         the tree of route modules under frontend/src/app/api by its folders' names, as
--                   Next.js reads it, and the module that a service's call reaches
--   Hooks           frontend/src/hooks: the loading state of a page, and the options of selects
--   Toasts          frontend/src/components/ui/toast-provider.tsx
--   SalesBoard      frontend/src/features/sales-board: Pages (loadAllPipelineDeals) and Totals
--   Planner         frontend/src/features/planner: planner-workspace.tsx, and Week for
--                   planner-calendar.tsx
--   Forms           the forms of frontend/src/features: Sales for deals and pipelines, Work for tasks,
--                   activities and tags, and utils/date.ts for their dates
--   Details         the pages of one record under frontend/src/features, such as
--                   companies/company-detail.tsx, and Lead for leads/lead-detail.tsx
--   Relationships   frontend/src/features/companies/company-relationship-overview.tsx
--   Settings        frontend/src/features/settings: the forms of roles and users, and the state around them
--   Conversion      frontend/src/features/leads/lead-conversion-panel.tsx
--   ImportExport    frontend/src/features/import-export
--   CalendarExport  frontend/src/utils/calendar-export.ts
--   Notifications   frontend/src/features/notifications, which raises toasts
--   Palette         frontend/src/components/command/command-palette.tsx
--   Navigation      frontend/src/components/layout/sidebar.tsx
--   Language        frontend/src/components/i18n/i18n-provider.tsx: the texts of the pages, Locale and
--                   Labels
--   Theme           frontend/src/components/theme/theme-provider.tsx
--   Tests           a small back end and browser on which the theorems are tried
--   Common          texts, predicates and case distinctions that the others share
-- The theorems stand in the children of these modules that are named for what they prove.
--
-- How state and operations correspond to the code. A handler is a function of the server, the
-- request and the list of the calls of the back end made so far; it returns its response, or what it
-- throws, and the longer list. The back end is a field of the server and answers a call as it likes,
-- by everything that it was sent before, and so does a browser's fetch: no theorem assumes anything
-- of it. A response carries the changes of cookies that it makes. An `await` in one handler is a step
-- of its chain of calls; requests that run at the same time meet only in the Map of refreshes, whose
-- steps (a caller enters, a call ends, the caller that made it resumes) SingleFlight interleaves
-- freely. A reading of a body that may reject is an Option, and what a handler catches is a Result.
-- A hook's state changes by steps as well: the effect runs, the component goes, a load settles.
-- The state of a component that React keeps is a record, an event handler or the end of a call a
-- function on it, which takes the state of the render that it began in where the code's closure does;
-- updaters run at once, in the order in which React runs them. What the browser does on its own, a
-- timeout that is due or a load that settles, is a constructor of a step relation, so that the
-- theorems hold for every order. Dates, the sums of JavaScript's numbers, the translation and the
-- lower case of a text are arguments.
-- Numbers of the environment are fractions, infinities or no number; statuses, times and page
-- numbers are natural numbers. Fuel stands in two places: for the decimal digits of a number, as many
-- steps as its value, where `decimal_enough` in Services/Query shows that this is enough; and for the
-- loop over the pages of deals, which `load_all-ends` in SalesBoard/Pages shows to end in time.
--
-- Not modelled: what the React components draw, their focus and their animations; the lists over
-- the services, the page of a pipeline, and the pages of the newer modules; the Persian dictionary, which is data; the types, which are erased;
-- what Next.js does with a path before it looks for a module, such as decoding; the back end in
-- Python, which is the server's parameter; the deployment. What a runtime does with a text that is no
-- sequence of code points is left out.
pub mod Auth
pub mod CalendarExport
pub mod Client
pub mod Common
pub mod Conversion
pub mod Details
pub mod Forms
pub mod Hooks
pub mod Http
pub mod ImportExport
pub mod Language
pub mod Navigation
pub mod Notifications
pub mod Palette
pub mod Planner
pub mod Proxy
pub mod Relationships
pub mod Routes
pub mod Routing
pub mod SalesBoard
pub mod Services
pub mod Session
pub mod Settings
pub mod Tests
pub mod Theme
pub mod Toasts
