-- ===== src/Lib.antt =====
-- The frontend of an IT administration dashboard: how it keeps a session, talks to its backend,
-- follows network scans and onboarding jobs over server-sent events, and shows them. The
-- development translates TypeScript under frontend/src to functions on explicit states.
--
-- The parts, with their files:
--
--   Common: lists, texts as lists of UTF-16 code units, and Boolean tests that all parts share.
--     Common/Sorting is the sorting of arrays and the choice of distinct texts; Common/Partition
--     tells when the parts of a list chosen by several tests are the whole list.
--   Sse: the stream reader of frontend/src/lib/sse.ts. `process_frame`, `on_chunk`, `read_loop`
--     and `open_event_stream` are `processFrame` and the nested loops of `openEventStream`. The
--     callbacks act on a shared state; whether they have aborted the stream is read from it
--     before each chunk.
--   Auth: the store of frontend/src/hooks/useAuth.ts and the guard ProtectedRoute.tsx.
--     Auth/Bootstrap and Auth/Session: the restoring of a session after a reload
--     (useAuthBootstrap.ts, AuthBootstrapGate.tsx). Auth/Jwt: frontend/src/lib/jwt.ts.
--     Auth/Login: the submit handler of pages/Login.tsx.
--   Api: the interceptors of frontend/src/lib/api.ts, over the store of Auth. A `Client` holds
--     the store, the pending refresh and who waits for it; `step` is one task of the event loop,
--     and `run` any interleaving of them.
--   Json: what `JSON.parse` yields, and the object schemas of zod.
--   Scan: the types of frontend/src/types/scan.ts and the hook of
--     frontend/src/hooks/useScanStream.ts, which gives `handlers` to the reader of Sse.
--     Scan/Report follows what the server and the connection say of a scan without the hook's
--     state; Scan/Schemas are the schemas of its events, Scan/Cidr is the check of a subnet;
--     Scan/Toolbar the scan controls of components/data-display/AssetToolbar.tsx, which call the
--     hook, with its other controls and what it shows (Scan/Toolbar/Controls), and Scan/Dialog
--     what components/feedback/ScanDialog.tsx shows.
--   Onboarding: the cache and the mutations of frontend/src/hooks/useOnboarding.ts;
--     Onboarding/JobStream its own reader of a job's stream; Onboarding/Page the pipeline page
--     pages/Onboarding.tsx, and Onboarding/Page/View what it shows; Onboarding/Card the card
--     components/onboarding/OnboardingCard.tsx, whose full form is a machine of what the user and
--     the server do (Onboarding/Card/Full), with its animation and what is shown
--     (Onboarding/Card/Animation, Onboarding/Card/View); Onboarding/Form the schema of
--     frontend/src/lib/validators.ts and the dialog
--     components/onboarding/OnboardingFormDialog.tsx, which creates by the hook.
--   Assets: the health of a device (frontend/src/lib/assetHealth.ts), the query of
--     frontend/src/hooks/useAssets.ts, `useDebouncedValue` with the time of the clock
--     (Assets/Debounce), and the page pages/Assets/Index.tsx with its pagination (Assets/Page).
--     The toolbar of Scan counts its filters. Assets/Deletion: the selection of
--     frontend/src/hooks/useAssetTable.ts and the deletion of one device or several. Assets/Grid:
--     what AssetTable.tsx and AssetStats.tsx show.
--   AuditLogs: the query of frontend/src/hooks/useAuditLogs.ts and the page pages/AuditLogs.tsx;
--     AuditLogs/Paging and AuditLogs/Moves walk through the pages of a server that answers with
--     `take limit (drop offset rows)`; AuditLogs/Csv is the export of AuditLogToolbar.tsx,
--     AuditLogs/Options its filters with their values (useAuditLogFilterOption.ts),
--     AuditLogs/Table the rows and their details (AuditLogTable.tsx, AuditLogDiff.tsx).
--   Reports: the schema of frontend/src/types/report.ts, the polling of
--     frontend/src/hooks/useReports.ts, the dialog GenerateReportModal.tsx as a machine of what
--     the user and the server do (Reports/Dialog), and in Reports/History the badge and the
--     numbers of pages/Reports.tsx.
--   Dashboard: the sums of pages/Dashboard.tsx and OnboardingVolumeChart.tsx; Dashboard/Feed is
--     components/data-display/AuditActivityFeed.tsx.
--   Search: components/forms/SearchInput.tsx under a parent that keeps its value.
--   Navigation: the frame components/layout/DashboardLayout.tsx with its sidebar and header
--     (components/navigation/Sidebar.tsx, Header.tsx).
--   Queries: when the query client of frontend/src/main.tsx tries a query again.
--   Simulation: frontend/src/hooks/useScanSimulation.ts, one step for each tick of its interval.
--   Tests: each theorem at a concrete input, and runs of definitions.
--
-- Bounds. The loops over the frames of a buffer (`Sse.drain`, `Onboarding.JobStream.drain`) run
-- on fuel, the buffer's length. A round takes two code units off the buffer at least, so the fuel
-- lasts until no boundary is left. All other functions recurse on lists.
--
-- What is assumed. Numbers from the server are natural ones. A chunk is its decoded text.
-- `JSON.parse`, `atob`, zod's tests for a UUID and for an e-mail address, the texts of dates, the
-- division and the rounding of floating point numbers, and zustand's merge of the stored state
-- are parameters, with the laws that are needed stated where they are declared. axios keeps the
-- mark `_retry` of a request that is sent again and runs the request interceptor on it once more.
-- React applies updates of a state in the order made. Texts shown to the user are modelled by
-- what they say.
--
-- Not modelled: markup and styles, the backend, types generated from its API description, timers
-- other than those named above, and the polling that the query library does, but for that of a
-- report's status.
pub mod Api
pub mod Assets
pub mod AuditLogs
pub mod Auth
pub mod Common
pub mod Dashboard
pub mod Json
pub mod Navigation
pub mod Onboarding
pub mod Queries
pub mod Reports
pub mod Scan
pub mod Search
pub mod Simulation
pub mod Sse
pub mod Tests
