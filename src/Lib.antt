-- ===== src/Lib.antt =====
-- SpenDrop is a household expense tracker: a Go server over SQLite and a React client in web/src. These
-- files model the parts of the client that decide what happens to the household's data before the server
-- sees it and what the screens say about it afterwards.
--
-- * OfflineQueue models web/src/lib/offline-queue.ts, the queue of transactions captured without a
--   connection. OfflineQueue/Store is one user's IndexedDB object store with its key generator,
--   OfflineQueue/Device the stores, the sign-in holds and the drain guards of a device with the queue's
--   operations (enqueue, getAllQueued, removeQueued, purgeQueue, bumpAttempts, markNeedsSignIn), and
--   OfflineQueue/Drain and OfflineQueue/Replay one drain (drainQueue): the loop over the rows, then the
--   re-run that another trigger asked for. What the server answers to each POST, what the user does
--   while it is under way and which storage transactions succeed are arguments of a drain. A chain of
--   re-runs is recursion on the list of the triggers' worlds, which is as long as the chain.
--   OfflineQueue/QuickAdd is web/src/hooks/useQuickAdd.ts, the create that is posted or captured, and its
--   undo.
-- * ImportSession models web/src/hooks/useImportSession.ts over the wire types of web/src/api/types.ts
--   and the field rules of web/src/lib/import-field-errors.ts. ImportSession/Gate holds the pure functions
--   behind the Import button (activeFieldErrors, blockedRowIDs, computeUnresolvedCount,
--   unresolvedCategoryDecisions, canImport, cellErrors), ImportSession/Merge how an answered PATCH and a
--   background refresh are put over the preview (applyResponse, applyRefresh), ImportSession/Machine the
--   state and the actions (uploadFile, patchRow, confirmImport, cancelImport, startOver, the resume on
--   mount and the currencies effect), and ImportSession/Events a session under any sequence of them. A
--   request and its answer are two operations, so that anything may come between them.
-- * Heatmap models web/src/components/reports/heatmapGrid.ts: the intensity scale (buildIntensityScale),
--   the heaviest day (heaviestDay), the padded cells of a year and of a month (generateYearDates,
--   generateMonthDates), the two layouts (toWeekRows, toWeekdayRows), the month labels
--   (monthLabelColumns, in Heatmap/Months) and the labels of a cell. Heatmap/Calendar is the part of a
--   UTC Date that the generation uses, up to the last day that a Date can hold; a cell stands for a day,
--   which its text names up to the year 9999. Money is a whole number of cents. The loop of toWeekRows
--   is on fuel, one step for each cell; the loops over days have 366 and 31, one step for each day of
--   the longest year or month, and the padding loop 6.
-- * ApiClient models web/src/api/client.ts, the confirm of web/src/api/import.ts and
--   web/src/lib/save-failure.ts: what a request comes to (request, toNetworkError, apiErrorFrom), what a
--   refused confirm carries to the import session, whose Refusal it is, with what the session then shows
--   (ApiClient/Confirmed), and when a save is retried.
-- * ImportDecisions models web/src/lib/import-decisions.ts: the record of category decisions that outlives
--   the import card (saveImportDecisions, loadImportDecisions, clearImportDecisions).
-- * LastUser models web/src/lib/last-user.ts: the identity that a device remembers without a connection,
--   over the storage and the JSON values of ImportDecisions.
-- * Auth models web/src/hooks/useAuth.tsx, web/src/hooks/useOfflineSync.ts and
--   web/src/components/ProtectedRoute.tsx: Auth/Session is the provider's state and what each answer does
--   to it (verifySession, refreshUser, login, register, logout), over the remembered identity of LastUser,
--   the outcomes of ApiClient and the device of OfflineQueue; Auth/Events is the provider under any
--   sequence of events, with the replay that follows the user and what a protected route shows. The epoch
--   that a closure captures is kept with its request; Auth/Spec is the same provider without epochs, where
--   a sign-in or a sign-out cancels the requests under way.
-- * Ledger models web/src/hooks/useTransactions.ts: Ledger/Query the filters and the query strings made of
--   them (buildFilterQuery), Ledger/Listing the state behind the ledger and its operations (setFilter,
--   clearFilters, clearPanelFilters, setPerPage, setSort, buildQuery and the debounce of the search box),
--   and Ledger/Writes the bulk writes with the refetch after them (bulkUpdate, bulkUpdateByFilter). The
--   effect of the debounce runs after each operation, and the timeout is an event. Ledger/Patch is
--   web/src/pages/Transactions.computePatch.ts, the patch that a bulk edit sends.
-- * Money models web/src/lib/currency.ts and web/src/hooks/useTransactionEditForm.ts: Money/Round the
--   rounding (roundHalfAwayFromZero, dollarsToCents), Money/Convert the payload (applyAmountSign,
--   toCreatePayload), the defaults of an edit (toEditDefaults) and the money that a save leaves alone
--   (foreignMagnitudeUnchanged), and Money/EditForm the form of both edit surfaces: its opening, the
--   effect that runs when the currencies arrive, reset and save. An amount is written as a whole number of
--   ten-thousandths and converted as the double that this denotes: Money/Double has the products, the
--   quotients and Math.round of doubles, each rounded to the nearest with 53 bits, ties to even. The
--   exponents have no bound there, and the loops that find one have fuel for 2200 binary places, more than
--   the exponents of two doubles lie apart.
-- * Notify models web/src/lib/sw-notifications.ts: Notify/Rollup the roll-up of activity pushes
--   (applyActivityRollup), Notify/Render the options and the calls of one push (renderPushNotification,
--   applyAppBadge), and Notify/History a burst in which each push finds what the one before it left.
-- * ClientKey models web/src/lib/client-key.ts: the idempotency key of a create (newClientKey) from sixteen
--   random bytes. The masks are remainders by a power of two.
-- * QuickParse models web/src/lib/quick-parse.ts: QuickParse/Text the texts, as lists of code units, with
--   the classes of the regular expressions, QuickParse/Amount the amount of a token (tryParseAmount) as a
--   whole number of hundredths, QuickParse/Category the category that a description matches
--   (matchCategory) and QuickParse/Entry the reading of a line (parseQuickEntry). QuickParse/Passes is an
--   independent reading, by one pass over the tokens for each kind.
-- * Bulk models the writes to many transactions of web/src/pages/Transactions.tsx, over the ledger of Ledger:
--   Bulk/Screen is the state of the page, the data that the query cache keeps of another key and the
--   selection (handleSelect, handleSelectAll, handleSelectAllMatching), Bulk/Handlers the bulk delete, the
--   bulk edit and Replace All (executeBulkDelete, requestBulkDelete, dispatchBulkEdit, handleReplaceAll,
--   dispatchReplaceAll), each up to its request and from its answer on, and Bulk/Turn the page under any
--   sequence of events. An open dialog keeps clicks and keys from the page under it, as a modal dialog
--   does; timeouts and answers still come.
-- * Capture models the quick-capture screen, web/src/pages/QuickAdd.tsx: Capture/Form the form with its
--   effective values, by the parser of QuickParse or by tapping, the gate of the button and its hint
--   (canSubmit, missingHint), and Capture/Send the building of an entry (submit), its sends (send) and the
--   Retry of a failed one, over the money of Money. What becomes of a send, the key and the date are
--   arguments of the events, and so is the comparison of two form snapshots.
--
-- Base holds what the components share: lists measured by native numbers, Boolean tests, signed integers
-- over the native numbers, and the lemmas on them.
--
-- Not modelled: the Go server (cmd, internal), the React components, the pages but for what Bulk and Capture
-- model, the service worker's shell, the date ranges, the styling tables and the tests. The server,
-- IndexedDB's transactions, localStorage, the browser's notifications, the order of dates and the texts of
-- numbers are arguments of the definitions that use them.
pub mod Base
pub mod OfflineQueue
pub mod ImportSession
pub mod Heatmap
pub mod ImportDecisions
pub mod LastUser
pub mod ApiClient
pub mod Auth
pub mod Ledger
pub mod Money
pub mod Notify
pub mod ClientKey
pub mod QuickParse
pub mod Bulk
pub mod Capture
