-- ===== src/Lib.antt =====
-- Rally: the core logic of the web application (web-rally/src, TypeScript), which teams, staff and
-- admins of a checkpoint event use. It talks to the backend (api-rally) through a generated client.
--
-- Parts, and the files that model them:
--   Offline: web-rally/src/offline. EvalQueue is evalQueue.ts, the queue of evaluation submits in
--   IndexedDB: `Idb` is the stored list with the events and sync tags that it causes, and each
--   exported function is the function of the same name in snake case. ArrivalQueue is
--   arrivalQueue.ts, Db the cached handle of db.ts with the upgrade of the stores, Sync the replay
--   and `syncNow` of useOfflineSync.ts and useArrivalSync.ts, Status useEvalQueueStatus.ts.
--   In `drain`, other submits run whole while a replay is awaited; EvalQueue.Interleaving takes each
--   operation of the queue apart into its read and its write, and EvalQueue.Callers has any number of
--   callers between the two;
--   EvalQueue.Refinement states the contract of the queue as a map from keys to entries, and
--   EvalQueue.Retries runs the drain again and again, as the triggers do.
--   Pwa: the service worker web-rally/src/sw.ts and what the page does with its messages. Badge is the
--   count on the icon (with lib/appBadge.ts), Notifications the push and click handlers, Rotation the
--   way of a renewed push subscription from the worker to the server (lib/pushSubscription.ts and
--   hooks/useRotatedPushSync.ts), Subscription hooks/usePushNotifications.ts, KeyBytes the decoding of
--   the server's key, and Wake the sync event with the listeners of useOfflineSync.ts and
--   useArrivalSync.ts, which call the drains of Offline.
--   Evaluation: web-rally/src/pages/staff-evaluation/components. Submit is the mutation of
--   useCheckpointEvaluation.ts, which hands a submit to the offline queue when the network is lost;
--   Page is the page's state with its handlers, as a step relation; Status and Loading are the
--   computed status of a team and the query of its activities; Payload is the data that is sent.
--   Checkpoints: useCheckpointManagement.ts of web-rally/src/pages/admin/components/checkpoints.
--   Form is the form with the request it becomes, Route the orders and the drop of one checkpoint on
--   another, Manager the state of the page with its handlers and the callbacks of its mutations.
--   Auth: Storage is lib/auth/tokenStore.ts, TeamSession stores/useTeamAuthStore.ts with
--   `refreshTeamToken` of services/client.ts, Resume lib/authResumeStore.ts, Staff the identity, roles
--   and view mode (auth/identity.ts, stores/useUserStore.ts, hooks/useNavAudience.ts,
--   hooks/useGuideAccess.ts, hooks/useUser.ts, stores/useViewModeStore.ts, services/apiClient.ts),
--   Bridge auth/useAuthSync.ts, Url `toRouterPath` of lib/url.ts.
--   Scoring: lib/penaltyCounters.ts, hooks/useExtraShotsAndPenalties.ts and lib/quizQuestions.ts. Timing:
--   hooks/useStopwatch.ts, pages/home/useCountdown.ts, hooks/useWakeLock.ts, which holds the screen on
--   while the stopwatch runs, and utils/timezone.ts.
--   Navigation: components/shared/navigation/useTabScrub.ts (TabScrub) and activeRoute.ts, and
--   hooks/useBackDismiss.ts (BackDismiss).
--   Progress: pages/team-progress. OpeningHours is checkpointHours.ts together with the server's rule in
--   api-rally/app/services/route_stages.py and route_progress.py; Checkin is the GPS check-in of
--   NextCheckpointCard.tsx, which falls back to Offline.ArrivalQueue; Team is useTeamProgress.ts;
--   Scanner is hooks/useQRCodeScanner.ts.
--   Badges: lib/badgeTriggers.ts and lib/badges.ts (Triggers), and BadgeForm.tsx of the admin area
--   (Form), with its request and its submission.
--   Search: lib/adminSearchIndex.ts with its callers in AdminSearch.tsx and pages/settings/index.tsx,
--   and hooks/useScrollToSearchTarget.ts.
--   Wording: utils/errorHandling.ts and lib/eventTerms.ts.
--   Base: Boolean tests, list operations, keyed lists, positions, and untyped JavaScript values.
--
-- How the code is modelled: asynchronous code is split at its `await`s where other code can run
-- between, by a step relation or by the list of what happens in the meantime; a request is an input,
-- its answer, or a recorded value. Loops are structural recursion, so that no fuel is
-- needed, but for two: Pwa.KeyBytes.fill needs as many rounds as the decoded key has units, and
-- Search.Scroll.try_scroll the ten attempts of its source. Pixels are whole numbers. Ids,
-- times and counts are natural numbers; where the source may use a fraction or another type, a
-- parameter stands for it. Records of JavaScript are lists of entries, `localStorage` is a function
-- from keys, and `null` and `undefined` are the missing value.
--
-- What is a parameter: the server's answers, `Date.now()` and `crypto.randomUUID()`, JSON, the
-- conversions of dates and numbers of the browser (Checkpoints.Form.Browser), the arithmetic of
-- fractions (Scoring.Penalties.Numbers), the session of the identity provider's library, `Date` with
-- the numerals (Timing.Timezone.Calendar), `String` and `Number` (Pwa.Badge.Numerals), `atob`, the
-- push manager's answers, and `normalize` and `includes` of strings.
--
-- Not modelled: rendering and styles, the other queries and their caching, failures of the storage
-- itself, logging and error reports, the precache and the routes of the service worker, which configure
-- a library, and the backend but for the rule of the opening hours.
pub mod Base
pub mod Offline
pub mod Evaluation
pub mod Checkpoints
pub mod Auth
pub mod Badges
pub mod Timing
pub mod Scoring
pub mod Wording
pub mod Pwa
pub mod Navigation
pub mod Progress
pub mod Search
