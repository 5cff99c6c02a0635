-- ===== src/Lib.antt =====
-- Verification of the deedlit.dev repository: the TypeScript of the site (deedlit.dev) and of the image
-- library's back end (deedlit.dev.comfyhelper).
--
-- The site serves a gallery of images. It keeps an index of its image directory (ids, order, a cache
-- that is refreshed by age and by a watcher), filters what it shows, and serves one image by its id,
-- with the metadata of a PNG stripped. The comfyhelper catalogues a library of images: it walks folders,
-- reads each file's metadata through a service, stores records and projections of them, and follows the
-- jobs that do so; its pages edit many images at a time.
--
-- The files, with the code they model (C is deedlit.dev.comfyhelper/lib, D is deedlit.dev/src):
--   Base, Json    what the parts share: texts as lists of UTF-16 code units, code that may throw
--                 (Outcome), code that changes a state and may throw (Action), decimal print, JSON.
--   Png           Format and Strip: stripPngMetadata of D/app/image/route.ts, and Encode, files by
--                 their chunks; Reader: C/png-metadata.ts; Clean: the two together.
--   Gallery       Fuzzy, Filter: D/features/gallery/lib/filtering.ts; Books:
--                 D/features/books/lib/filtering.ts; Ids, Snapshot:
--                 D/features/gallery/server/image-index.ts; Route: GET of D/app/image/route.ts.
--   Activity      C/store/activity-jobs.ts; Dock: C/store/activity.tsx.
--   Settings      C/store/settings.tsx. CompareTray: C/store/compare-tray.tsx.
--   Export        C/library/bulk-export.ts; Pool: app/api/library/export/route.ts of the comfyhelper.
--   Insights      C/metadata-parsing.ts.
--   CacheRoute    app/api/library/cache/route.ts of the comfyhelper.
--   Paths         C/library/paths.ts.
--   Config        C/library/config.ts.
--   Extract       C/library/services/metadata-client.ts, and the record of an image that
--                 C/library/services/metadata-service.ts makes of its results.
--   PromptTags    C/prompt-tags.ts.
--   Ingest        Jobs: the tables of jobs, C/library/services/jobs-service.ts; Single, Run:
--                 C/library/services/ingest-service.ts.
--   Bulk          Delete, Patch: C/library/bulk-delete.ts and bulk-patch.ts; Move:
--                 app/api/library/images/move/route.ts of the comfyhelper, with what makes
--                 imageToUiDetail of C/api-client.ts throw.
--   Gateway       request and its errors in C/api-client.ts, with the routes that delete, patch and
--                 show one image; Records: the mappers that make cards; Health:
--                 app/api/library/health/route.ts of the comfyhelper.
--   ImageCache    C/library/image-cache.ts; Serve: the routes file, grid and thumbnail in
--                 app/api/library/images/[imageId] of the comfyhelper.
--   Http          handleRoute of C/library/http.ts.
--   Tests         runs at fixed inputs.
--
-- A function keeps its name, in snake case; a loop or a closure inside it has a name of its own. A
-- record stands for an interface or a row, a data type for a union or for what a call may give.
--
-- Parameters. What the code takes from Node, npm packages, databases and services comes in as an
-- argument: inflate, UTF-8 and JSON.parse of the PNG reader; localeCompare and Date.parse of the filters;
-- SHA-256, readdir and stat of the index; path.resolve and file reads of the route; fetch of the bulk
-- operations and of the metadata client; the image repository, the hash, the thumbnails and the search
-- and graph stores of ingestion, as actions on a world of which nothing is assumed unless a theorem
-- names it; the database of jobs, as a call that may refuse before each query; JSON.parse of the search
-- by keys; Redis, sharp and the upstream of the image routes; the order of the numbers of settings;
-- fetch, rename and the join of paths in the routes to the gateway.
--
-- Bounds. Both PNG loops run on fuel, the length of the buffer or file: each round but the last passes
-- at least eight bytes. The loop for a free id runs on one more than the number of used ids, which is as
-- many candidates as are needed. The search by keys runs on the size of its value, which counts the
-- lengths of texts, since a text may be JSON; Insights.Steps counts its calls. A scan of Redis runs on
-- any bound of its rounds.
--
-- Simplifications. Numbers are natural numbers, or the text that String prints where the code only
-- copies or compares them. toLowerCase is that of ASCII. An assignment to `__proto__` of a plain object
-- adds no field. A promise's continuation that runs at once behind another is one step with it. Of calls
-- that run together and fail together, the first of the list gives the error. A directory does not
-- change while it is walked, and only a run itself writes to the tables of jobs while it runs. Log lines
-- and cache headers are left out. path.extname is that of POSIX paths.
--
-- React. A provider is its state and its callbacks; its effects run after each callback, as if no two
-- shared a render. A call of the session's storage may throw. Values that the search by keys visits are
-- trees.
--
-- Not modelled: rendering and browser glue; connection setup of database clients; the SQL, Cypher and
-- vector queries of the repositories; the parsers of prompts in metadata-service.ts; the other typed
-- wrappers of fetch; the Python services.
pub mod Activity
pub mod Base
pub mod Bulk
pub mod CacheRoute
pub mod CompareTray
pub mod Config
pub mod Export
pub mod Extract
pub mod Gallery
pub mod Gateway
pub mod Http
pub mod ImageCache
pub mod Ingest
pub mod Insights
pub mod Json
pub mod Paths
pub mod Png
pub mod PromptTags
pub mod Settings
pub mod Tests
