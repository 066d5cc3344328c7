-- ===== src/Lib.antt =====
-- Gaia Email Libraries (GELAM): the data structures and algorithms of the mail back end.
--
-- The back end runs in a worker. Sync tasks talk to a mail server with the help of a sync state; what
-- they find is written to the database with the changes that delta algebra computes; triggers keep
-- the tallies of the folders; the conversations are summarized anew by a churn driver; tables of
-- contents hold the order of what the user sees and hand windows of it to the page. Each module
-- below stands for one of these parts, and a module under it for what is shown of the part:
--
-- - Common models no file of the program: it has Booleans, lists, sets, maps and integers.
-- - Delta (src/backend/delta_algebra.js): normalizeAndApplyChanges, applyChanges, mergeChanges,
--   each with its variant for sets.
-- - Bsearch (src/shared/util.js): bsearchForInsert and bsearchMaybeExists.
-- - Comparators (src/backend/db/comparators.js), and Toc (src/backend/db/conv_toc.js and
--   dynamic_full_toc.js): onTOCChange, onConvChange, sliceIds, getDataForSliceRange, addItem. A
--   table of contents finds its places with Bsearch and the comparator.
-- - FolderToc (src/backend/db/folder_convs_toc.js): the table of a folder's conversations and
--   their heights: FolderToc holds onTOCChange, FolderToc.Heights what is asked in heights.
--   FolderToc.Totals is about onTOCChange, FolderToc.Offsets about getInfoForOffset,
--   FolderToc.Walks about findIndicesFromCoordinateSoup.
-- - Lifecycle (src/backend/db/toc_meta/sync_lifecycle.js): newish counting and the end of a sync.
-- - Triggers (src/backend/db_triggers/unread_count.js and message_count.js): the deltas of the
--   folders' tallies.
-- - Churn (src/backend/churn_drivers/conv_churn_driver.js): the summary of a conversation.
-- - Gmail (src/backend/accounts/imap/gmail/sync_state_helper.js): Gmail holds the state and what
--   is derived from it, Gmail.Tasks the sync_conv tasks, Gmail.Moves the operations, Gmail.Removal
--   and Gmail.Rounds what a round of them does.
-- - Vanilla (src/backend/accounts/imap/vanilla/folder_sync_state_helper.js): Vanilla holds the
--   state, the flag slots and the operations, Vanilla.Tasks the grouping by conversation.
-- - Resources (src/backend/task_infra/task_resources.js): which tasks wait for a resource.
--   Resources holds the operations, Resources.Runs and Resources.Tracked what a run of them does
--   over any Priorities, the interface of task_priorities.js, and Resources.Queued what it does
--   over the program's own queue.
-- - TaskPriorities (src/backend/task_infra/task_priorities.js): the queue of the ready tasks and
--   the boosts of its tags, TaskPriorities.Tasks the tasks in the heap. TaskPriorities.Sums and
--   TaskPriorities.Boosted are about the sums of the boosts, TaskPriorities.Keys about the keys in
--   the heap, TaskPriorities.Raises about the calls that raise, and TaskPriorities.Indexed and
--   TaskPriorities.Served about the interface Priorities, which the queue fills: there a task is
--   prioritized when the map _taskIdToHeapNode finds it, for the heap can hold nodes besides.
-- - Groups (src/backend/task_infra/task_group_tracker.js): Groups holds the tracker's operations,
--   Groups.Counted, Groups.Completes, Groups.Founded and Groups.Joined what each keeps of the
--   counts, Groups.Runs whole runs, Groups.Root the loop to the root group. Groups.Haunted compares
--   a run with one in which a task stands in a group besides, and Groups.Twice is about a task that
--   asks for its group twice.
-- - Batch (src/backend/bridge/batch_manager.js): when the changes of the views are sent to the
--   page.
-- - Views (src/backend/bridge/windowed_list_proxy.js and src/clientapi/windowed_list_view.js): the
--   window of a list that the back end keeps for the page, over a table of Toc, and the page's
--   copy of it, which is Views.Page. Views.Shown and Views.Current are about one update,
--   Views.Session, Views.Kept and Views.Runs about whole sessions, Views.Bounds about the indices.
-- - Filter (src/backend/accounts/activesync/smotocol/infer_filter_type.js): inferFilterType, with
--   the rounding of its doubles in Filter.Doubles.
-- - Recipients (src/backend/drafts/reply_all_recipients.js, reply_to_sender_recipients.js and
--   address_helpers.js).
-- - A64 (src/shared/a64.js): the encoding of numbers of 64 bits to text: encodeInt, parseUI64,
--   decodeUI64, cmpUI64 and maxUI64. A64.Mix and A64.Glue are about the halves of a decimal
--   number, A64.Digits, A64.Padding and A64.Strings about the digits.
-- - Ids (src/shared/id_conversions.js): the parts of account, folder and message ids; it stands on
--   A64.
-- - Backoff (src/backend/errbackoff.js): the state machine of an endpoint.
-- - Lines (src/backend/streamy/line_transform_stream.js): chunks of bytes to lines.
--
-- How the code is read. An identifier, a flag or an address is only compared by `===`; a number
-- stands for it. A Set and a Map keep the order of insertion and are lists. An object that is
-- changed in place is passed on as a new record; where it is reached from two places, as a task is
-- from a stash and from the list of tasks, it stands once and the other place holds its index. A
-- function that can raise returns an option, and `none` is the exception. What the code awaits of a
-- server, of an app or of the clock is a parameter. Dates and counts are natural numbers, except
-- where the code lets them be negative.
--
-- The binary searches are loops; they run on fuel, one more than the length of the list, and are
-- shown to end within it. The two loops of the task groups that follow `parentGroup` run one more
-- round than there have been groups, which is enough since a parent is older than its child. The
-- digits of a number are taken by recursion on accessibility. The rounding of a double takes 64 rounds,
-- which is enough for the estimates, whole numbers below 2 ^ 53. All other loops are over lists.
--
-- Not modelled: logging, the database and the network, the task manager, the heap that the
-- priorities stand on, the rest of the bridge, a window that is sought by coordinates, the processing
-- of message bodies, and vendored code.
pub mod A64
pub mod Backoff
pub mod Batch
pub mod Bsearch
pub mod Churn
pub mod Common
pub mod Comparators
pub mod Delta
pub mod Filter
pub mod FolderToc
pub mod Gmail
pub mod Groups
pub mod Ids
pub mod Lifecycle
pub mod Lines
pub mod Priorities
pub mod Recipients
pub mod Resources
pub mod TaskPriorities
pub mod Toc
pub mod Triggers
pub mod Vanilla
pub mod Views
