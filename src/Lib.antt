-- ===== src/Lib.antt =====
-- A bot that reads Telegram chats, has a language model pick and score leads in them, and
-- stores the leads and the business pains it finds. A user owns programs, a program owns chats,
-- leads, pains and clusters of pains. The free plan allows one program and one analysis a week;
-- a payment in Telegram Stars lifts both limits.
--
-- The parts, and the files that model them:
-- - Prelude, Json, DateTime: numbers, lists, text as lists of code points, the Python values of
--   an answer in JSON, and naive datetimes as a date and the microseconds since midnight.
-- - Models (bot/models): the rows of the tables as records, less the columns that no modelled
--   code reads (created_at of programs and leads, collected_at, interest_summary,
--   raw_user_profile_data, published_at). Models.Table has the forms of query the program
--   makes, on lists of rows.
-- - Subscription (bot/services/subscription.py): plans, limits and the paid period. Every
--   function takes the time `now` that _utc_now returns, and returns the user it changed.
-- - Payments (bot/handlers/subscription.py): the invoice that is offered and the payment that
--   is credited, as functions on the table of users; a reply is a constructor with the data in
--   its text.
-- - Qualifier (modules/qualifier.py): Payload cuts the JSON out of an answer, Recovery is the
--   scanner for answers that were cut, Prompt builds the candidate's text, Qualify scores, and
--   Batch is the screening of a chat with its one retry.
-- - PainStore (bot/models/pain.py): the table of pains under a session, with the unique
--   constraint, pending rows and the deduplication query.
-- - PainCollector (modules/pain_collector.py): pains that the model finds in batches of
--   messages.
-- - PainClusterer, ClusterStats (modules/pain_clusterer.py): the assignment of pains to
--   clusters by an answer, and the figures of a cluster; a flush checks that every pain's
--   cluster exists.
-- - ProgramRunner (bot/services/program_runner.py, run_program_pipeline): the candidates of a
--   program's chats, scored, saved as leads under the unique constraint, with their pains; a
--   Step is what the loop's body did.
-- - ProgramJob (bot/services/program_runner.py, _run_program_job_inner): the job around the
--   pipeline, with the weekly limit before it and the clustering after it.
-- - PainSaver (bot/services/program_runner.py, _save_pains_from_lead): the pains of a qualified
--   lead.
-- - MembersParser (modules/members_parser.py): Links and Bio write and find links, Scan walks
--   through a chat's history with its flood waits, Screen and Candidates choose the users and
--   build the candidates.
-- - ContentGenerator (modules/content_generator.py, generate_post): the draft that a model
--   writes on a cluster.
-- - PainMenu, PainHandlers (bot/ui/pains_menu.py, bot/handlers/pains_handler.py): the data of
--   the buttons, and the pages of clusters, quotes and drafts behind them.
-- - ProgramCreate (bot/handlers/program_create.py, bot/states.py): the dialogue from the name
--   of a new program to its row, with the limit of the free plan at its end.
-- - ProgramEdit (bot/handlers/program_edit.py, bot/states.py): the dialogues on a program's
--   name, niche, chats and settings as a state machine; Router has the order of the routes, and
--   a run is a list of what one user pressed and wrote.
--
-- How they interact: a chat's messages go through Batch, its leads through Qualify, and the
-- pains of those that pass through PainSaver (or a whole chat through PainCollector) into one
-- PainStore. Payments changes users by Subscription, whose limits guard the creation and the
-- runs of programs. ProgramJob puts the check, ProgramRunner and PainClusterer together.
--
-- Code from elsewhere is a parameter: `loads` is json.loads (`none` is JSONDecodeError),
-- `from_iso` is datetime.fromisoformat with the change to UTC, `ask` and arguments of type
-- Answer are the language model (a content or a raised message), `parse` is what members_parser
-- returns for a source, the reply to each request of MembersParser is Telegram's, `screen` is
-- the screening by the model, `isoformat` writes a datetime, `is_word` says which characters re
-- takes for letters, digits or underscores, `set_order` is the order in which Python walks
-- through a set, `shown` is Python's str of a value that is no string, and `round2 s n` is
-- round(s / n, 2) in hundredths. A raised exception is `none`. An id that the database gives is
-- the next number. A rollback expires the program's row, which an asynchronous session cannot
-- load again on access.
--
-- Bounds and fuel: integers of the program are unbounded, and so are ours; the code's own bound
-- of int32 for Telegram ids of pains is kept, and so are the year 9999 of a datetime and the
-- 100 characters of the columns for the names of programs and their chats. Other limits of
-- columns are not checked. The scanner and all loops recurse on their lists; collect_batches
-- takes fuel, the number of messages, since a batch takes at least one of them, and the search
-- for a chat takes the attempts that are left. Scores of clusters are exact hundredths.
--
-- Not modelled: Telegram, the language model, the database engine and Celery themselves; pure
-- texts, keyboards and logging; and the handlers for the list and the view of programs, the
-- card of a lead, onboarding, authorisation and administration, which may follow.
pub mod Prelude
pub mod Json
pub mod DateTime
pub mod Models
pub mod Subscription
pub mod Payments
pub mod PainStore
pub mod Qualifier
pub mod PainCollector
pub mod PainSaver
pub mod ClusterStats
pub mod PainClusterer
pub mod ProgramRunner
pub mod ProgramJob
pub mod MembersParser
pub mod ContentGenerator
pub mod PainMenu
pub mod PainHandlers
pub mod ProgramEdit
pub mod ProgramCreate
