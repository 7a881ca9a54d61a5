-- ===== src/Lib.antt =====
-- A model of the core of a dating and meet-up backend: its logins, its money, its activities, its
-- companion bookings, its matches, clubs and conversations, and the outbox of domain events, with
-- the theorems that make them correct.
--
-- The parts and how they interact. The commerce service (app/modules/commerce) takes orders, pays
-- them through payment channels or from a user's wallet, delivers what was paid for, and refunds
-- it. It marks a companion's booking paid and enqueues domain events. The messaging service
-- (app/modules/messaging/service.py) sends money in conversations from wallet to wallet. The
-- companion service (app/modules/companion/service.py) books slots, and places an order for each
-- booking. The activity service (app/modules/activity/service.py) fills the seats of activities and
-- keeps their waitlists. The recommender (app/modules/recommend) orders them for display. The
-- outbox (app/modules/events/service.py) is drained by the worker (workers/tasks.py). The match
-- service (app/modules/match/service.py), the community (app/modules/community/service.py), the
-- clubs (app/modules/clubs/service.py) and the conversations (app/modules/messaging/service.py)
-- each work on tables of their own and on the blocks of app/modules/safety/service.py, and
-- app/modules/auth/service.py lets users in.
--
-- Files and code:
--   Prelude, Prelude/*            helpers on Booleans, lists and signed integers over native numbers
--   Shared/Errors                 app/shared/errors.py and the codes of app/shared/response.py
--   Shared/Action                 a handler in one database session: state in, result out; an error
--                                 carries no state, since a session that raises is never committed
--   Shared/Action/Keeps, Gives    the rules by which invariants and results of handlers are proved
--   Shared/Table                  a table keyed by its primary key (`db.get`, `db.add`, `where`)
--   Shared/Idempotency, Replay    app/shared/idempotency.py
--   Shared/RateLimit, Burst       app/shared/rate_limit.py, over the commands of Redis as a parameter
--   Events                        enqueue, claim_batch, mark_done, mark_failed, drain_domain_events
--   Events/Attempts, Rows, Saved, Claims, Accounted, Counted
--                                 what a worker claims, and how often events are claimed
--   Commerce/Wallet               app/modules/commerce/wallet.py: ensure_account, charge, credit,
--                                 _credit (credit_account), brief, list_ledger, reconcile_user
--   Commerce/Wallet/Balance       balances are the sums of their ledgers
--   Commerce/Wallet/Effects       what a charge and a credit do
--   Commerce/Data                 the tables of app/models/entities.py that commerce uses
--   Commerce/Orders               create_order of app/modules/commerce/service.py
--   Commerce/Payments             get_order, cancel_order, pay_order, expire_unpaid_orders
--   Commerce/Settlement           handle_notify, _settle_payment, _on_paid, and the channels of
--                                 app/modules/commerce/providers.py
--   Commerce/Membership           _resolve_plan, _activate_membership, credentials
--   Commerce/Refunds              submit_refund, complete_refund
--   Commerce/Frame, Money, MoneyHandlers, Requests
--                                 every handler keeps the wallets sound; sequences of requests
--   Commerce/Prices               what a new order costs
--   Commerce/PaymentLaws, NotifyLaws, RefundLaws
--                                 what payments, notifications and refunds do
--   Messaging/Transfers           create_transfer, accept_transfer, cancel_transfer
--   Messaging/InTransit, Conservation, Requests, Payout
--                                 no transfer makes or loses money; each is paid out once
--   Activity/Data, Participation  create, join, quit, join_waitlist, leave_waitlist, update (its
--                                 capacity), cancel, _promote_waitlist
--   Activity/Rows, Seats, Promotion, Order, Handlers, Requests
--                                 the count of seats, and the order of the waitlist
--   Companion/Data, Booking       create_booking, transition, mark_booking_paid, _release_slot,
--                                 create_slot; app/models/companion.py
--   Companion/Steps, Lifecycle, Progress, PaidFor, Holding, Ordering
--                                 the life of a booking, and the slot that it holds
--   Shared/Pairs, Users           tables unique by a pair of columns, and the columns of an account
--   Clubs/Data, Tags, Service, Founding
--                                 `ClubService` of app/modules/clubs/service.py; app/models/orgs.py
--   Clubs/Manned, Private, Handlers, Membership, Opening, Requests
--                                 members, their count and their chats stay in step
--   Clubs/Standing, Conduct       what clubs promise a user, and that every request keeps to it
--   Clubs/Console                 what `admin_set_status` does to a dissolved club
--   Matching/Data, Service, Ending
--                                 app/modules/match/service.py, and the blocks of
--                                 app/modules/safety/service.py
--   Matching/Mutual, Keeping, Requests, LikeBack
--                                 who is matched, when a match is made, and that it ends for good
--   Chats/Data, Members, Opening, Friends
--                                 conversations and friends of app/modules/messaging/service.py
--   Chats/Owned, Leaving, Departures, Keeping, Opened, Requests
--                                 every conversation has its owner in it
--   Chats/Mutual, Company, Friendly
--                                 friendship is mutual
--   Auth/Data, Codes, Accounts, Sessions, Requests
--                                 app/modules/auth/service.py and app/modules/messaging/uid.py
--   Auth/Spent, OneRefresh        a refresh token is used once
--   Auth/OneLogin                 a code that was sent logs in once
--   Community/Data, Service, Console, Counts, Writes, Authoring, Requests
--                                 app/modules/community/service.py, and the reviews of
--                                 app/modules/admin/community.py and moderation.py; the counters of posts
--   WordList, WordList/Highest    app/modules/safety/content_safety.py; the verdict on a text
--   Recommend/Diversify, Variety  diversify of app/modules/recommend/activity_scorer.py
--   */Tests                       concrete data on which the theorems apply
--
-- How the model reads the code. Amounts in cents are signed integers; Python's do not overflow. A
-- time is a number of seconds, and a handler reads the clock once. A row's `uuid4()` is the next
-- unused number. A table is a list of rows in the order of insertion, and `scalar_one_or_none`
-- raises where it finds two; the rows of activity participants are keyed by the pair that a unique
-- constraint covers. Enum strings of a request are read into the enum, or `none` where they name no
-- member. The text made by formatting (order and serial numbers, amounts, previews), the settings
-- and the verdict of the content check are fields of an environment, and so are the signing of
-- tokens, the hashes of passwords and what the sender of messages answers. What is written to Redis
-- stays when a handler raises. Text arguments are already stripped, and cut to their columns.
-- Requests are modelled one after another. The code locks the rows of most tables that a request
-- changes, but not the rows of wallets. The rows that other workers lock are an argument where the
-- code skips them. The loop that promotes from a waitlist runs on as many turns as there are free
-- seats, which it is shown never to need more than.
--
-- Not modelled: texts for display, listings, event payloads and the handlers of events, the chat
-- groups and engagement records that joining an activity also writes, calls, reviews of companions,
-- the services for users, guilds, reports, trust, media, analytics and administration, and the
-- framework around them.
pub mod Prelude
pub mod Shared
pub mod Events
pub mod Companion
pub mod Commerce
pub mod Messaging
pub mod Activity
pub mod Recommend
pub mod Clubs
pub mod Matching
pub mod Chats
pub mod WordList
pub mod Community
pub mod Auth
