-- ===== src/Lib.antt =====
-- fx_deal_manager: a service in which traders make foreign-exchange deals, the program checks them and
-- computes their payments, and positioners approve them, which sends the payments to a position system.
--
-- The parts, from the data up, each with the Python file that it models:
--   Domain       src/fx_deal_manager/domain/{enums,models,schemas}.py: rows, requests and answers
--   Decimal      `decimal.Decimal` of the standard library, for what the services do with it
--   Issues       ValidationIssue and RegulatoryNsiError, with their messages
--   Validation   services/validation.py: ValidationService.validate
--   Settlement   services/settlement.py: SettlementService.calculate_value_date
--   Payments     services/payment_calculator.py and services/nostro_assignment.py
--   Limits       services/limit_check.py and repositories/limit_repository.py
--   Nsi          repositories/nsi_repository.py: reference data
--   Position     integrations/position_client.py: PositionSystemAdapter: send_deal
--                with its retries, the service token, positions_report
--   Store        the session: repositories/deal_repository.py, repositories/audit_repository.py,
--                services/audit_log_service.py, core/fault_injection.py
--   Deals        services/deal_service.py: DealService
--   Approval     services/approval_service.py: ApprovalService
--   Listings     list_deals of the deal repository and service, and get_queue: pages of deals
--   Regulatory   services/regulatory_report.py: RegulatoryReportService
--   Lookups      LookupCache of the deal repository, the codes of domain/enums.py, and the lookup rows
--                of alembic/versions/001_initial_schema.py, 002_ and 003_
--   Schema       the keys that 001_ and 005_ declare, and the rows that they insert
--   Audit        list_events of the audit repository and service: pages of events
--   Reports      api/routes/reports.py: the deals report and the regulatory report as rows of cells
--   Notifications  api/routes/notifications.py: the audit log as notifications
--   Me           api/routes/me.py: the user's profile
--   Positions    api/routes/positions.py: balances and exposure for each currency
--   Quotes       api/routes/quotes.py: the last rate of each currency pair
--   Reference    services/nsi_service.py and api/routes/nsi.py: the reference data that users see
--   Auth         api/auth.py and get_current_user of api/dependencies.py
--   Requests     api/routes/deals.py and require_role of api/dependencies.py; a session per request
--   Api          api/exceptions.py, api/middleware.py, main.py, core/config.py, api/routes/health.py and
--                api/routes/audit.py: the application around the deal routes, and its settings
--   Lifecycle    the specification: the moves of a deal, with their audit entries
--   History      sequences of requests, and what holds after them
--
-- How the code is modelled. A method of a service is an Action: it takes a session and gives a result
-- or an exception, and the session after it. A session holds what is committed (`stored`), what the
-- session sees (`current`) and what was sent (`effects`). `flush` and `commit` may be refused by the
-- database, as `Environment.accepts` says; `rollback` returns to what is committed; a request that
-- ends without a commit leaves `stored` as it was. An assignment to an attribute of a loaded deal is
-- `write`. The rounding of NUMERIC columns is the parameter `Environment.numeric`, of which no more is
-- assumed than, in one statement, that it keeps the numbers of one deal. Deals refer to their lookup rows by the member of the enumeration. UUIDs and dates are
-- numbers; the UUIDs that a request draws are arguments of the request.
--
-- Outside the program, and therefore parameters: the settings, the database's verdict on a flush, the
-- identity provider and the position system (Position.Gateway, Store.Environment), the text search by
-- ILIKE (an argument of Listings and Audit), the clock, the time stamps of the database and its order of entries with one time,
-- FastAPI with Starlette (Api.Framework), the JWT library, and Python's order and cases of texts.
--
-- Loops. The search for a business day counts down the 366 days that the code allows before it raises,
-- so the bound is the code's own; Settlement/Loops has the loops as they are written, on fuel, where 367
-- rounds are enough. The attempts at a payment count down the setting of the retries.
-- `Decimal.excess` removes at most as many digits as the coefficient counts, which is never reached.
--
-- Not modelled: sessions that overlap in time; the time stamps of deals and the identifiers of payments;
-- HTTP, pydantic and the quoting of CSV; the column lengths, the indexes and the downgrades of the
-- migrations and the tables of 004_; the set-up of the logging library, the registration of routers, and
-- the call of alembic.
pub mod Prelude
pub mod Decimal
pub mod Domain
pub mod Settlement
pub mod Payments
pub mod Issues
pub mod Limits
pub mod Validation
pub mod Nsi
pub mod Position
pub mod Store
pub mod Schema
pub mod Deals
pub mod Approval
pub mod Audit
pub mod Notifications
pub mod Me
pub mod Quotes
pub mod Reference
pub mod Positions
pub mod Auth
pub mod Lookups
pub mod Reports
pub mod Listings
pub mod Regulatory
pub mod Requests
pub mod Api
pub mod Lifecycle
pub mod History
pub mod Tests
