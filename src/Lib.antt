-- ===== src/Lib.antt =====
-- A verification library for ProcureIQ, the procurement analytics backend of this repository. It
-- models the calculation modules of backend/app/analytics and the services that apply them to
-- stored rows, translated function by function from the Python source.
--
-- The parts and how they interact. The analytics modules are pure functions on Decimals, dates and
-- strings. The services load rows, call them, and write their results back: the price review
-- service keeps the lines of a review and calls the price review calculations; the opportunity
-- service keeps the register of savings opportunities, whose amounts the savings register
-- computes; the rebate service keeps the periods of an agreement and calls
-- the rebate calculations; contracts, purchases, stock and spend each have their calculations. The
-- matching components pair the rows of two price lists, which the ingestion has validated and the
-- price review service turns into the lines of a review, and the duplicate detection service flags
-- what they pair among the rows of one; working capital and stock valuations are snapshots, which
-- later submissions correct.
--
-- Which file models what:
--   Decimal            `decimal.Decimal`: the default context and `quantize`, which every module
--                      uses through its own `round_currency`
--   Calendar           `datetime.date`: ordinals, and the calendar of years, months and days
--   Result             the exceptions as values; backend/app/core/exceptions.py
--   PriceReview        Calculations: backend/app/analytics/price_review_calculations.py; Line: the
--                      line of backend/app/db/models/price_review.py and the operations on one line
--                      of backend/app/services/price_review_service.py (`calculate_line_movement`,
--                      `resolve_match`, `set_manual_quantity`, `set_negotiation_target`,
--                      `set_buyer_decision`, `record_negotiation_outcome`); RunMatching: its
--                      `run_matching`; Summary:
--                      backend/app/analytics/price_review_summary.py
--   Opportunity        Model: backend/app/db/models/opportunity.py with its check constraints;
--                      Events and Service:
--                      backend/app/services/opportunity_service.py; Steps: the registers that its
--                      operations reach; Progress and Endings: paths of advances
--   Rebate             backend/app/analytics/rebate_calculations.py; Model and Service:
--                      backend/app/db/models/rebate.py and
--                      backend/app/services/rebate_service.py; Steps: its operations as steps;
--                      Aggregation: backend/app/services/rebate_aggregation_service.py
--   Contract           backend/app/analytics/contract_calculations.py
--   PurchaseLedger     backend/app/analytics/purchase_ledger_calculations.py
--   Savings            backend/app/analytics/savings_register.py
--   Inventory          backend/app/analytics/inventory_calculations.py
--   Spend              backend/app/analytics/spend_analytics.py
--   Revenue            backend/app/analytics/revenue_waterfall.py
--   CashForecast       backend/app/analytics/cash_forecast.py
--   Treasury           backend/app/analytics/treasury_engine.py
--   Logistics          backend/app/analytics/logistics_engine.py
--   ManagementAccounting  backend/app/analytics/management_accounting.py
--   Matching           backend/app/matching: Normalize (normalize.py), Exact (exact_matcher.py),
--                      Scorer (scorer.py and review.py), PackParser (pack_parser.py), RouteLog
--                      (route_log_validation.py)
--   Ingestion          Validation: backend/app/ingestion/validation.py, and the rows that
--                      backend/app/api/v1/price_reviews.py stages after it
--   Consolidation      Graph: backend/app/analytics/domain_graph.py; Model:
--                      backend/app/db/models/opportunity_flags.py; Review and Scan:
--                      backend/app/services/duplicate_detection_service.py
--   Snapshots          WorkingCapital: backend/app/services/working_capital_service.py; Valuation:
--                      backend/app/services/inventory_valuation_service.py; Aging:
--                      backend/app/analytics/inventory_valuation_aggregation.py
--   Prelude            lists, integers, sorting and the Boolean tests that the parts share
-- Definitions keep the names of the source. A method that mutates a row takes the row and returns
-- it, or an error; the tables that a service writes to are lists, newest row first.
--
-- Numbers. A Decimal is an integer number of units of 10^-60. A sum, a product or a quotient is the
-- exact one rounded once, half to even, to 28 significant digits; digits below 10^-60 are rounded
-- there, where Python goes to 10^-1000026, and a zero has no sign. `quantize` to more than 28 digits
-- and a division by zero are errors, as in Python, and 0 / 0 is an InvalidOperation. The value of a
-- NUMERIC(18, 4) column is a number of ten-thousandths (`money`). There is fuel in the search for
-- the rounding position (`ulp`), which is given the number itself, as `ulp_bound` shows to be
-- enough, and in the digits of a number (`str_of`), which are given one more than the number, as
-- `numeral-digits` shows. Python ints are natural numbers or integers without bound, as in Python.
-- Dates are ordinals, or civil dates of the years 1 to 9999; a date outside them is a ValueError,
-- also for a year beyond a C int, where Python raises an OverflowError.
--
-- Text. A str is a list of ASCII characters. The score of a pair of descriptions blends
-- float ratios of Python's `difflib` and is a parameter of the scorer, in ten-thousandths. A price
-- is read from digits, a sign and a point; the exponents, underscores and special values that
-- `Decimal` also reads are malformed here.
--
-- What is not modelled: the HTTP routes and schemas, the sessions, locks and queries of the
-- database, whose rows are arguments here, the migrations, authentication, the file readers, the
-- AI components, the fuzzy matcher, the reports and the front end. Random identifiers and clock
-- times are arguments. A power with a negative exponent is not modelled.
pub mod Prelude
pub mod Result
pub mod Decimal
pub mod Calendar
pub mod Rebate
pub mod Matching
pub mod Consolidation
pub mod PriceReview
pub mod Opportunity
pub mod Contract
pub mod PurchaseLedger
pub mod Savings
pub mod Inventory
pub mod Spend
pub mod Revenue
pub mod CashForecast
pub mod Treasury
pub mod ManagementAccounting
pub mod Snapshots
pub mod Ingestion
pub mod Logistics
