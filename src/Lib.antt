-- ===== src/Lib.antt =====
-- Zhiniu (apps/api/src/zhaoniu_api), a research service for A-share companies: an HTTP API with
-- a PostgreSQL database, background workers and external data providers. The services of the API
-- hold its own logic; several of them are modelled here as pure functions. A service that writes
-- is a function from the tables it reads to an answer and the tables after its commit, since
-- each call is one transaction; a refusal leaves the tables as they were.
--
-- AccessControl models access_control/: Codes is codes.py (the form, the digest and the
-- canonical form of invitation and activation codes), Store the tables of db.py that the service
-- uses, Terms `add_calendar_term`, Entitlements `effective_entitlements` and `access_envelope`,
-- Activation `activate`, with every error and every write, and Issuing
-- `generate_registration_invites` and `issue_access_code`. An issued code is a row of the table
-- that `activate` then searches by its digest, and `effective_entitlements` reads the
-- subscription that `activate` writes.
--
-- Auth models auth/service.py and legal.py: Store holds its tables, the request (settings,
-- clock, draws, hashes and the answer of the email provider) and its errors; Sessions login and
-- the checks of a token, Sessions/Ending the ways to end a session; Emails the verification of
-- an address and the delivery of messages; Passwords the resets; Legal the documents;
-- Registration `register`, which reads the invites that AccessControl/Issuing writes. Service
-- makes the requests one type and runs sequences of them: Preserved shows what no request
-- undoes, Ended, Replaced and Registered/Invites what follows for tokens and invites, Accounts
-- and Registered/Members what holds of the accounts, Entering what a login gives, and Refusals
-- what becomes of a registration with a taken address. Safe has the rules for an outcome that
-- may be an error.
--
-- Automation models automation/service.py: Models is its tables, Slots `due_slot`, Levels
-- `build_automation_slo_snapshot`, Skips `_skip_reason`, Runs `_execute_step` and the loop over
-- the steps, and Runs/Leases `execute_run`, `_finalize_run`, `resume_run` and
-- `_mark_stalled_run`. An execution takes the free run, then its pending steps in their order,
-- and closes the run (Runs/Executed); a resumption opens it again (Runs/Resuming) and leaves
-- what has succeeded (Runs/Settled). What the executor answers for a step is given.
--
-- ProductionRelease models production_release/: Models and Environment are its tables and what
-- it reads of other parts, Checks the two gates (`_closed_deployment_checks` in Checks/Closed,
-- `_invite_activation_checks` in Checks/Invite and Checks/Rows), Gates `evaluate`, and Service
-- `create`, `approve` and `record_event`. Service/Steps makes the operations one step relation,
-- on which the automaton (Service/Transitions), the rules of the tables (Service/Rules,
-- Service/Approvals, Service/Lifecycle) and the final states (Service/Terminal) are proved.
--
-- PeerResearch models peer_research/engine.py: Statistics holds the percentile, the rank and the
-- quantiles (Statistics/Places says which value a quantile is), Compare `compare_metric` and
-- `universe_status`.
--
-- Research models research/rules.py: Series is what a rule reads, Rules `_growth_rule`,
-- Comparisons `_same_period_delta_rule`, `_gap_rule` and `_valuation_rule`, Observations
-- `_make_observation`, and Evaluate the table RULES and `evaluate_rules`. Directions,
-- Differences and Percentiles show what each rule finds, Total joins them for the table, and
-- Returned follows them through the loop and the sort.
--
-- CorporateEvents models corporate_events/engine.py: Rules is the table RULES in its order,
-- Classify `classify_title` and `attention_for`, Extract the payload and the thread of an event
-- (`_selected_fields`, `_family_fields`, `_effective_date`, `_thread_identity`), and Candidates
-- `extract_candidate`, which takes what Classify gives.
--
-- MarketData models `validate_daily_bar_batch` of market_data/quality.py (Bars is the batch and
-- the checks of a bar, Bars/Validity and Bars/Batches its proofs) and
-- market_data/trading_calendar.py: Calendar holds `calendar_health_status` and
-- `AKShareTradingCalendarNormalizer.sessions`.
--
-- DateTime holds calendar dates and moments. Prelude passes on the names of the libraries and
-- holds the lists, texts, searches, sorts and integers that the parts share.
--
-- Conventions. A UUID is a number, and so is a digest or a fingerprint, which stands for its
-- text. A text is the list of its code points; the codes of AccessControl are ASCII. In
-- AccessControl and Auth a moment is a UTC datetime by its calendar fields, compared by one
-- number; in Automation, ProductionRelease and MarketData it is a number of microseconds (in
-- Automation/Slots since 1992, from when on Shanghai has had one offset from UTC), and a
-- difference of moments is compared by adding to the earlier one. A Decimal of PeerResearch,
-- Research or MarketData is an integer number of a common unit, and the quantiles are in
-- quarters of that unit, so that they are exact; Decimal's rounding is not modelled. `hmac`,
-- `uuid4`, `secrets.choice`, the clock, `isoformat`, `fromisoformat`, `casefold` and the
-- fingerprints are arguments of the operations that use them. An index that Python refuses is
-- `none`. All loops are structural recursion on a list or a number; nothing runs on fuel.
--
-- Not modelled: the order in which the database returns rows where the source gives none, the
-- rendering of answers as JSON, the validators of request bodies, `validate_runtime_security`
-- and the provider configuration (their answers are given to the gates), `latest_by_metric`, the
-- storage of events, the email gateways, the planning and the triggers of runs, and the other
-- services: screening, coverage, comparisons, fundamentals, the storage of research, feeds,
-- timelines, language models, the invited programme, provider acceptance, and the operations
-- console. The operations console can make a user active without the check of capacity that a
-- registration makes. A text of a summary or an expression of an observation stands by the
-- numbers that it prints. The web application, the workers and the scripts call these services
-- and hold none of their logic.
pub mod Prelude
pub mod DateTime
pub mod AccessControl
pub mod Auth
pub mod Automation
pub mod PeerResearch
pub mod CorporateEvents
pub mod ProductionRelease
pub mod Research
pub mod MarketData
