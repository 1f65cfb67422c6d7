-- ===== src/Lib.antt =====
-- yandex-tank: a load testing tool. A core (yandextank/core/tankcore.py) loads plugins, starts a
-- load generator, polls all plugins until one of them ends the test, and ends and post-processes
-- them. Meanwhile the aggregator (yandextank/aggregator) gathers the results of the generator and
-- its statistics, joins them second by second and tells its listeners. One listener is the autostop
-- plugin (yandextank/plugins/Autostop), which feeds every second to its criteria and stops the test
-- when one of them triggers. Before the test the stepper (yandextank/stepper) makes the ammo and
-- the schedule.
--
-- Modules:
--   Prelude          names of the libraries; Booleans, lists, integers, dictionaries, queues, text,
--                    and `Result` for what may raise
--   Numbers          Python's numbers where floats occur, as an interface: a type with the runtime's
--                    operations. Theorems that need more of it (exact sums below 2^53, a positive
--                    int is not zero) take that as a hypothesis. Numbers.Rational is an instance,
--                    the fractions, at which the theorems are applied to concrete data
--   Duration         `expand_time` and its callers in yandextank/common/util.py
--   Autostop         the plugin: Sample is the data of a second; AvgTime, HttpCodes, NetCodes,
--                    Quantile, TimeLimit and UsedInstances are the classes of criterions.py, which
--                    share Streak; WindowCounter, FracTime, Window (shared by TotalHttp, TotalNet,
--                    NegativeHttp and NegativeNet) and HttpTrend are those of
--                    cumulative_criterions.py; Criterion is their common interface, with
--                    `__create_criterion`; Plugin is plugin.py, with the widget
--   Aggregator       TankAggregator is `_collect_data`, Poller is `_data_poller`, Chopper is
--                    `TimeChopper` of chopper.py
--   Stepper          Status is `StepperStatus` of info.py, InstancePlan is `LoadPlanBuilder`,
--                    LoadPlan is load_plan.py (Parsing is `StepFactory`), Stpd is format.py,
--                    Missile is missile.py (Http the request, Lines, Uris and AmmoFile the
--                    readers), Mark is mark.py, Config is `ComponentFactory` of config.py, and
--                    Writing is `AmmoFactory` and `Stepper.write` of main.py
--   Scanner          `FileScanner` of yandextank/common/util.py
--   Core             Polling is `wait_for_finish`; Finishing is `plugins_end_test`,
--                    `plugins_post_process` and the classes `Finish` and `Cleanup` of
--                    yandextank/common/util.py; Locks is `Lock` and `JobsStorage`; Artifacts is
--                    the collection of the artifact files, Loading is `load_plugins` and the stage
--                    of preparation, ReturnCodes is the plugin RCAssert
--                    (yandextank/plugins/RCAssert); TankInfo is that of
--                    yandextank/common/interfaces.py, with `recursive_dict_update` of
--                    yandextank/common/util.py
-- A Laws module (and Creation, Streaks, Windows, Ending, Success, RoundTrip, Times, Ends, Loops,
-- Chunks, Paths, Kept, Merging, Limits, Factory, Limit, AmmoLimit, Rows, Order, Exclusion and those
-- they use) holds the theorems about its parent.
--
-- State is passed on explicitly: an operation takes a record and returns the new one. A criterion's
-- method `notify` returns the criterion, whether it triggered and whether it called `add_counting`;
-- the plugin puts the criterion back in its place. What may raise returns `Result`; where an
-- exception leaves a changed object behind (`StepperStatus`), the object is returned beside the
-- exception. Time is an argument. The regular expressions of the masks are a parameter: a compiled
-- mask is a test on the code. Plugins in Core stand by what their methods return or raise.
--
-- Files are the bytes after their position. A generator is the list of what it yields, with how it
-- ends; what its consumer does with an item before it asks for the next one is a function on the
-- state that both share.
--
-- Loops are structural recursion over the seconds, sources, steps, plugins or lines where the code
-- walks over them. Elsewhere they take a number of rounds. For `wait_for_finish` it is when the test
-- is interrupted, and the theorem covers every number. For the readers of ammo, which may loop for
-- ever, it is how long they are watched: the theorems say how many rounds end a loop that has a
-- limit. For the stpd reader and the chopper it is the size of the input, with theorems that this
-- is enough.
--
-- Not modelled: printing and logging; the threads of the aggregator, whose queues are the lists
-- that a call takes; the aggregation of a second, which numpy and pandas compute; the text of an
-- instance schedule's steps, whose numbers are the arguments here; yandextank/contrib/netort, a
-- copy of another library, which opens the ammo files; what pandas does with a frame, and YAML
-- with a file; and the parts of the program that have no module above.
pub mod Prelude
pub mod Numbers
pub mod Duration
pub mod Autostop
pub mod Aggregator
pub mod Stepper
pub mod Scanner
pub mod Core
