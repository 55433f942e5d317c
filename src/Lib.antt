-- ===== src/Lib.antt =====
-- Verification library of kestrel-cloud-runpod: the leases of Runpod Pods.
--
-- The program rents GPU Pods. Every Pod is covered by a lease, a row of one SQLite table, so that a
-- Pod is torn down and its bill settled although processes crash and several of them work at once. A
-- request reserves a row before any provider call (reserve); from then on the service reads a row,
-- decides, and writes it back under compare-and-set on its revision; a conflict sends it round a loop.
--
-- Modules and sources (paths from the repository's root):
-- - Prelude: Boolean tests and lemmas that the other modules share.
-- - Capacity: kestrel_cloud_runpod/pod_capacity_contracts.py. States has the enumerations, Evidence
--   the receipts, placements and first observations with their __post_init__ checks as Boolean tests,
--   Lease the requests and TrainingPodLease, Errors the exceptions.
-- - Repository: kestrel_cloud_runpod/pod_capacity_repository.py. Columns and Table have the row
--   update, the partial unique indexes, get and compare_and_set; Reserve has reserve; Listing has the
--   queries. A transaction is a function of the table. Evolution, Swap, Unique, Keyed, Once,
--   Worklist and Members hold what the transactions mean for a row and for the table.
-- - Service: kestrel_cloud_runpod/pod_capacity_service.py. World has the actions, Transitions the
--   compare-and-set loops and the merge of evidence, Settlement _reconcile_billing and
--   _revoke_and_release, Release _release_one and _resolve_uncertain_creation, Mutations the
--   operations of a training job, Family the release of a cleanup family, Acquire, Readiness and
--   Admission the acquisition of a Pod and the wait for its worker, Workload the catalog workload with
--   its observation and hand-off, Reconcile the reconciliation pass. Safety holds the rules for
--   actions beside other writers, one rule for each way to build an action, and its children the
--   operations; History runs any operations in any order; Progress is about the retry
--   loop, and Livelock about a conflict that no retry resolves.
--   Workload's Monotone is about what an observation may change, Access about the owner's binding.
-- - Capacity.Codec: the JSON objects (to_dict, from_dict) of the receipt, the placement and the
--   lifecycle, from the same file as Capacity.
-- - Billing: kestrel_cloud_runpod/billing.py and pod_billing.py. Hours has the window, Tiling and Exact
--   the rows of a page, Accepted the pages that pass, Receipt the receipt.
-- - Placement: kestrel_cloud_runpod/placement.py, with the offers of models.py; Choice has the choice.
-- - Quote: the quote requests, quotes and pod_cost_usd of kestrel_cloud_runpod/pod_capacity_contracts.py
--   and quote of pod_capacity_provider.py, on Placement's choice; Costs has the costs, Offered the
--   quotes that the provider makes. The record Platform stands for Python's re, str.strip, hashlib and
--   json, and for the client's list_gpus.
-- - Tests: sample data, and runs on it.
--
-- How the code is modelled. A method is an action: a function from a world (the table, what other
-- writers commit before each of the next transactions, a count of answers, and the calls that were
-- made) to a result and a world. An exception is a result with raise; try_except and try_else are
-- try blocks with one except clause. The clock, the provider, the capability store and SHA-256 are
-- fields of Environment, arguments of every method; their answers may be any at all, and may differ
-- from call to call. An await of the provider is a point where other writers may commit, as is every
-- transaction. An instant is a number of microseconds and an amount of money a number of units of a
-- fixed power of ten. The while loops run on the rounds that Environment.fuel gives; a loop that has
-- none left raises out_of_fuel, an error that no except clause catches. Two rounds more than there
-- are writers to come are enough for the loop of _transition_nonterminal.
--
-- The texts of instants and amounts that JSON holds are written and read by Python's datetime and
-- decimal modules, which the record Texts stands for.
--
-- Not modelled: the patterns of identifiers and digests (but where a quote is checked), the checks of a
-- stored hand-off or specification on its own, the other JSON objects, the SQL migration, logging, the
-- environment variables of an attempt (their digest is an argument), and the other parts of the package (Ollama leases, serverless endpoints, clients, the feature).
pub mod Prelude
pub mod Capacity
pub mod Repository
pub mod Service
pub mod Billing
pub mod Placement
pub mod Quote
pub mod Tests
