-- ===== src/Lib.antt =====
-- Verification library of MLCache: a semantic cache that serves a stored response for a query that
-- is near enough to an earlier one, and keeps the rate of false accepts within a budget.
--
-- The parts and how they interact. A request goes to the gateway. It asks the oracle whether some
-- stored entry may be reused, and reads the response of the key that the oracle names from the
-- key-value store. The gateway also keeps the eviction policy in step with the store and evicts
-- while there are too many entries. The trainable oracle scores the candidates of a vector store
-- and compares them with a threshold. The threshold comes from scores of pairs that are known not
-- to be reusable (H0), by a Neyman-Pearson rule, and a new one has to pass a gate with a Wilson
-- bound. A refit policy decides on each request whether the oracle recalibrates its threshold or
-- refits its scorer. The adaptive controller moves the budget of the threshold with the audited
-- outcomes, and the stopping controller ends an online calibration that has converged.
-- The runtime wraps the gateway. It may also ask a query-level policy, which decides on the best
-- candidate of a recorded query by a threshold of its own, calibrated on such records: in the active
-- mode the policy's answer replaces the gateway's, in the shadow mode it is only noted. Judged pairs
-- are kept apart for training and for calibration by the split store. The shadow collector lets a
-- judge label the candidates of a request and stores those pairs, and the audit policy draws the
-- requests that are judged for the adaptive controller.
--
-- Files and sources, below src/mlcache/ of the repository:
--   Eviction      cache/eviction.py: the policy's entries, counter and clock as a record; the
--                 three subclasses are one function of the policy's name, `eviction_sort_key`
--   KvStore       cache/in_memory.py: the dictionary
--   Gateway       cache/gateway.py: `put`, `lookup_with_decision`, `invalidate` and the loop of
--                 `_enforce_capacity`, over an interface `Oracle` with a state of its own
--   Threshold     calibration/query_level.py: `threshold_from_selected_h0_scores`; its
--                 child Store has calibration/threshold_store.py
--   Wilson        calibration/wilson.py
--   Stopping      online/stopping.py: `WindowedOnlineStoppingController`
--   Aci           adaptive/aci_controller.py: `GlobalACIController`; its child State has
--                 `state_dict` and `load_state_dict`
--   Audit         adaptive/audit_policy.py: `MarginBandAuditPolicy`
--   QueryLevel    calibration/query_level.py: the records and `select_max_score`; its children are
--                 Calibrate (`DefaultQueryLevelCalibrationBuilder`), Policy (policies/query_level.py)
--                 and Store (calibration/query_record_store.py, policies/query_level_shadow.py and
--                 the search for a record in runtime/runtime.py)
--   Refit         policies/refit.py: the signals of `ConservativeRefitPolicy`; its child Policy has
--                 `decide` and the check of the configuration
--   Oracle        oracle/trainable.py: the state of `TrainableSemanticCacheOracle`; its children
--                 are Score (`_score_request_with_snapshot`), Activation (the gate), Fit
--                 (`_fit_in_current_thread`, `_recalibrate_threshold_from_rows`), Feedback (the
--                 counters and the final decision), Split (`_split_rows` and what uses it) and
--                 Decide (`decide`, `_maybe_auto_refit`, `_execute_refit_decision`)
--   Runtime       runtime/runtime.py: the results of a lookup; its child Lookup has the handlers
--   Retrieval     retrieval/in_memory.py: `InMemoryVectorStore` and `upsert`; its children Delete and
--                 Search have the other operations
--   Feedback      feedback/store.py: the stores of judged pairs; its child Shadow has
--                 feedback/shadow_collector.py, with `collect` in Shadow.Collect
--   Types         semantic_types.py
--   Prelude, Dict the shared names, Python's exceptions as values and its dictionaries
--   Float         floating-point numbers
--   Tests         examples
-- The other children hold the proofs and are named for what they prove.
--
-- State and errors. A method of an object is a function on a record; one that may raise returns a
-- `Result`. In Gateway, Runtime, Retrieval and Feedback.Shadow an error leaves the state of the
-- moment of the error (`Exec`); in Feedback the tests that raise come before all changes; in Oracle the state after
-- an error is not modelled. A float is an element of a type with the operations of
-- `FloatOps`; theorems that need an order assume `FloatLaws`, which is what IEEE 754 says of
-- comparisons and neighbours. Counts and clocks are natural numbers, so the code's tests for
-- negative ones have no case.
--
-- Bounds and fuel. The loop of `_enforce_capacity` runs on as much fuel as the policy has entries;
-- each round removes one, so it always ends by its own test (`Gateway.Loop.enforce_loop_lem`). All
-- other loops are structural recursion.
--
-- Parameters, for other parts and for code outside the repository: the vector store's search, the judge, the shadow
-- collector and the threshold provider are the arguments of `Oracle.Decide.decide`
-- (Feedback.Shadow.Monitored puts `collect` there); the scorers and the feature builder, which call
-- numerical libraries, are the record `Models`; numpy's operations on the matrix of vectors are the
-- record `Numpy`, whose documented behaviour the theorems on Retrieval assume (`WritesRows`,
-- `SearchLaws`); the generator of random numbers is the record `Random`. Python's `str.strip` and
-- `<` on texts and its `==` on tuples are arguments.
--
-- Not modelled: databases and files, FAISS, the network, the server and the command line, metrics
-- and audit events, the builder of query records, the evidence of decisions for observers, errors
-- of the runtime's query-level handlers beyond those of the policy's `evaluate` and the oracle's
-- `remove`, `floor` of a NaN or an infinity, and locks: threads started by the oracle are returned
-- as jobs, and the part of their work under the lock is a function of its own.
--  invalidate), a gateway with a policy and a bound, whose store and policy hold the same keys
--  within the bound, still is one afterwards: it never holds more responses than the bound, and
--  the policy stays valid and tracks exactly the keys of the stored responses. It is assumed that
--  the oracle's `remove` and `index` raise nothing; its `decide` may answer anything and may
--  raise.
--  threshold, and it accepts at most `min(floor(target * n), n)` of the `n` scores, under both tie
--  modes and in any order of the scores. Floats obey the order laws.
--  candidate: semantic hits are enabled and there is a threshold; the key, the rank and the score
--  are those of a candidate at that place of the search result, whose score passes the threshold
--  under the tie mode; and no candidate that passes has a greater score. Floats obey the order
--  laws.
--  entry, and it goes before every other entry: FIFO takes the oldest insertion, LRU the oldest
--  access, LFU the lowest count and of those the oldest access.
--  scorer and threshold to use or leaves the scorer, the threshold and its version as they are. If
--  it puts them to use, the scorer is the one that the fit made of the old one and the training
--  rows, and the threshold is the one calibrated on that scorer's scores of the calibration rows.
--  The threshold has passed the gate on these scores: the split has the rows that the
--  configuration asks for, the threshold is finite if that is asked for, and the Wilson bound of
--  its false accepts is not above the target with its margin; the version goes up by one, semantic
--  hits are enabled, and the counters since the fit and the calibration and those of the monitor
--  are 0.
--  `put` stores survives the evictions of that `put`: its response is in the store afterwards. It
--  is assumed that the store and the valid policy hold the same keys before, that the indexing
--  returns and that the oracle's `remove` raises nothing.
--  sequence of `upsert` and `delete` is called on a valid store, with embeddings of one width, no
--  call raises, the store is valid afterwards, and looking a key up gives what the same updates of
--  a map from keys to entries give. Valid means that each key with an index stands at that index
--  of the list of keys, that the row, the norm and the namespace at the index are those of the
--  key's entry, and that the sizes agree. It is assumed that numpy writes a vector of a row's
--  width as it is.
--  store raises nothing and returns at most `top_k` results. Each is an entry that the store holds
--  under some key, with its similarity to the query as the score in place of its own: the product
--  of the query and the row at the entry's index, which cosine similarity divides by the product
--  of the two norms if that is positive and else takes as 0. If a namespace is asked for, the
--  entry is of that namespace. It is assumed that numpy's product has a number for each row if the
--  widths agree, that `argpartition` gives as many positions of the array as asked for, and that
--  -inf is not a NaN.
--  policy ends in one of three ways: with the response and the decision of the pair-level lookup;
--  with no response and a decision that accepts nothing; or with the response that the key-value
--  store has under the key of the decision, where the policy selected a candidate with this key
--  from the latest record of the query, and the candidate's score passes the threshold in force.
--  The policy's selection may answer anything and may raise.
--  passed the gate of the configuration, with the target that the call names, on the scores of the
--  selected false hits: there are at least `min_selected_h0` of them, the threshold is finite if
--  that is asked for, the Wilson bound of those that it accepts is not above the target with its
--  margin, and it accepts at most `min(floor(target * n), n)` of the `n` scores. The scores are
--  finite, and floats obey the order laws.
--  mode (lookup, put, invalidate), a gateway with a policy and a bound, whose store and policy
--  hold the same keys within the bound, still is one afterwards. It is assumed that the oracle's
--  `remove` and `index` raise nothing; its `decide` and the query-level policy may answer anything
--  and may raise.
--  returns the gateway's response, decision and metadata, or its error, and leaves the gateway as
--  the gateway's own lookup leaves it.
--  to whatever part, with the default eviction policy no addition raises, and afterwards no pair
--  is in both the training and the calibration part, no bucket has more examples than its
--  capacity, the keys of a bucket are those of its examples, and each counter counts exactly the
--  keys of its part.
--  judge, stores and builder of features: where it returns, the collector's counters have grown by
--  those of the result, at most `top_k` candidates are observed or skipped, the judge is asked at
--  most once for an observed pair, and labels and failures add up to the observed pairs, or to one
--  more. Where it raises, `raise_on_failure` or `collect_uncertain` is set.
--  parts in their shares, whether it returns or raises and whatever the judge, the stores and the
--  builder do. Without `calibration_fraction`, if of the pairs that were split, of either label,
--  all were sent to the store, as many to calibration as there are full rounds of
--  `calibration_every_n` and the others to training, and no uncertain pair was sent to
--  calibration, then this is so afterwards. `calibration_every_n` is positive, and the training
--  store notes its calls.
--  store and the policy with the same keys, a valid policy, and at most `max_entries` responses:
--  it evicts until the bound holds. It is assumed that the store and the valid policy hold the
--  same keys before and that the oracle's `remove` raises nothing.
--  that `decide` accepts, with or without shadow collection, is served a best candidate: the
--  decision is that on a snapshot of the oracle and on what the vector store returned for the
--  snapshot's `top_k`; semantic hits are enabled and there is a threshold; the key, the rank and
--  the score are those of a candidate that passes the threshold, and no candidate that passes has
--  a greater score. Floats obey the order laws; `decide` returns, and the threshold provider, the
--  judge, the shadow collector and the training store may answer anything.
--  scores: each score that it accepts, the computed threshold accepts too, under the same tie
--  mode. Floats obey the order laws.
--  use, and one that returns none leaves the scorer, the threshold and its version as they are. In
--  the first case the scorer is the old one, and the threshold is the one calibrated on that
--  scorer's scores of the rows and has passed the gate on these scores: the rows are enough, the
--  threshold is finite if that is asked for, and the Wilson bound of its false accepts is not
--  above the target with its margin; the version goes up by one, semantic hits are enabled, the
--  counters since the calibration are 0 and those since the fit are kept.
--  semantic hits are enabled and there is a threshold, if the score of some candidate passes it
--  and the scan returns, then the decision is accepted. Floats obey the order laws.
--  raises `alpha_t` has a Wilson bound on the control outcomes, this one included, and the bound
--  is not above the target. Floats obey the order laws.
--  within their lengths and in step, and `alpha_t` between `alpha_min` and `alpha_max`, whatever
--  the score, the label, the decision and the gate. Floats obey the order laws.
--  to refit, and for the last two the context has what the action needs: no fit is running; for a
--  new threshold there is one already, no scorer, embedding or traffic change asks for a refit,
--  and the calibration data and cooldown suffice; for a new fit the training data and the refit
--  cooldown suffice. So the policy never disables the semantic hits.
--  as are missing to the patience stop it.
--  were accepted than there are, of either label, then this is so after a `decide` that returns,
--  with or without shadow collection, whatever the threshold provider, the vector store, the judge
--  and the training store answer. It is assumed that a shadow collector counts a judged candidate
--  that is served among the pairs that it added with its label.
--  of them: the training, the calibration and the evaluation part, put together, are the rows in
--  their order, and the first two are not empty. It is assumed that a fifth of the number of rows,
--  rounded down but at least one, is less than that number.
--  patience is positive, and the controller has stopped exactly when its count of stable checks
--  has reached the patience.
--  key and for one that is there: entries are kept under their own keys, no key twice, insertion
--  orders and access ticks are at most their counters and differ from entry to entry.
--  and for an unknown one: entries under their own keys, no key twice, insertion orders and access
--  ticks at most their counters and different from entry to entry.
--  policy, the policy is valid, and what it knows of a key is what the events say, where it knew
--  nothing of the key before: nothing if the key was not inserted since its last removal; else the
--  time of the last insertion, the number of accesses since then, the insertion included, and the
--  time of the last of them. What it knew before counts as if it came from earlier events.
--  on an in-memory threshold provider, `get_threshold` answers the threshold that was set last for
--  just this key (scorer, scope, region and cluster) and not cleared since. If there is none, it
--  raises `KeyError` where the provider was cleared, and answers as before the sequence where it
--  was not.
--  over a training store that raises nothing, a request leaves the oracle's monitor valid: if no
--  more judged pairs were accepted than there are, of either label, then this is so after a
--  `decide` that returns, in whatever state the collector is, and whatever the judges, the
--  builder, the records of queries, the vector store and the threshold provider answer.
--  eviction policy, keeps the store valid: no pair in both parts, buckets within their capacities
--  with the keys of their examples, and counters that count exactly the keys of their parts.
--  values one by one holds the last of all the values, as many as the bound, in their order.
--  one of the candidates, no candidate has a greater score, and none with the same score has an
--  earlier rank; a missing rank counts as one more than the number of candidates. Floats obey the
--  order laws.
--  accounts for every record: if it returns, each record is a decision or is counted as skipped,
--  the selected H0 scores and the abstentions together are at most the decisions, and the H0
--  scores of all pairs are those of all candidates labeled as false hits, in order.
--  loaded by `load_state_dict` is the same controller: its configuration, its windows and all its
--  counters.
--  on as much fuel as the policy has entries, from a store and a valid policy with the same keys,
--  it returns with the policy and the store in step and at most the bound of entries, and with any
--  property that each eviction keeps. It is assumed that the oracle's `remove` raises nothing.
--  whatever their scores and thresholds: the control audits are those that the generator of random
--  numbers draws for as many requests, independently of scores and thresholds, the generator ends
--  in the same state, and each decision is in a zone of acceptance exactly if its margin is not
--  negative. Floats obey the order laws, and 0 is a number.
pub mod Prelude
pub mod Dict
pub mod Types
pub mod Float
pub mod Threshold
pub mod Wilson
pub mod Stopping
pub mod Aci
pub mod Audit
pub mod QueryLevel
pub mod Refit
pub mod Oracle
pub mod Tests
pub mod Eviction
pub mod KvStore
pub mod Retrieval
pub mod Feedback
pub mod Gateway
pub mod Runtime
