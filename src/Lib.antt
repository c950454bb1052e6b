-- ===== src/Lib.antt =====
-- A verification library for 2dph, a knowledge base that indexes mail, chats, git history and
-- documents as leafs, keeps facts apart from narrative, and answers searches over both.
--
-- The parts of the program and how they interact. Readers of the corpora emit leafs
-- (internal/contract); the indexer counts them and writes them in chunks
-- (internal/brain/corpus_chunk.go). A periodic cycle (internal/indexsync) runs the indexer and its
-- companions while the server of the brain is stopped. Mail and other feeds are fetched by the
-- driver of internal/source, which hands the items to a handler; the pipeline of internal/runner
-- puts handlers, a transform and a load behind it. Of a message the graph gets its persons and
-- edges (internal/brain/graphplan.go), and from the letters and commits in the graph the network of
-- a person is made (internal/network). A search runs on the text index and on the vectors, and the
-- two lists are fused, filtered and cut (internal/brain/rank), with the interval of truth of each
-- leaf (internal/facts/interval.go); where no confirmed fact was found, the web is asked. What
-- counts as a fact is decided by the evidence rules of internal/facts.
--
-- Which file models which part.
-- Base: strings as lists of bytes, lists, stable sorting, and maps as association lists in the
--   order of insertion.
-- Facts/Interval: internal/facts/interval.go and intervalsOverlap of internal/facts/formal.go.
-- Facts/Contradict: internal/facts/contradict.go, Adjudicate as `adjudicate`.
-- Facts/Formal: internal/facts/formal.go, CheckURLContradiction as `check_contradiction`,
--   CheckURLIdentity as `check_identity`, CheckExcludedMiddle as `check_excluded_middle`,
--   CheckFormal as `check_formal`.
-- Facts/Audit: internal/facts/auditcard.go, internal/facts/checkfact.go and CheckSufficientReason.
-- Contract: internal/contract/contract.go, and in Contract/Read internal/contract/read.go.
-- Corpus: internal/brain/corpus_chunk.go, CountCorpus as `count_corpus` and WriteCorpusChunked
--   as `write_corpus_chunked`, in Corpus/Pool chunkBounds and filterExistingLeafs of
--   internal/brain/corpus_pool.go, and in Corpus/Workers parallelEmbed of the same file, as the
--   moves `feed` and `finish` of its loop and workers.
-- Rank: internal/brain/rank/rank.go and internal/brain/rank/escalate.go.
-- Sync: internal/source/sync.go, internal/source/checkpoint.go and internal/source/source.go, Sync
--   as `sync`.
-- IndexSync: internal/indexsync/indexsync.go, Cycle as `cycle`, whose tools and saves are events.
-- Address: internal/address/address.go, New as `new_url` and Parse as `parse_url`.
-- Selector: Apply of internal/selector/selector.go as `apply`, on the items of
--   internal/items/items.go.
-- Ann: internal/brain/ann/ann.go and internal/brain/ann/wal.go. Ann itself is the index in
--   memory, Ann/Wal the log and Upsert as `upsert`, Ann/Snapshot the bytes of the snapshot,
--   Ann/Kmeans the k-means, Ann/Files Open, Save, SaveTo and Build on the files, Ann/Sessions their
--   use one after the other, Ann/Search the search. A file operation that can fail takes the step
--   at which it fails as an argument.
-- Network: internal/network/network.go, BuildLinks as `build_links`. Network/Periods holds the texts
--   of periods, Network/Links a link in progress, Network/Build the channels of letters, dialogues
--   and commits one after the other.
-- Facts/Crm: internal/facts/crmmerge.go and internal/facts/crmassoc.go, CRMAssocFacts as
--   `crm_assoc_facts`.
-- GraphPlan: internal/brain/graphplan.go and internal/canon/model.go, planGraph as `plan_graph` and
--   Edges as `edges`.
-- Runner: internal/runner/pipeline.go, internal/runner/report.go and internal/etl/registry.go. The
--   stages of Run are the steps of Runner/Pipeline.
-- Tests: the theorems on concrete data.
--
-- How code becomes definitions. A loop is a structural recursion over the list it runs on, and
-- needs no fuel, but for the loop of Sync, whose fuel is a number of rounds: a theorem says how
-- many are enough for a source that comes to an end, and the loop of chunkBounds, which has as many
-- rounds of fuel as the list has elements and takes one at least in each. Stages that run side by
-- side are a step relation. A Go map that is filled in a loop is an association list; where the
-- code then sorts the keys or keeps them in a list of their own, the order is the code's. An error
-- is a value. A callback that changes captured variables is a function from their state to the next
-- one. Counts are natural numbers. Integers of Go that could only overflow after 2^63 steps are not
-- bounded.
--
-- What is given as a parameter: SHA-256 and ToValidUTF8 (Contract), CanonicalURL, which rests on
-- net/url (Facts/Formal), the writer of the graph and the context (Corpus), the source, the
-- handler, the hash and the file system (Sync), the decoder of JSON (Contract/Read), the printer of
-- numbers (Facts/Contradict), floating-point numbers (Rank), lower case in Unicode (Network,
-- Facts/Crm), the reading of dates, the kinds of senders and the order of a Go map (Network), the
-- handlers, the transform and the load (Runner), the ids of paragraphs (GraphPlan), and the cosine,
-- the mean of numbers, the shuffle, the random numbers and the sorts that are not stable (Ann).
--
-- What is not modelled: message texts, the database, the network clients, the converters of mail
-- and documents, and the commands, which are input and output; that a snapshot or a log which is
-- there cannot be read at all when an index is opened; and that the brain does not start again when
-- a cycle releases it, which the code only prints.
mod Base
pub mod Facts
pub mod Contract
pub mod Corpus
pub mod Rank
pub mod Sync
pub mod IndexSync
pub mod Address
pub mod Tests
pub mod Selector
pub mod Ann
pub mod Network
pub mod Runner
pub mod GraphPlan
